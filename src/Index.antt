-- ===== src/Index.antt =====
-- src/annex/index: the vector indexes. Distances are values of a type `R` with an order `less`, which
-- stands for `<` on Python's floats without NaN; vectors are values of a type `V`.
pub mod Heap
pub mod Beam
pub mod Neighbors
pub mod Hnsw
pub mod Sorted
pub mod Rounds
pub mod Descent
pub mod Found
pub mod Reach
pub mod Chosen
pub mod Tidy
pub mod Entry
pub mod Levels
pub mod Sound
pub mod Adding
pub mod Search
pub mod Flat
pub mod Shuffled
pub mod Nearest
pub mod Exact
