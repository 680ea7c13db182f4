-- ===== src/Collection/Batches.antt =====
-- src/annex/db.py: what a batch of upserts does.
use python_pj.Prelude.{
  ℕ, suc, ◌+◌, ◌≡◌, refl, ap, ◌∙◌, inl, inr, none, some, List, [], ◌∷◌, map, arith, length,
  Option-cases,
}
use python_pj.Storage.Lsm.{checkpoint}
use python_pj.Storage.Recovery.{Durable}
use python_pj.Collection.{
  Engines, Collection, Write, upsert_op, apply_upsert, apply_write, apply_writes,
}
use python_pj.Collection.Reads.{BatchRecord, upsert_batch, upsert_many}
use python_pj.Collection.Snapshots.{Sound}
use python_pj.Collection.Committed.{Applied, AreReady, apply_writes-Applied, checkpointed-Applied}

some_same : {A : Type 0} {a b : A} → some a ≡ some b → a ≡ b
some_same e = cc e

-- the upsert of a record
abbrev pub as_write : {R J : Type 0} → BatchRecord R J → Write R J
as_write r = upsert_op r.id r.vector r.metadata r.text

module _ {R V J I T : Type 0} (x : Engines R V I T) (now : ℕ) where
  upsert_batch-apply_writes :
      (rs : List (BatchRecord R J)) (n : ℕ) (c : Collection V J I T)
      → upsert_batch x now rs (n, c) ≡ apply_writes x now (map as_write rs) (n, c)
  unfolding upsert_batch apply_writes apply_write
  upsert_batch-apply_writes [] n c = refl
  upsert_batch-apply_writes (r ∷ rs) n c =
      elim (Option-cases (apply_upsert x now r.id r.vector r.metadata r.text c)) [
        | inl e ↦ rw e refl
        | inr (c', e) ↦ rw e (upsert_batch-apply_writes rs (suc n) c')
      ]

  upsert_batch-length :
      (rs : List (BatchRecord R J)) (n : ℕ) (c : Collection V J I T) (r : ℕ × Collection V J I T)
      → upsert_batch x now rs (n, c) ≡ some r
      → r.0 ≡ n + length rs
  unfolding upsert_batch
  upsert_batch-length [] n c r e = omega (arith, ap (λ p. p.0) (some_same e))
  upsert_batch-length (b ∷ rs) n c r e =
      elim (Option-cases (apply_upsert x now b.id b.vector b.metadata b.text c)) [
        | inl f ↦ let never : none ≡ some r = rw f at e in absurd (cc)
        | inr (c', f) ↦ omega (arith, upsert_batch-length rs (suc n) c' r (rw f at e))
      ]

  -- On a sound collection whose store is durable, a batch whose records are valid upserts, with the
  -- clock past the compactions and sequence numbers left at each of them, succeeds and counts its
  -- records; the collection is then sound and its store durable, a reader at an earlier sequence
  -- number sees under every key what it saw, and each id has the metadata and text of its last record
  -- in the batch, and what it had if there is none.
  pub upsert_many-Applied :
      (rs : List (BatchRecord R J)) (c : Collection V J I T)
      → Sound c
      → Durable c.store
      → AreReady x now (map as_write rs) (0, c)
      → (c' : Collection V J I T) × (upsert_many x now rs c ≡ some (length rs, c'))
        × Applied (map as_write rs) c c'
  unfolding upsert_many
  upsert_many-Applied rs c sound durable ready =
      let (r, e, a) = apply_writes-Applied x now (map as_write rs) 0 c sound durable ready in
      let batch : upsert_batch x now rs (0, c) ≡ some r = upsert_batch-apply_writes rs 0 c ∙ e in
      let counts : r.0 ≡ length rs = omega (arith, upsert_batch-length rs 0 c r batch) in
      (
        record (r.1) { store = checkpoint r.1.store },
        rw (batch, counts) refl,
        checkpointed-Applied x now (map as_write rs) c r.1 a,
      )
