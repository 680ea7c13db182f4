-- ===== src/Database/Dropped.antt =====
-- src/annex/db.py: what dropping a collection does for its name and for the others.
use python_pj.Prelude.{Bool, true, false, Option, none, some, string_eq}
use python_pj.Prelude.Dict.{Dict}
use python_pj.Database.{DbError, not_found_error, Database}

-- the answer of a drop: none when the directory is there
abbrev pub drop_answer : Bool → Option DbError
drop_answer true = none
drop_answer false = some not_found_error
