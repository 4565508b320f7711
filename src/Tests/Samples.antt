-- ===== src/Tests/Samples.antt =====
-- The inputs that the examples share.
use distributed_rocks_db_tes.Prelude.{ℕ, zero, suc, ◌≡◌, refl, ap, [], ◌∷◌, length}
use distributed_rocks_db_tes.Prelude.Bytes.{Bytes, codes, lt_bytes}
use distributed_rocks_db_tes.HandleBuff.{Cursor}
use distributed_rocks_db_tes.Rocks.Entries.{Rows, IsSorted}
use distributed_rocks_db_tes.Rocks.Reference.{MemoryDb}
use distributed_rocks_db_tes.DbHandle.{DbHandle}

pub zeros : ℕ → Bytes
zeros zero = []
zeros (suc n) = 0 ∷ zeros n

pub length-zeros : (n : ℕ) → length (zeros n) ≡ n
unfolding zeros
length-zeros zero = refl
length-zeros (suc n) = ap suc (length-zeros n)

-- A buffer of twelve bytes, of which two are behind the pointer.
abbrev pub small_cursor : Cursor
small_cursor = record { past = 1 ∷ 2 ∷ []; ahead = 9 ∷ 9 ∷ 9 ∷ 9 ∷ 9 ∷ 9 ∷ 9 ∷ 9 ∷ 9 ∷ 9 ∷ [] }

abbrev pub three_rows : Rows
three_rows =
    record { key = codes "b"; value = codes "x" }
    ∷ record { key = codes "d"; value = codes "yy" }
    ∷ record { key = codes "f"; value = codes "z" }
    ∷ []

pub three_rows-IsSorted : IsSorted three_rows
unfolding lt_bytes
three_rows-IsSorted = ((refl, (refl, tt)), ((refl, tt), (tt, tt)))

abbrev pub three : MemoryDb
three = (three_rows, three_rows-IsSorted)

abbrev pub three_handle : DbHandle MemoryDb
three_handle = record { db = three }

abbrev pub empty : MemoryDb
empty = ([], tt)
