-- ===== src/Rocks/Reference.antt =====
-- A database in memory that behaves as `IsRocks` says: the rows themselves, an iterator being a
-- position. It shows that the assumptions can be met, and is what the examples run on.
use distributed_rocks_db_tes.Prelude.{◌≡◌, refl, sym, some, [], subst}
use distributed_rocks_db_tes.Prelude.Bytes.{Bytes}
use distributed_rocks_db_tes.Rocks.{Rocks, IsRocks}
use distributed_rocks_db_tes.Rocks.Entries.{
  Rows, Position, off, on, IsSorted, insert, erase, lookup, rows_of, first, last, seek, next, prev,
  is_on, insert-IsSorted, erase-IsSorted,
}

-- A database is its rows and that they are sorted.
abbrev pub MemoryDb : Type 0
MemoryDb = (rows : Rows) × IsSorted rows

abbrev next_of : Position → Position
next_of (off rows) = off rows
next_of (on b e a) = next b e a

abbrev prev_of : Position → Position
prev_of (off rows) = off rows
prev_of (on b e a) = prev b e a

abbrev key_of : Position → Bytes
key_of (off rows) = []
key_of (on b e a) = e.key

abbrev value_of : Position → Bytes
value_of (off rows) = []
value_of (on b e a) = e.value

-- `stored` has the database at each location.
abbrev pub memory_with : (Bytes → MemoryDb) → Rocks MemoryDb Position
memory_with stored = record {
  open_db = λ location. some (stored location);
  put = λ o k v d. (insert k v d.0, insert-IsSorted k v d.0 d.1);
  delete = λ o k d. (erase k d.0, erase-IsSorted k d.0 d.1);
  get = λ k d. lookup k d.0;
  new_iterator = λ d. off d.0;
  seek_to_first = λ it. first (rows_of it);
  seek_to_last = λ it. last (rows_of it);
  seek = λ k it. seek k (rows_of it);
  next = next_of;
  prev = prev_of;
  valid = is_on;
  key = key_of;
  value = value_of;
  overwrite_key = λ k it. it;
}

abbrev pub memory : Rocks MemoryDb Position
memory = memory_with (λ location. ([], tt))

pub rows_of-off : (rows : Rows) → rows_of (off rows) ≡ rows
unfolding rows_of
rows_of-off rows = refl

abbrev pub memory_with-IsRocks : (stored : Bytes → MemoryDb) → IsRocks (memory_with stored)
memory_with-IsRocks stored = record {
  rows = λ d. d.0;
  position = λ it. it;
  rows-IsSorted = λ d. d.1;
  rows-put = λ k v d. refl;
  rows-delete = λ k d. refl;
  get_lem = λ k d. refl;
  rows_of-new_iterator = λ d. rows_of-off d.0;
  position-seek_to_first = λ it. refl;
  position-seek_to_last = λ it. refl;
  position-seek = λ k it. refl;
  valid_lem = λ it. refl;
  position-next = λ it b e a h. subst (λ p. next_of p ≡ next b e a) (sym h) refl;
  position-prev = λ it b e a h. subst (λ p. prev_of p ≡ prev b e a) (sym h) refl;
  key_lem = λ it b e a h. subst (λ p. key_of p ≡ e.key) (sym h) refl;
  value_lem = λ it b e a h. subst (λ p. value_of p ≡ e.value) (sym h) refl;
}

abbrev pub memory-IsRocks : IsRocks memory
memory-IsRocks = memory_with-IsRocks (λ location. ([], tt))
