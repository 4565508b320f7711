-- ===== src/Rocks/Calls.antt =====
-- What RocksDB documents of each call that the program makes, as a condition on the call, in terms of the
-- entries of a database, `rows`, and of where an iterator stands in its snapshot, `position`.
use distributed_rocks_db_tes.Prelude.{◌≡◌, Bool, false, Option}
use distributed_rocks_db_tes.Prelude.Bytes.{Bytes}
use distributed_rocks_db_tes.Rocks.Entries.{
  Entry, Rows, Position, on, insert, erase, lookup, rows_of, first, last, seek, next, prev, is_on,
}

-- The options of a write, but for the timestamp, which is null.
pub record WriteOptions : Type 0 where
  pub sync : Bool
  pub disable_wal : Bool
  pub ignore_missing_column_families : Bool
  pub no_slowdown : Bool
  pub low_pri : Bool
  pub memtable_insert_hint_per_batch : Bool

abbrev pub default_write_options : WriteOptions
default_write_options = record {
  sync = false;
  disable_wal = false;
  ignore_missing_column_families = false;
  no_slowdown = false;
  low_pri = false;
  memtable_insert_hint_per_batch = false;
}

module _ {Db : Type 0} (rows : Db → Rows) where
  -- A write with the default options.
  abbrev pub Puts : (WriteOptions → Bytes → Bytes → Db → Db) → Type 0
  Puts put = (k v : Bytes) (d : Db) → rows (put default_write_options k v d) ≡ insert k v (rows d)

  abbrev pub Deletes : (WriteOptions → Bytes → Db → Db) → Type 0
  Deletes delete = (k : Bytes) (d : Db) → rows (delete default_write_options k d) ≡ erase k (rows d)

  abbrev pub Gets : (Bytes → Db → Option Bytes) → Type 0
  Gets get = (k : Bytes) (d : Db) → get k d ≡ lookup k (rows d)

module _ {Iterator : Type 0} (position : Iterator → Position) where
  -- An iterator reads a snapshot of the database at its creation.
  abbrev pub Opens : {Db : Type 0} → (Db → Rows) → (Db → Iterator) → Type 0
  Opens {Db} rows new_iterator = (d : Db) → rows_of (position (new_iterator d)) ≡ rows d

  abbrev pub IsTest : (Iterator → Bool) → Type 0
  IsTest valid = (it : Iterator) → valid it ≡ is_on (position it)

  abbrev pub SeeksFirst : (Iterator → Iterator) → Type 0
  SeeksFirst seek_to_first =
      (it : Iterator) → position (seek_to_first it) ≡ first (rows_of (position it))

  abbrev pub SeeksLast : (Iterator → Iterator) → Type 0
  SeeksLast seek_to_last =
      (it : Iterator) → position (seek_to_last it) ≡ last (rows_of (position it))

  abbrev pub Seeks : (Bytes → Iterator → Iterator) → Type 0
  Seeks sought =
      (k : Bytes) (it : Iterator) → position (sought k it) ≡ seek k (rows_of (position it))

  -- The rest requires a valid iterator.
  abbrev pub StepsNext : (Iterator → Iterator) → Type 0
  StepsNext step =
      (it : Iterator) (b : Rows) (e : Entry) (a : Rows)
      → position it ≡ on b e a
      → position (step it) ≡ next b e a

  abbrev pub StepsPrev : (Iterator → Iterator) → Type 0
  StepsPrev step =
      (it : Iterator) (b : Rows) (e : Entry) (a : Rows)
      → position it ≡ on b e a
      → position (step it) ≡ prev b e a

  abbrev pub ReadsKey : (Iterator → Bytes) → Type 0
  ReadsKey key =
      (it : Iterator) (b : Rows) (e : Entry) (a : Rows) → position it ≡ on b e a → key it ≡ e.key

  abbrev pub ReadsValue : (Iterator → Bytes) → Type 0
  ReadsValue value =
      (it : Iterator) (b : Rows) (e : Entry) (a : Rows)
      → position it ≡ on b e a
      → value it ≡ e.value
