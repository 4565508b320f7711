-- ===== src/Rocks.antt =====
-- RocksDB as the program uses it: a database and its iterators, which the program links against and
-- does not implement. `Rocks` is the operations it calls; `IsRocks` is the documented behaviour that
-- the theorems rely on, as a description by `Rows` (the entries in the order of the default
-- comparator) and `Position` (where an iterator stands in its snapshot).
-- Each call's documented behaviour is in Rocks/Calls. Statuses other than found and not found,
-- durability, and the options but for those of a write are not part of it.
pub mod Entries
pub mod Calls
pub mod Places
pub mod Extremes
pub mod Reference
use distributed_rocks_db_tes.Prelude.{Bool, Option}
use distributed_rocks_db_tes.Prelude.Bytes.{Bytes}
use Entries.{Rows, Position, IsSorted}
use Calls.{
  WriteOptions, Puts, Deletes, Gets, Opens, IsTest, SeeksFirst, SeeksLast, Seeks, StepsNext,
  StepsPrev, ReadsKey, ReadsValue,
}

pub record Rocks (Db Iterator : Type 0) : Type 0 where
  -- DB::Open with create_if_missing; `none` is a status that is not ok.
  pub open_db : Bytes → Option Db
  pub put : WriteOptions → Bytes → Bytes → Db → Db
  pub delete : WriteOptions → Bytes → Db → Db
  pub get : Bytes → Db → Option Bytes
  pub new_iterator : Db → Iterator
  pub seek_to_first : Iterator → Iterator
  pub seek_to_last : Iterator → Iterator
  pub seek : Bytes → Iterator → Iterator
  pub next : Iterator → Iterator
  pub prev : Iterator → Iterator
  pub valid : Iterator → Bool
  pub key : Iterator → Bytes
  pub value : Iterator → Bytes
  -- Bytes written over those that `key().data()` points to, which the interface forbids.
  pub overwrite_key : Bytes → Iterator → Iterator

pub record IsRocks {Db Iterator : Type 0} (r : Rocks Db Iterator) : Type 0 where
  pub rows : Db → Rows
  pub position : Iterator → Position
  pub rows-IsSorted : (d : Db) → IsSorted (rows d)
  pub rows-put : Puts rows r.put
  pub rows-delete : Deletes rows r.delete
  pub get_lem : Gets rows r.get
  pub rows_of-new_iterator : Opens position rows r.new_iterator
  pub position-seek_to_first : SeeksFirst position r.seek_to_first
  pub position-seek_to_last : SeeksLast position r.seek_to_last
  pub position-seek : Seeks position r.seek
  pub valid_lem : IsTest position r.valid
  pub position-next : StepsNext position r.next
  pub position-prev : StepsPrev position r.prev
  pub key_lem : ReadsKey position r.key
  pub value_lem : ReadsValue position r.value
