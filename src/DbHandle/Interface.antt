-- ===== src/DbHandle/Interface.antt =====
-- The methods that my_code/db_handle/db_handle.h declares, and what a user of them may rely on: a map in
-- the order of the keys. `Table` has a field for each method that the class declares, overloads apart by
-- their names.
use distributed_rocks_db_tes.Prelude.{ℕ, Bool, Option, some, length, ◌≡◌, leb, ◌<◌, ◌^◌, ◌++◌}
use distributed_rocks_db_tes.Prelude.Bytes.{Bytes}
use distributed_rocks_db_tes.HandleBuff.{to_int}
use distributed_rocks_db_tes.Rocks.{Rocks, IsRocks}
use distributed_rocks_db_tes.Rocks.Entries.{
  Rows, Position, insert, erase, lookup, rows_of, IsSorted,
}
use distributed_rocks_db_tes.DbHandle
use distributed_rocks_db_tes.DbHandle.{DbHandle, value_or_empty, to_string}
use distributed_rocks_db_tes.DbHandle.Counts.{
  bytes_of, get_num_lem, get_size_lem, store_less_or_equal_one_lem,
}
use distributed_rocks_db_tes.DbHandle.Floor.{
  IsFloor, get_smaller_or_equal_but_as_large_as_possible-IsFloor,
}
use distributed_rocks_db_tes.DbHandle.Rows.{
  put_key_buf-rows, put_bufs-rows, rows-put_handle, rows-delete_handle, get_handle,
}

pub record Table (Null Handle Db Iterator : Type 0) : Type 0 where
  -- The default constructor makes a handle that has no database yet.
  pub null_handle : Null
  pub open_handle : Bytes → Option Handle
  pub put_bufs : Bytes → ℕ → Bytes → ℕ → Handle → Option Handle
  pub put_strings : Bytes → Bytes → Handle → Handle
  pub put_string_slice : Bytes → Bytes → Handle → Handle
  pub put_key_buf : Bytes → ℕ → Bytes → Handle → Option Handle
  pub put : Bytes → Bytes → Handle → Handle
  pub put_slice_string : Bytes → Bytes → Handle → Handle
  pub put_num : ℕ → Bytes → Handle → Handle
  pub get_iterator : Bytes → ℕ → Handle → Option (Iterator × Bool)
  pub get_iterator_str : Bytes → Handle → Option (Iterator × Bool)
  pub get : Bytes → Handle → Bytes
  pub delete_1 : Bytes → Handle → Handle
  pub get_smaller_or_equal_but_as_large_as_possible : Bytes → Iterator → Iterator × Bool
  pub get_db : Handle → Db
  -- The loops take fuel.
  pub get_num : ℕ → Handle → Option ℕ
  pub get_size : ℕ → Handle → Option ℕ
  pub store_less_or_equal_one : Handle → Option Bool

-- What the methods do to a map, `rows`, of a handle, and to the place of an iterator.
pub record IsMap {Null Handle Db Iterator : Type 0} (t : Table Null Handle Db Iterator)
    (rows : Handle → Rows) (position : Iterator → Position) : Type 0 where
  pub rows-put_string_slice :
      (k v : Bytes) (h : Handle) → rows (t.put_string_slice k v h) ≡ insert k v (rows h)
  pub rows-put_strings :
      (k v : Bytes) (h : Handle) → rows (t.put_strings k v h) ≡ insert k v (rows h)
  pub rows-put : (k v : Bytes) (h : Handle) → rows (t.put k v h) ≡ insert k v (rows h)
  pub rows-put_slice_string :
      (k v : Bytes) (h : Handle) → rows (t.put_slice_string k v h) ≡ insert k v (rows h)
  pub rows-put_num :
      (n : ℕ) (v : Bytes) (h : Handle) → rows (t.put_num n v h) ≡ insert (to_string n) v (rows h)
  -- A pointer to the bytes of a key or of a value, and how many they are; there may be more behind them.
  pub rows-put_key_buf :
      (k behind v : Bytes) (h : Handle)
      → length k < 2 ^ 31
      → (h' : Handle) × (t.put_key_buf (k ++ behind) (length k) v h ≡ some h')
        × (rows h' ≡ insert k v (rows h))
  pub rows-put_bufs :
      (k behind v behind' : Bytes) (h : Handle)
      → length k < 2 ^ 31
      → length v < 2 ^ 31
      → (h' : Handle) × (t.put_bufs (k ++ behind) (length k) (v ++ behind') (length v) h ≡ some h')
        × (rows h' ≡ insert k v (rows h))
  pub rows-delete_1 : (k : Bytes) (h : Handle) → rows (t.delete_1 k h) ≡ erase k (rows h)
  pub get_lem : (k : Bytes) (h : Handle) → t.get k h ≡ value_or_empty (lookup k (rows h))
  pub num_lem :
      (fuel : ℕ) (h : Handle)
      → length (rows h) < fuel
      → t.get_num fuel h ≡ some (to_int (length (rows h)))
  pub size_lem :
      (fuel : ℕ) (h : Handle)
      → length (rows h) < fuel
      → t.get_size fuel h ≡ some (to_int (bytes_of (rows h)))
  pub few_lem : (h : Handle) → t.store_less_or_equal_one h ≡ some (leb (length (rows h)) 1)
  pub floor_lem :
      (k : Bytes) (it : Iterator)
      → IsSorted (rows_of (position it))
      → IsFloor k
          (rows_of (position it))
          (position (t.get_smaller_or_equal_but_as_large_as_possible k it).0)
          (t.get_smaller_or_equal_but_as_large_as_possible k it).1

module _ {Db Iterator : Type 0} (r : Rocks Db Iterator) where
  abbrev pub table : Table (DbHandle (Option Db)) (DbHandle Db) Db Iterator
  table = record {
    null_handle = DbHandle.null_handle;
    open_handle = DbHandle.open_handle r;
    put_bufs = DbHandle.put_bufs r;
    put_strings = DbHandle.put_strings r;
    put_string_slice = DbHandle.put_string_slice r;
    put_key_buf = DbHandle.put_key_buf r;
    put = DbHandle.put r;
    put_slice_string = DbHandle.put_slice_string r;
    put_num = DbHandle.put_num r;
    get_iterator = DbHandle.get_iterator r;
    get_iterator_str = DbHandle.get_iterator_str r;
    get = DbHandle.get r;
    delete_1 = DbHandle.delete_1 r;
    get_smaller_or_equal_but_as_large_as_possible =
        DbHandle.get_smaller_or_equal_but_as_large_as_possible r;
    get_db = DbHandle.get_db;
    get_num = DbHandle.get_num r;
    get_size = DbHandle.get_size r;
    store_less_or_equal_one = DbHandle.store_less_or_equal_one r;
  }

  -- The handle is a map: the puts, by whichever overload, insert, a number under its decimal text and
  -- bytes behind a pointer, fewer than 2 ^ 31, as they are; a delete erases, a get looks up, with enough
  -- fuel the counts are those of the entries, and the search stops where `IsFloor` says.
  pub table-IsMap :
      (laws : IsRocks r)
      → IsMap table (λ h. IsRocks.rows laws (DbHandle.get_db h)) (IsRocks.position laws)
  unfolding DbHandle.get_db DbHandle.put_strings DbHandle.put_string_slice DbHandle.put_slice_string
      DbHandle.put_num
  table-IsMap laws = record {
    rows-put_string_slice = λ k v h. laws.rows-put k v h.db;
    rows-put_strings = λ k v h. laws.rows-put k v h.db;
    rows-put = rows-put_handle r laws;
    rows-put_slice_string = λ k v h. laws.rows-put k v h.db;
    rows-put_num = λ n v h. laws.rows-put (to_string n) v h.db;
    rows-put_key_buf = λ k behind v h small. put_key_buf-rows r laws k behind v h small;
    rows-put_bufs =
        λ k behind v behind' h small small'. put_bufs-rows r laws k behind v behind' h small small';
    rows-delete_1 = rows-delete_handle r laws;
    get_lem = get_handle r laws;
    num_lem = λ fuel h enough. get_num_lem r laws h fuel enough;
    size_lem = λ fuel h enough. get_size_lem r laws h fuel enough;
    few_lem = store_less_or_equal_one_lem r laws;
    floor_lem = get_smaller_or_equal_but_as_large_as_possible-IsFloor r laws;
  }
