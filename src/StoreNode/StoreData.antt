-- ===== src/StoreNode/StoreData.antt =====
-- my_code/store_node/store_data: the key-value data of a node and the running count of its bytes.
-- The buffer of the class, which nothing uses, is not modelled.
pub mod Size
pub mod Contents
pub mod Interface
use distributed_rocks_db_tes.Prelude.{
  ℕ, ◌+◌, ◌-◌, ◌%◌, ◌^◌, ◌==◌, Bool, Option, none, some, if◌then◌else◌, length, ◌>>=◌, ◌≡◌, ◌<◌,
}
use distributed_rocks_db_tes.Prelude.Bytes.{Bytes}
use distributed_rocks_db_tes.HandleBuff.{to_int, c_string}
use distributed_rocks_db_tes.Rocks.{Rocks}
use distributed_rocks_db_tes.DbHandle
use distributed_rocks_db_tes.DbHandle.{DbHandle, open_handle, null_handle}

pub record Data : Type 0 where
  pub key : Bytes
  pub value : Bytes

pub record StoreData (Db : Type 0) : Type 0 where
  pub db_handle : DbHandle Db
  pub size : ℕ

-- The constructors of an entry: from two strings, and from two char arrays that end in a NUL.
abbrev pub data_of_strings : Bytes → Bytes → Data
data_of_strings key value = record { key = key; value = value }

unfoldable pub data_of_chars : Bytes → Bytes → Option Data
data_of_chars key value = do
  key' ← c_string key
  value' ← c_string value
  some (data_of_strings key' value')

-- The default constructor, with a database that is null.
abbrev pub null_data : {Db : Type 0} → StoreData (Option Db)
null_data = record { db_handle = null_handle; size = 0 }

abbrev pub get_db : {Db : Type 0} → StoreData Db → DbHandle Db
get_db d = d.db_handle

-- a - b on ints.
abbrev pub sub_int : ℕ → ℕ → ℕ
sub_int a b = (a + (2 ^ 32 - to_int b)) % 2 ^ 32

-- The subtraction that `delete_1` and `put` make first, where the old value is not empty.
unfoldable pub forget : Bytes → Bytes → ℕ → ℕ
forget key value size =
    if length value == 0 then size else sub_int (sub_int size (length value + 1)) (length key + 1)

module _ {Db Iterator : Type 0} (r : Rocks Db Iterator) where
  unfoldable pub open_data : ℕ → Bytes → Option (StoreData Db)
  open_data fuel location = do
    db_handle ← open_handle r location
    size ← DbHandle.get_size r fuel db_handle
    some (record { db_handle = db_handle; size = size })

  unfoldable pub get : Bytes → StoreData Db → Bytes
  get key d = DbHandle.get r key d.db_handle

  unfoldable pub delete_1 : Bytes → StoreData Db → StoreData Db
  delete_1 key d =
      let value = DbHandle.get r key d.db_handle in
      record { db_handle = DbHandle.delete_1 r key d.db_handle; size = forget key value d.size }

  unfoldable pub put : Data → StoreData Db → StoreData Db
  put data' d =
      let value = DbHandle.get r data'.key d.db_handle in
      record {
        db_handle = DbHandle.put r data'.key data'.value d.db_handle;
        size = to_int (forget data'.key value d.size + length data'.key + length data'.value + 2);
      }

  unfoldable pub get_size : StoreData Db → ℕ
  get_size d = d.size

  -- The strings that the caller passes are overwritten only if there is an entry.
  unfoldable pub entry_at : Iterator → Bytes → Bytes → Bytes × Bytes
  entry_at it key value = if r.valid it then (r.key it, r.value it) else (key, value)

  unfoldable pub get_max_key : Bytes → Bytes → StoreData Db → Bytes × Bytes
  get_max_key max_key value d =
      entry_at (r.seek_to_last (r.new_iterator d.db_handle.db)) max_key value

  unfoldable pub get_min_key : Bytes → Bytes → StoreData Db → Bytes × Bytes
  get_min_key min_key value d =
      entry_at (r.seek_to_first (r.new_iterator d.db_handle.db)) min_key value
