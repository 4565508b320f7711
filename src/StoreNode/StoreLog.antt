-- ===== src/StoreNode/StoreLog.antt =====
-- my_code/store_node/store_log: a log entry, its bytes, and the log of a node, which keeps an entry
-- as a key of its own database.
pub mod Codec
pub mod Pending
pub mod Interface
use distributed_rocks_db_tes.Prelude.{
  ℕ, zero, suc, ◌+◌, Bool, Option, none, some, List, [], ◌∷◌, ◌++◌, if◌then◌else◌, length, take,
  drop, ◌>>=◌, ◌≡◌, ◌==◌,
}
use distributed_rocks_db_tes.Prelude.Bytes.{Bytes}
use distributed_rocks_db_tes.HandleBuff.{
  Cursor, whole, start_of, to_size, insert_int_to_buff, insert_str_to_buff, get_int_from_buff,
  get_string_from_buff,
}
use distributed_rocks_db_tes.Rocks.{Rocks}
use distributed_rocks_db_tes.DbHandle
use distributed_rocks_db_tes.DbHandle.{DbHandle, open_handle, null_handle}

-- `unnamed` is an int that was cast to the enum and is none of its names.
pub data LogKind : Type 0 where
  put delete error : LogKind
  unnamed : ℕ → LogKind

unfoldable pub int_of_kind : LogKind → ℕ
int_of_kind put = 0
int_of_kind delete = 1
int_of_kind error = 2
int_of_kind (unnamed n) = n

unfoldable pub kind_of_int : ℕ → LogKind
kind_of_int zero = put
kind_of_int (suc zero) = delete
kind_of_int (suc (suc zero)) = error
kind_of_int n = unnamed n

pub record Log : Type 0 where
  pub kind : LogKind
  pub key : Bytes
  pub value : Bytes

abbrev pub log_of_parts : LogKind → Bytes → Bytes → Log
log_of_parts kind key value = record { kind = kind; key = key; value = value }

abbrev pub get_kind : Log → LogKind
get_kind log = log.kind

abbrev pub get_key : Log → Bytes
get_key log = log.key

abbrev pub get_value : Log → Bytes
get_value log = log.value

-- The entry written from a cursor on, with the cursor behind it and the length of the slice.
unfoldable pub to_slice : Log → Cursor → Option (Cursor × ℕ)
to_slice log buff = do
  (tmp, total_len) ← insert_int_to_buff buff (int_of_kind log.kind) 0
  (tmp', total_len') ← insert_str_to_buff tmp log.key total_len
  insert_str_to_buff tmp' log.value total_len'

-- The bytes of the slice of `size` bytes from `start` on, in the buffer that ends up as `end`.
abbrev pub slice_bytes : Cursor → Cursor → ℕ → Bytes
slice_bytes start end size = take (to_size size) (drop (length start.past) (whole end))

unfoldable pub log_of_buff : Bytes → Option Log
log_of_buff buff = do
  (log_kind, tmp) ← get_int_from_buff buff
  (key, tmp') ← get_string_from_buff tmp
  (value, tmp'') ← get_string_from_buff tmp'
  some (record { kind = kind_of_int log_kind; key = key; value = value })

-- The constructor from a slice reads the same way, from the slice's data on.
unfoldable pub log_of_slice : Bytes → Option Log
log_of_slice slice = do
  (a, tmp) ← get_int_from_buff slice
  (key, tmp') ← get_string_from_buff tmp
  (value, tmp'') ← get_string_from_buff tmp'
  some (record { kind = kind_of_int a; key = key; value = value })

pub record StoreLog (Db : Type 0) : Type 0 where
  pub db_handle : DbHandle Db
  pub buff : Bytes

-- The default constructor: both pointers are null.
abbrev pub null_log : {Db : Type 0} → DbHandle (Option Db) × Option Bytes
null_log = (null_handle, none)

module _ {Db Iterator : Type 0} (r : Rocks Db Iterator) where
  -- `fresh` is what malloc returns.
  unfoldable pub open_log : Bytes → Bytes → Option (StoreLog Db)
  open_log fresh location = do
    db_handle ← open_handle r location
    some (record { db_handle = db_handle; buff = fresh })

  unfoldable pub write_log : LogKind → Bytes → Bytes → StoreLog Db → Option (StoreLog Db)
  write_log kind key value l = do
    let start = start_of l.buff
    (end, size) ← to_slice (record { kind = kind; key = key; value = value }) start
    some (record {
      db_handle = DbHandle.put r (slice_bytes start end size) [] l.db_handle;
      buff = whole end;
    })

  unfoldable pub get_log : StoreLog Db → Option Log
  get_log l =
      let it = r.seek_to_first (r.new_iterator l.db_handle.db) in
      if r.valid it
      then log_of_slice (r.key it)
      else some (record { kind = error; key = []; value = [] })

  unfoldable pub clear_log : StoreLog Db → StoreLog Db
  clear_log l =
      let it = r.seek_to_first (r.new_iterator l.db_handle.db) in
      if r.valid it then record l { db_handle = DbHandle.delete_1 r (r.key it) l.db_handle } else l
