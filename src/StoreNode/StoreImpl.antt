-- ===== src/StoreNode/StoreImpl.antt =====
-- my_code/store_node/store_impl: the commands that a storage process serves.
-- This file has the state and the operations on it; the loop that serves messages is in
-- StoreImpl/Loop.
pub mod Loop
pub mod Opened
pub mod Ranges
pub mod Commits
pub mod Messages
pub mod Queries
pub mod Silent
pub mod Ends
pub mod Serves
pub mod LogPhase
pub mod TwoPhase
pub mod Interface
use distributed_rocks_db_tes.Prelude.{
  ℕ, zero, suc, ◌+◌, Bool, true, false, not, Option, none, some, List, [], ◌∷◌, ◌++◌, if◌then◌else◌,
  length, take, drop, ◌>>=◌, ◌≡◌,
}
use distributed_rocks_db_tes.Prelude.Bytes.{Bytes, eq_bytes, min_bytes, max_bytes, is_empty}
use distributed_rocks_db_tes.ConstValues.{
  get_word, del_log_word, commit_log_word, size_word, quit_word, log_word, test_word, ok_word,
  max_key_word, min_key_word, less_or_equal_one_word,
}
use distributed_rocks_db_tes.HandleBuff.{
  Cursor, whole, start_of, max_line, to_size, insert_int_to_buff, insert_str_to_buff,
  get_string_from_buff,
}
use distributed_rocks_db_tes.Rocks.{Rocks}
use distributed_rocks_db_tes.DbHandle
use distributed_rocks_db_tes.StoreNode.StoreData
use distributed_rocks_db_tes.StoreNode.StoreData.{StoreData, open_data}
use distributed_rocks_db_tes.StoreNode.StoreLog
use distributed_rocks_db_tes.StoreNode.StoreLog.{
  LogKind, Log, StoreLog, open_log, write_log, get_log, clear_log, log_of_buff,
}

pub record StoreImpl (Db : Type 0) : Type 0 where
  pub store_data : StoreData Db
  pub store_log : StoreLog Db
  pub receive_buff : Bytes
  pub send_buff : Bytes

-- Two strings behind what `buff` has.
abbrev pub insert_pair : Cursor → Bytes × Bytes → ℕ → Option (Cursor × ℕ)
insert_pair buff range send_len = do
  (next, len) ← insert_str_to_buff buff range.0 send_len
  insert_str_to_buff next range.1 len

module _ {Db Iterator : Type 0} (r : Rocks Db Iterator) where
  -- The connection is given; a failure to open it is only printed. `fresh` are the three allocations: the log's buffer, and those for receiving and sending.
  unfoldable pub open_store : ℕ → Bytes × Bytes × Bytes → Bytes → Bytes → Option (StoreImpl Db)
  open_store fuel fresh data_path log_path = do
    store_data ← open_data r fuel data_path
    store_log ← open_log r fresh.0 log_path
    some (record {
      store_data = store_data;
      store_log = store_log;
      receive_buff = fresh.1;
      send_buff = fresh.2;
    })

  abbrev pub store_less_or_equal_one : StoreImpl Db → Option Bool
  store_less_or_equal_one s = DbHandle.store_less_or_equal_one r (StoreData.get_db s.store_data)

  unfoldable pub put : Bytes → Bytes → StoreImpl Db → StoreImpl Db
  put key value s = record s {
    store_data = StoreData.put r (record { key = key; value = value }) s.store_data;
  }

  unfoldable pub delete_1 : Bytes → StoreImpl Db → StoreImpl Db
  delete_1 key s = record s { store_data = StoreData.delete_1 r key s.store_data }

  unfoldable pub get : Bytes → StoreImpl Db → Bytes
  get key s = StoreData.get r key s.store_data

  unfoldable pub log_put : Bytes → Bytes → StoreImpl Db → Option (StoreImpl Db)
  log_put key value s = do
    l ← write_log r LogKind.put key value s.store_log
    some (record s { store_log = l })

  unfoldable pub log_delete : Bytes → StoreImpl Db → Option (StoreImpl Db)
  log_delete key s = do
    l ← write_log r LogKind.delete key [] s.store_log
    some (record s { store_log = l })

  unfoldable pub delete_log : StoreImpl Db → StoreImpl Db
  delete_log s = record s { store_log = clear_log r s.store_log }

  -- The switch of `commit_log`. An error is only printed.
  unfoldable pub apply_log : LogKind → Bytes → Bytes → StoreImpl Db → StoreImpl Db
  apply_log LogKind.put key value s = put key value s
  apply_log LogKind.delete key value s = delete_1 key s
  apply_log LogKind.error key value s = s
  apply_log (LogKind.unnamed n) key value s = s

  unfoldable pub commit_log : StoreImpl Db → Option (StoreImpl Db)
  commit_log s = do
    log ← get_log r s.store_log
    some (delete_log (apply_log log.kind log.key log.value s))

  abbrev pub key_or_empty : Iterator → Bytes
  key_or_empty it = if r.valid it then r.key it else []

  -- The smallest and the largest key once `key` is stored, by an iterator on what is stored.
  unfoldable pub range_with : Bytes → Iterator → Bytes × Bytes
  range_with key it =
      let at_first = r.seek_to_first it in
      let at_last = r.seek_to_last at_first in
      let new_min = key_or_empty at_first in
      let new_max = key_or_empty at_last in
      if is_empty new_min
      then (min_bytes key key, max_bytes key key)
      else (min_bytes new_min key, max_bytes key new_max)

  -- The smallest and the largest key once `key` is gone.
  unfoldable pub range_without : Bytes → Iterator → Bytes × Bytes
  range_without key it =
      let at_first = r.seek_to_first it in
      let at_last = r.seek_to_last at_first in
      let new_min = key_or_empty at_first in
      let new_max = key_or_empty at_last in
      let second = r.next (r.seek_to_first at_last) in
      let moved = if eq_bytes key new_min then second else at_last in
      let second_last = r.prev (r.seek_to_last moved) in
      (
        if eq_bytes key new_min then key_or_empty second else new_min,
        if eq_bytes key new_max then key_or_empty second_last else new_max,
      )

  -- The switch of `log_log`.
  unfoldable pub log_by_kind :
      LogKind
      → Bytes
      → Bytes
      → Iterator
      → Cursor
      → ℕ
      → StoreImpl Db
      → Option (StoreImpl Db × Cursor × ℕ)
  log_by_kind LogKind.put key value it buff send_len s = do
    s' ← log_put key value s
    (end, len) ← insert_pair buff (range_with key it) send_len
    some (s', end, len)
  log_by_kind LogKind.delete key value it buff send_len s = do
    s' ← log_delete key s
    (end, len) ← insert_pair buff (range_without key it) send_len
    some (s', end, len)
  log_by_kind LogKind.error key value it buff send_len s = some (s, buff, send_len)
  log_by_kind (LogKind.unnamed n) key value it buff send_len s = some (s, buff, send_len)

  unfoldable pub log_log : Log → Cursor → ℕ → StoreImpl Db → Option (StoreImpl Db × Cursor × ℕ)
  log_log log buff send_len s =
      let it = r.new_iterator s.store_data.db_handle.db in
      log_by_kind log.kind log.key log.value it buff send_len s
