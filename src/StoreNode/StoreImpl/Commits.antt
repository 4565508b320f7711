-- ===== src/StoreNode/StoreImpl/Commits.antt =====
-- What a commit and a rollback of the log do to the data of a node.
use distributed_rocks_db_tes.Prelude.{◌≡◌, ap, ◌∙◌, some, [], ◌∷◌, arith, length}
use distributed_rocks_db_tes.Prelude.Bytes.{Bytes}
use distributed_rocks_db_tes.HandleBuff.{max_line}
use distributed_rocks_db_tes.Rocks.{Rocks, IsRocks}
use distributed_rocks_db_tes.Rocks.Entries.{Entry, Rows, insert, erase}
use distributed_rocks_db_tes.DbHandle.Rows.{rows-put_handle, rows-delete_handle}
use distributed_rocks_db_tes.StoreNode.StoreData
use distributed_rocks_db_tes.StoreNode.StoreLog.{LogKind, Log, StoreLog, clear_log}
use distributed_rocks_db_tes.StoreNode.StoreLog.Codec.{IsStorable}
use distributed_rocks_db_tes.StoreNode.StoreLog.Pending.{
  log_row, log_rows, clear_log-first, clear_log-none, get_log-storable, get_log-none,
}
use distributed_rocks_db_tes.StoreNode.StoreImpl.{
  StoreImpl, put, delete_1, delete_log, apply_log, commit_log,
}

-- What a logged change does to the entries.
abbrev pub apply_rows : LogKind → Bytes → Bytes → Rows → Rows
apply_rows LogKind.put key value rows = insert key value rows
apply_rows LogKind.delete key value rows = erase key rows
apply_rows LogKind.error key value rows = rows
apply_rows (LogKind.unnamed n) key value rows = rows

module _ {Db Iterator : Type 0} (r : Rocks Db Iterator) (laws : IsRocks r) where
  open laws use {rows}

  abbrev pub data_rows : StoreImpl Db → Rows
  data_rows s = rows s.store_data.db_handle.db

  -- A node between two messages: its entries, those of its log, and buffers of the full size.
  pub record Holds (s : StoreImpl Db) (stored logged : Rows) : Type 0 where
    pub has_data : data_rows s ≡ stored
    pub has_log : log_rows r laws s.store_log ≡ logged
    pub log_room : length s.store_log.buff ≡ max_line
    pub receive_room : length s.receive_buff ≡ max_line
    pub send_room : length s.send_buff ≡ max_line

  length-clear_log : (l : StoreLog Db) → length (clear_log r l).buff ≡ length l.buff
  unfolding clear_log
  length-clear_log l = ground arith

  -- Rolling back drops the first entry of the log and leaves the data as it is.
  pub delete_log-Holds :
      (e : Entry) {s : StoreImpl Db} {stored rest : Rows}
      → Holds s stored (e ∷ rest)
      → Holds (delete_log r s) stored rest
  unfolding delete_log
  delete_log-Holds e {s} {stored} {rest} h = record {
    has_data = h.has_data;
    has_log = clear_log-first r laws s.store_log e rest h.has_log;
    log_room = length-clear_log s.store_log ∙ h.log_room;
    receive_room = h.receive_room;
    send_room = h.send_room;
  }

  apply_log-Holds :
      (kind : LogKind) (key value : Bytes) {s : StoreImpl Db} {stored logged : Rows}
      → Holds s stored logged
      → Holds (apply_log r kind key value s) (apply_rows kind key value stored) logged
  unfolding apply_log put delete_1 StoreData.put StoreData.delete_1
  apply_log-Holds LogKind.put key value {s} h = record {
    has_data =
        rows-put_handle r laws key value s.store_data.db_handle ∙ ap (insert key value) h.has_data;
    has_log = h.has_log;
    log_room = h.log_room;
    receive_room = h.receive_room;
    send_room = h.send_room;
  }
  apply_log-Holds LogKind.delete key value {s} h = record {
    has_data = rows-delete_handle r laws key s.store_data.db_handle ∙ ap (erase key) h.has_data;
    has_log = h.has_log;
    log_room = h.log_room;
    receive_room = h.receive_room;
    send_room = h.send_room;
  }
  apply_log-Holds LogKind.error key value h = h
  apply_log-Holds (LogKind.unnamed n) key value h = h

  -- A commit applies the first entry of the log to the data and drops it.
  pub commit_log-Holds :
      (log : Log) {s : StoreImpl Db} {stored rest : Rows}
      → IsStorable log
      → Holds s stored (log_row log ∷ rest)
      → (s' : StoreImpl Db) × (commit_log r s ≡ some s')
        × Holds s' (apply_rows log.kind log.key log.value stored) rest
  unfolding commit_log
  commit_log-Holds log {s} {stored} {rest} storable h = (
    delete_log r (apply_log r log.kind log.key log.value s),
    rw (get_log-storable r laws log s.store_log rest storable h.has_log),
    delete_log-Holds (log_row log) (apply_log-Holds log.kind log.key log.value h),
  )

  -- A commit with nothing logged changes nothing, as after a rollback.
  pub commit_log-none :
      (s : StoreImpl Db) → log_rows r laws s.store_log ≡ [] → commit_log r s ≡ some s
  unfolding commit_log apply_log delete_log
  commit_log-none s h = rw (get_log-none r laws s.store_log h) (
      ap (λ (l : StoreLog Db). some (record s { store_log = l }))
        (clear_log-none r laws s.store_log h))
