-- ===== src/StoreNode/StoreLog/Interface.antt =====
-- The methods that my_code/store_node/store_log.h declares, of a log entry and of the log, and what they
-- promise: an entry is read back as it was written, and the log holds one entry at a time.
use distributed_rocks_db_tes.Prelude.{ℕ, Option, some, length, ◌≡◌, ◌≤◌, []}
use distributed_rocks_db_tes.Prelude.Bytes.{Bytes}
use distributed_rocks_db_tes.HandleBuff.{Cursor}
use distributed_rocks_db_tes.Rocks.{Rocks, IsRocks}
use distributed_rocks_db_tes.DbHandle.{DbHandle}
use distributed_rocks_db_tes.StoreNode.StoreLog
use distributed_rocks_db_tes.StoreNode.StoreLog.{LogKind, Log, StoreLog}
use distributed_rocks_db_tes.StoreNode.StoreLog.Codec.{IsStorable, log_size}
use distributed_rocks_db_tes.StoreNode.StoreLog.Pending.{log_rows, log_round, get_log-none}

pub record LogEntry (Entry Kind : Type 0) : Type 0 where
  pub log_of_parts : Kind → Bytes → Bytes → Entry
  pub log_of_slice : Bytes → Option Entry
  pub log_of_buff : Bytes → Option Entry
  pub to_slice : Entry → Cursor → Option (Cursor × ℕ)
  pub get_kind : Entry → Kind
  pub get_key : Entry → Bytes
  pub get_value : Entry → Bytes

abbrev pub log_entry : LogEntry Log LogKind
log_entry = record {
  log_of_parts = StoreLog.log_of_parts;
  log_of_slice = StoreLog.log_of_slice;
  log_of_buff = StoreLog.log_of_buff;
  to_slice = StoreLog.to_slice;
  get_kind = StoreLog.get_kind;
  get_key = StoreLog.get_key;
  get_value = StoreLog.get_value;
}

pub record Journal (Null State Entry Kind : Type 0) : Type 0 where
  pub null_log : Null
  -- With what malloc returns.
  pub open_log : Bytes → Bytes → Option State
  pub write_log : Kind → Bytes → Bytes → State → Option State
  pub get_log : State → Option Entry
  pub clear_log : State → State

-- A journal of one entry, where `Empty` and `room` tell whether a state has none and what it can take.
pub record IsJournal {Null State : Type 0} (j : Journal Null State Log LogKind)
    (Empty : State → Type 0) (room : State → ℕ) : Type 0 where
  pub get_log-Empty :
      {s : State} → Empty s → j.get_log s ≡ some (log_entry.log_of_parts LogKind.error [] [])
  pub written :
      (log : Log) {s : State}
      → Empty s
      → IsStorable log
      → log_size log ≤ room s
      → (s' : State) × (j.write_log
            (log_entry.get_kind log)
            (log_entry.get_key log)
            (log_entry.get_value log)
            s
          ≡ some s')
        × (j.get_log s' ≡ some log)
        × Empty (j.clear_log s')
        × (room s' ≡ room s)

module _ {Db Iterator : Type 0} (r : Rocks Db Iterator) where
  abbrev pub journal : Journal (DbHandle (Option Db) × Option Bytes) (StoreLog Db) Log LogKind
  journal = record {
    null_log = StoreLog.null_log;
    open_log = StoreLog.open_log r;
    write_log = StoreLog.write_log r;
    get_log = StoreLog.get_log r;
    clear_log = StoreLog.clear_log r;
  }

  -- The log is a journal of one entry: an empty one answers with an entry of the kind ERROR; an entry
  -- that can be read back, and fits the buffer, is written to an empty one and is then what it answers
  -- with, and clearing it makes it empty again.
  pub journal-IsJournal :
      (laws : IsRocks r) → IsJournal journal (λ l. log_rows r laws l ≡ []) (λ l. length l.buff)
  journal-IsJournal laws = record {
    get_log-Empty = λ h. get_log-none r laws _ h;
    written = λ log h storable fits. log_round r laws log _ h storable fits;
  }
