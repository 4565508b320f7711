-- ===== src/StoreNode/StoreImpl/Interface.antt =====
-- The methods that my_code/store_node/store_impl.h declares, and what they do to a node's entries and to
-- those of its log.
use distributed_rocks_db_tes.Prelude.{ℕ, Bool, Option, some, List, ◌∷◌, ◌≡◌}
use distributed_rocks_db_tes.Prelude.Bytes.{Bytes}
use distributed_rocks_db_tes.HandleBuff.{Cursor}
use distributed_rocks_db_tes.Rocks.{Rocks, IsRocks}
use distributed_rocks_db_tes.Rocks.Entries.{Entry, Rows}
use distributed_rocks_db_tes.StoreNode.StoreLog.{Log}
use distributed_rocks_db_tes.StoreNode.StoreLog.Codec.{IsStorable}
use distributed_rocks_db_tes.StoreNode.StoreLog.Pending.{log_row}
use distributed_rocks_db_tes.StoreNode.StoreImpl
use distributed_rocks_db_tes.StoreNode.StoreImpl.{StoreImpl}
use distributed_rocks_db_tes.StoreNode.StoreImpl.Loop
use distributed_rocks_db_tes.StoreNode.StoreImpl.Loop.{Answer}
use distributed_rocks_db_tes.StoreNode.StoreImpl.Commits.{
  Holds, apply_rows, delete_log-Holds, commit_log-Holds,
}

pub record Store (State : Type 0) : Type 0 where
  pub put : Bytes → Bytes → State → State
  pub delete_1 : Bytes → State → State
  pub log_put : Bytes → Bytes → State → Option State
  pub log_delete : Bytes → State → Option State
  pub commit_log : State → Option State
  pub delete_log : State → State
  pub get : Bytes → State → Bytes
  pub log_log : Log → Cursor → ℕ → State → Option (State × Cursor × ℕ)
  pub store_less_or_equal_one : State → Option Bool
  -- With fuel, and with the allocations.
  pub open_store : ℕ → Bytes × Bytes × Bytes → Bytes → Bytes → Option State
  pub run : List Bytes → State → Option (State × List Answer)

-- A log that is committed or dropped, in a state that `Has` these entries and those of the log.
pub record IsTwoPhase {State : Type 0} (s : Store State) (Has : State → Rows → Rows → Type 0)
    : Type 0 where
  pub dropped :
      (e : Entry) {node : State} {stored rest : Rows}
      → Has node stored (e ∷ rest)
      → Has (s.delete_log node) stored rest
  pub committed :
      (log : Log) {node : State} {stored rest : Rows}
      → IsStorable log
      → Has node stored (log_row log ∷ rest)
      → (node' : State) × (s.commit_log node ≡ some node')
        × Has node' (apply_rows log.kind log.key log.value stored) rest

module _ {Db Iterator : Type 0} (r : Rocks Db Iterator) where
  abbrev pub store : Store (StoreImpl Db)
  store = record {
    put = StoreImpl.put r;
    delete_1 = StoreImpl.delete_1 r;
    log_put = StoreImpl.log_put r;
    log_delete = StoreImpl.log_delete r;
    commit_log = StoreImpl.commit_log r;
    delete_log = StoreImpl.delete_log r;
    get = StoreImpl.get r;
    log_log = StoreImpl.log_log r;
    store_less_or_equal_one = StoreImpl.store_less_or_equal_one r;
    open_store = StoreImpl.open_store r;
    run = Loop.run r;
  }

  -- Dropping the log removes its first entry and leaves the data; committing it makes the change of
  -- its first entry on the data, where that can be read back, and removes it.
  pub store-IsTwoPhase : (laws : IsRocks r) → IsTwoPhase store (Holds r laws)
  store-IsTwoPhase laws = record {
    dropped = λ e h. delete_log-Holds r laws e h;
    committed = λ log storable h. commit_log-Holds r laws log storable h;
  }
