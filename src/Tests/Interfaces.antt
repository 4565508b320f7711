-- ===== src/Tests/Interfaces.antt =====
-- Examples for what the classes promise, on the database in memory, and for the input of the control
-- process.
use distributed_rocks_db_tes.Prelude.{true, ◌≡◌, refl, List, [], ◌∷◌, length}
use distributed_rocks_db_tes.Prelude.Bytes.{codes, eq_bytes}
use distributed_rocks_db_tes.Rocks.{IsRocks}
use distributed_rocks_db_tes.Rocks.Reference.{memory, memory-IsRocks}
use distributed_rocks_db_tes.DbHandle
use distributed_rocks_db_tes.DbHandle.Interface.{IsMap, table, table-IsMap}
use distributed_rocks_db_tes.StoreNode.StoreData.Size.{IsSized}
use distributed_rocks_db_tes.StoreNode.StoreData.Interface.{
  IsCountedMap, data_store, data_store-IsCountedMap,
}
use distributed_rocks_db_tes.StoreNode.StoreLog.Pending.{log_rows}
use distributed_rocks_db_tes.StoreNode.StoreLog.Interface.{IsJournal, journal, journal-IsJournal}
use distributed_rocks_db_tes.StoreNode.StoreImpl.Commits.{Holds}
use distributed_rocks_db_tes.StoreNode.StoreImpl.Interface.{IsTwoPhase, store, store-IsTwoPhase}
use distributed_rocks_db_tes.ControlNode.ControlImpl.Run.{Wanted, wanted_by, run}
use distributed_rocks_db_tes.ControlNode.ControlImpl.Inputs.{
  Command, session, execute_all, run-session,
}
use distributed_rocks_db_tes.Tests.Control.{control}

table-IsMap_example :
    IsMap
      (table memory)
      (λ h. IsRocks.rows memory-IsRocks (DbHandle.get_db h))
      (IsRocks.position memory-IsRocks)
table-IsMap_example = table-IsMap memory memory-IsRocks

data_store-IsCountedMap_example :
    IsCountedMap
      (data_store memory)
      (λ d. IsRocks.rows memory-IsRocks d.db_handle.db)
      (IsSized memory memory-IsRocks)
data_store-IsCountedMap_example = data_store-IsCountedMap memory memory-IsRocks

journal-IsJournal_example :
    IsJournal (journal memory) (λ l. log_rows memory memory-IsRocks l ≡ []) (λ l. length l.buff)
journal-IsJournal_example = journal-IsJournal memory memory-IsRocks

store-IsTwoPhase_example : IsTwoPhase (store memory) (Holds memory memory-IsRocks)
store-IsTwoPhase_example = store-IsTwoPhase memory memory-IsRocks

-- A user stores an entry, mistypes a command, asks for the value, and leaves.
abbrev typed : List Command
typed =
    Command.put (codes "c") (codes "v")
    ∷ Command.unknown (codes "gte")
    ∷ Command.get (codes "c")
    ∷ []

run-session_example :
    run memory (λ s t n. true) 9 Wanted.command (session typed) control
    ≡ execute_all memory (λ s t n. true) 9 typed control
unfolding eq_bytes wanted_by
run-session_example =
    run-session memory (λ s t n. true) 9 typed control (tt, ((refl, refl), (tt, tt)))
