-- ===== src/Tests/Nodes.antt =====
-- Examples for the messages that a node serves.
use distributed_rocks_db_tes.Prelude.{◌≡◌, refl, some, [], ◌∷◌, arith}
use distributed_rocks_db_tes.Prelude.Bytes.{codes, lt_bytes, eq_bytes}
use distributed_rocks_db_tes.HandleBuff.{max_line}
use distributed_rocks_db_tes.Rocks.Entries.{insert, erase, off, Position}
use distributed_rocks_db_tes.Rocks.Extremes.{min_key_of, max_key_of}
use distributed_rocks_db_tes.Rocks.Reference.{MemoryDb, memory, memory-IsRocks, rows_of-off}
use distributed_rocks_db_tes.DbHandle.Counts.{bytes_of}
use distributed_rocks_db_tes.StoreNode.StoreData.Size.{IsSized}
use distributed_rocks_db_tes.StoreNode.StoreImpl.{StoreImpl, range_with, range_without}
use distributed_rocks_db_tes.StoreNode.StoreImpl.Loop.{run}
use distributed_rocks_db_tes.StoreNode.StoreImpl.Commits.{Holds}
use distributed_rocks_db_tes.StoreNode.StoreImpl.Ranges.{HasKeys, range_with_lem, range_without_lem}
use distributed_rocks_db_tes.StoreNode.StoreImpl.Serves.{
  commit_message, del_log_message, log_message, ok_answer, range_answer,
}
use distributed_rocks_db_tes.StoreNode.StoreImpl.LogPhase.{
  Change, insertion, deletion, log_of, changed, IsSendable,
}
use distributed_rocks_db_tes.StoreNode.StoreImpl.TwoPhase.{run-log_commit, run-log_del_log_commit}
use distributed_rocks_db_tes.Tests.Samples.{
  zeros, length-zeros, three_rows, three_rows-IsSorted, three_handle, empty,
}

abbrev pub node : StoreImpl MemoryDb
node = record {
  store_data = record { db_handle = three_handle; size = 13 };
  store_log = record { db_handle = record { db = empty }; buff = zeros max_line };
  receive_buff = zeros max_line;
  send_buff = zeros max_line;
}

pub node-Holds : Holds memory memory-IsRocks node three_rows []
node-Holds = record {
  has_data = refl;
  has_log = refl;
  log_room = length-zeros max_line;
  receive_room = length-zeros max_line;
  send_room = length-zeros max_line;
}

three_rows-HasKeys : HasKeys three_rows
three_rows-HasKeys = ((λ p. cc), ((λ p. cc), ((λ p. cc), tt)))

abbrev pub adding : Change
adding = insertion (codes "c") (codes "v")

pub adding-IsSendable : IsSendable adding three_rows
unfolding insert lt_bytes eq_bytes min_key_of max_key_of
adding-IsSendable = record {
  storable = record {
    named = tt;
    key_text = omega arith;
    value_text = omega arith;
    key_short = omega arith;
    value_short = omega arith;
  };
  message_fits = omega arith;
  answer_fits = omega arith;
  names = three_rows-HasKeys;
}

run-log_commit_example :
    (s' : StoreImpl MemoryDb) × (run memory (log_message (log_of adding) ∷ commit_message ∷ []) node
      ≡ some (s', range_answer (changed adding three_rows) ∷ ok_answer ∷ []))
    × Holds memory memory-IsRocks s' (changed adding three_rows) []
run-log_commit_example = run-log_commit memory memory-IsRocks adding adding-IsSendable node-Holds

abbrev pub removing : Change
removing = deletion (codes "b")

pub removing-IsSendable : IsSendable removing three_rows
unfolding erase lt_bytes eq_bytes min_key_of max_key_of
removing-IsSendable = record {
  storable = record {
    named = tt;
    key_text = omega arith;
    value_text = tt;
    key_short = omega arith;
    value_short = omega arith;
  };
  message_fits = omega arith;
  answer_fits = omega arith;
  names = λ p. cc;
}

run-log_del_log_commit_example :
    (s' : StoreImpl MemoryDb) × (run memory
        (log_message (log_of removing) ∷ del_log_message ∷ commit_message ∷ [])
        node
      ≡ some (s', range_answer (changed removing three_rows) ∷ ok_answer ∷ ok_answer ∷ []))
    × Holds memory memory-IsRocks s' three_rows []
run-log_del_log_commit_example =
    run-log_del_log_commit memory memory-IsRocks removing removing-IsSendable node-Holds

abbrev start : Position
start = off three_rows

range_with_example :
    range_with memory (codes "g") start
    ≡ (min_key_of (insert (codes "g") [] three_rows), max_key_of (insert (codes "g") [] three_rows))
range_with_example =
    range_with_lem memory memory-IsRocks (codes "g") start [] three_rows (rows_of-off three_rows)
      three_rows-IsSorted three_rows-HasKeys

range_without_example :
    range_without memory (codes "f") start
    ≡ (min_key_of (erase (codes "f") three_rows), max_key_of (erase (codes "f") three_rows))
range_without_example =
    range_without_lem memory memory-IsRocks (codes "f") start three_rows (rows_of-off three_rows)
      three_rows-IsSorted (λ p. cc)

pub node-IsSized : IsSized memory memory-IsRocks node.store_data
unfolding bytes_of
node-IsSized = record { counted = refl; filled = omega arith }
