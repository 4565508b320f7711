-- ===== src/Tests/Balance.antt =====
-- An example for a round of the balancing: the entry of the first node with the largest key moves.
use distributed_rocks_db_tes.Prelude.{◌≡◌, refl, some, [], ◌∷◌, true, arith}
use distributed_rocks_db_tes.Prelude.Bytes.{codes, lt_bytes, eq_bytes, is_empty}
use distributed_rocks_db_tes.HandleBuff.{
  max_line, get_string_from_buff, get_int_from_buff, copy, c_string, to_size, int_bytes,
}
use distributed_rocks_db_tes.HandleBuff.Writes.{str_bytes}
use distributed_rocks_db_tes.Rocks.Entries.{
  Rows, IsSorted, insert, erase, is_on, seek, rows_of, last, next, prev,
}
use distributed_rocks_db_tes.Rocks.Extremes.{min_key_of, max_key_of}
use distributed_rocks_db_tes.Rocks.Reference.{MemoryDb, memory, memory-IsRocks}
use distributed_rocks_db_tes.DbHandle.{get_smaller_or_equal_but_as_large_as_possible}
use distributed_rocks_db_tes.StoreNode.StoreImpl.{StoreImpl}
use distributed_rocks_db_tes.StoreNode.StoreImpl.Commits.{Holds}
use distributed_rocks_db_tes.StoreNode.StoreImpl.LogPhase.{insertion, deletion, IsSendable}
use distributed_rocks_db_tes.ControlNode.ControlMeta.{ControlMeta, of_slice}
use distributed_rocks_db_tes.ControlNode.ControlMeta.Codec.{meta_bytes}
use distributed_rocks_db_tes.ControlNode.ControlImpl.{ControlImpl, node_at, find, meta_at}
use distributed_rocks_db_tes.ControlNode.ControlImpl.Requests.{Reaches}
use distributed_rocks_db_tes.ControlNode.ControlImpl.Balance.{move}
use distributed_rocks_db_tes.ControlNode.ControlImpl.Moves.{Moved, bounded, move-Reaches}
use distributed_rocks_db_tes.Tests.Samples.{zeros, length-zeros, three_rows, empty}
use distributed_rocks_db_tes.Tests.Nodes.{node, node-Holds}

abbrev pub one_row : Rows
one_row = record { key = codes "h"; value = codes "w" } ∷ []

abbrev pub neighbour : StoreImpl MemoryDb
neighbour = record {
  store_data = record { db_handle = record { db = (one_row, (tt, tt)) }; size = 4 };
  store_log = record { db_handle = record { db = empty }; buff = zeros max_line };
  receive_buff = zeros max_line;
  send_buff = zeros max_line;
}

neighbour-Holds : Holds memory memory-IsRocks neighbour one_row []
neighbour-Holds = record {
  has_data = refl;
  has_log = refl;
  log_room = length-zeros max_line;
  receive_room = length-zeros max_line;
  send_room = length-zeros max_line;
}

abbrev pub low_meta : ControlMeta
low_meta = record { min_str = codes "b"; max_str = codes "f"; virtual_fd = 0 }

abbrev pub high_meta : ControlMeta
high_meta = record { min_str = codes "h"; max_str = codes "h"; virtual_fd = 1 }

abbrev pub metas : Rows
metas =
    record { key = codes "b"; value = meta_bytes low_meta }
    ∷ record { key = codes "h"; value = meta_bytes high_meta }
    ∷ []

pub metas-IsSorted : IsSorted metas
unfolding lt_bytes
metas-IsSorted = ((refl, tt), (tt, tt))

abbrev pub control : ControlImpl MemoryDb
control = record {
  meta_db = record { db = (metas, metas-IsSorted) };
  send_buff = zeros max_line;
  receive_buff = zeros max_line;
  virtual_fd_2_net_file = node ∷ neighbour ∷ [];
}

pub low-Reaches : Reaches memory memory-IsRocks control 0 three_rows []
unfolding node_at
low-Reaches = record {
  node = node;
  has_node = refl;
  holds = node-Holds;
  send_room = length-zeros max_line;
  receive_room = length-zeros max_line;
}

pub high-Reaches : Reaches memory memory-IsRocks control 1 one_row []
unfolding node_at
high-Reaches = record {
  node = neighbour;
  has_node = refl;
  holds = neighbour-Holds;
  send_room = length-zeros max_line;
  receive_room = length-zeros max_line;
}

leaving-IsSendable : IsSendable (deletion (codes "f")) three_rows
unfolding erase lt_bytes eq_bytes min_key_of max_key_of
leaving-IsSendable = record {
  storable = record {
    named = tt;
    key_text = omega arith;
    value_text = tt;
    key_short = omega arith;
    value_short = omega arith;
  };
  message_fits = omega arith;
  answer_fits = omega arith;
  names = λ p. cc;
}

arriving-IsSendable : IsSendable (insertion (codes "f") (codes "z")) one_row
unfolding insert lt_bytes eq_bytes min_key_of max_key_of
arriving-IsSendable = record {
  storable = record {
    named = tt;
    key_text = omega arith;
    value_text = omega arith;
    key_short = omega arith;
    value_short = omega arith;
  };
  message_fits = omega arith;
  answer_fits = omega arith;
  names = (λ p. cc, tt);
}

found_low : meta_at memory (find memory (codes "f") control) ≡ some low_meta
unfolding meta_at find get_smaller_or_equal_but_as_large_as_possible lt_bytes eq_bytes meta_bytes
    str_bytes int_bytes of_slice get_string_from_buff get_int_from_buff copy c_string to_size is_on
    seek rows_of last prev
found_low = refl

found_high : meta_at memory (memory.next (find memory (codes "f") control)) ≡ some high_meta
unfolding meta_at find get_smaller_or_equal_but_as_large_as_possible lt_bytes eq_bytes meta_bytes
    str_bytes int_bytes of_slice get_string_from_buff get_int_from_buff copy c_string to_size is_on
    seek rows_of last prev next
found_high = refl

move-Reaches_example :
    (c' : ControlImpl MemoryDb) × (move memory memory.next 0 1 (codes "f") (codes "z") control
      ≡ some (c', true))
    × Reaches memory memory-IsRocks c' 0 (erase (codes "f") three_rows) []
    × Reaches memory memory-IsRocks c' 1 (insert (codes "f") (codes "z") one_row) []
    × Moved memory memory-IsRocks
        (find memory (codes "f") control)
        (memory.next (find memory (codes "f") control))
        (bounded (erase (codes "f") three_rows) low_meta)
        (bounded (insert (codes "f") (codes "z") one_row) high_meta)
        0
        1
        control
        c'
unfolding erase insert lt_bytes eq_bytes min_key_of max_key_of is_empty
move-Reaches_example =
    move-Reaches memory memory-IsRocks memory.next (codes "f") (codes "z") low_meta high_meta
      (λ p. cc) (λ p. cc) low-Reaches high-Reaches leaving-IsSendable (omega arith, omega arith)
      arriving-IsSendable (omega arith, omega arith) found_low found_high (omega arith)
      (omega arith)
