-- ===== src/Tests/Control.antt =====
-- Examples for the requests and the commands of the control process, which reaches one node.
use distributed_rocks_db_tes.Prelude.{◌≡◌, refl, some, [], ◌∷◌, length, leb, arith}
use distributed_rocks_db_tes.Prelude.Bytes.{
  codes, lt_bytes, eq_bytes, min_bytes, max_bytes, is_empty,
}
use distributed_rocks_db_tes.HandleBuff.{
  max_line, to_int, int_bytes, get_string_from_buff, get_int_from_buff, copy, c_string, to_size,
}
use distributed_rocks_db_tes.HandleBuff.Writes.{str_bytes}
use distributed_rocks_db_tes.Rocks.Entries.{insert, erase, lookup, is_on, seek, rows_of, last}
use distributed_rocks_db_tes.Rocks.Extremes.{min_key_of}
use distributed_rocks_db_tes.Rocks.Reference.{MemoryDb, memory, memory-IsRocks}
use distributed_rocks_db_tes.DbHandle.{
  value_or_empty, get_smaller_or_equal_but_as_large_as_possible,
}
use distributed_rocks_db_tes.DbHandle.Counts.{bytes_of}
use distributed_rocks_db_tes.ControlNode.ControlMeta.{ControlMeta, of_slice}
use distributed_rocks_db_tes.ControlNode.ControlMeta.Codec.{meta_bytes}
use distributed_rocks_db_tes.ControlNode.ControlImpl.{
  ControlImpl, node_at, find, meta_at, get, put, del, get_size, get_store_less_or_equal_one,
}
use distributed_rocks_db_tes.ControlNode.ControlImpl.Requests.{OnlyNode, Reaches}
use distributed_rocks_db_tes.ControlNode.ControlImpl.Questions.{
  get_size-Reaches, get_store_less_or_equal_one-Reaches, get-Reaches,
}
use distributed_rocks_db_tes.ControlNode.ControlImpl.Changes.{widened}
use distributed_rocks_db_tes.ControlNode.ControlImpl.Commands.{
  Settled, reaching, put-Settled, del-Settled,
}
use distributed_rocks_db_tes.Tests.Samples.{zeros, length-zeros, three_rows}
use distributed_rocks_db_tes.Tests.Nodes.{
  node, node-Holds, node-IsSized, adding-IsSendable, removing-IsSendable,
}

abbrev meta : ControlMeta
meta = record { min_str = codes "b"; max_str = codes "f"; virtual_fd = 0 }

abbrev pub control : ControlImpl MemoryDb
control = record {
  meta_db = record { db = (record { key = codes "b"; value = meta_bytes meta } ∷ [], (tt, tt)) };
  send_buff = zeros max_line;
  receive_buff = zeros max_line;
  virtual_fd_2_net_file = node ∷ [];
}

control-node : node_at 0 control.virtual_fd_2_net_file ≡ some node
unfolding node_at
control-node = refl

abbrev reached : Reaches memory memory-IsRocks control 0 three_rows []
reached = record {
  node = node;
  has_node = control-node;
  holds = node-Holds;
  send_room = length-zeros max_line;
  receive_room = length-zeros max_line;
}

found_c : meta_at memory (find memory (codes "c") control) ≡ some meta
unfolding meta_at find get_smaller_or_equal_but_as_large_as_possible lt_bytes eq_bytes meta_bytes
    str_bytes int_bytes of_slice get_string_from_buff get_int_from_buff copy c_string to_size is_on
    seek rows_of last
found_c = refl

found_d : meta_at memory (find memory (codes "d") control) ≡ some meta
unfolding meta_at find get_smaller_or_equal_but_as_large_as_possible lt_bytes eq_bytes meta_bytes
    str_bytes int_bytes of_slice get_string_from_buff get_int_from_buff copy c_string to_size is_on
    seek rows_of last
found_d = refl

found_b : meta_at memory (find memory (codes "b") control) ≡ some meta
unfolding meta_at find get_smaller_or_equal_but_as_large_as_possible lt_bytes eq_bytes meta_bytes
    str_bytes int_bytes of_slice get_string_from_buff get_int_from_buff copy c_string to_size is_on
    seek rows_of last
found_b = refl

get_size-Reaches_example :
    (c' : ControlImpl MemoryDb) × (get_size memory 0 control
      ≡ some (c', to_int (bytes_of three_rows)))
    × Reaches memory memory-IsRocks c' 0 three_rows []
    × OnlyNode 0 control c'
get_size-Reaches_example = get_size-Reaches memory memory-IsRocks reached node-IsSized

get_store_less_or_equal_one-Reaches_example :
    (c' : ControlImpl MemoryDb) × (get_store_less_or_equal_one memory 0 control
      ≡ some (c', leb (length three_rows) 1))
    × Reaches memory memory-IsRocks c' 0 three_rows []
    × OnlyNode 0 control c'
get_store_less_or_equal_one-Reaches_example =
    get_store_less_or_equal_one-Reaches memory memory-IsRocks reached

get-Reaches_example :
    (c' : ControlImpl MemoryDb) × (get memory (codes "d") control
      ≡ some (c', value_or_empty (lookup (codes "d") three_rows)))
    × Reaches memory memory-IsRocks c' 0 three_rows []
    × OnlyNode 0 control c'
unfolding lookup eq_bytes
get-Reaches_example =
    get-Reaches memory memory-IsRocks (codes "d") meta found_d reached (omega arith) (omega arith)
      (omega arith) (omega arith)

put-Settled_example :
    (c' : ControlImpl MemoryDb) × (put memory (codes "c") (codes "v") control ≡ some c')
    × Settled memory memory-IsRocks
        (find memory (codes "c") control)
        (widened (codes "c") meta)
        0
        (insert (codes "c") (codes "v") three_rows)
        control
        c'
unfolding min_bytes max_bytes lt_bytes
put-Settled_example =
    put-Settled memory memory-IsRocks (codes "c") (codes "v") meta found_c reached adding-IsSendable
      (omega arith)

del-Settled_example :
    (c' : ControlImpl MemoryDb) × (del memory (codes "b") control ≡ some c')
    × Settled memory memory-IsRocks
        (find memory (codes "b") control)
        (reaching (codes "b") (erase (codes "b") three_rows) meta)
        0
        (erase (codes "b") three_rows)
        control
        c'
unfolding min_bytes max_bytes lt_bytes eq_bytes erase min_key_of is_empty
del-Settled_example =
    del-Settled memory memory-IsRocks (codes "b") meta found_b reached removing-IsSendable
      (omega arith) (omega arith)
