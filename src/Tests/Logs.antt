-- ===== src/Tests/Logs.antt =====
-- Examples for the log of a node and for the codecs of log entries and metadata.
use distributed_rocks_db_tes.Prelude.{◌≡◌, refl, some, [], ◌∷◌, arith}
use distributed_rocks_db_tes.Prelude.Bytes.{codes}
use distributed_rocks_db_tes.HandleBuff.{Cursor, whole, start_of, max_line}
use distributed_rocks_db_tes.Rocks.Reference.{MemoryDb, memory, memory-IsRocks}
use distributed_rocks_db_tes.StoreNode.StoreLog.{
  delete, Log, StoreLog, to_slice, slice_bytes, log_of_buff, log_of_slice, write_log, get_log,
  clear_log,
}
use distributed_rocks_db_tes.StoreNode.StoreLog.Codec.{IsStorable, log_size, log_of_buff-to_slice}
use distributed_rocks_db_tes.StoreNode.StoreLog.Pending.{
  log_row, log_rows, put_log, delete_log, delete_behind_put,
}
use distributed_rocks_db_tes.ControlNode.ControlMeta
use distributed_rocks_db_tes.ControlNode.ControlMeta.{ControlMeta}
use distributed_rocks_db_tes.ControlNode.ControlMeta.Codec.{of_slice-to_slice, meta_size}
use distributed_rocks_db_tes.Tests.Samples.{zeros, length-zeros}

abbrev sample : Log
sample = put_log (codes "key") (codes "v")

sample-IsStorable : IsStorable sample
sample-IsStorable = record {
  named = tt;
  key_text = omega arith;
  value_text = omega arith;
  key_short = omega arith;
  value_short = omega arith;
}

deletion-IsStorable : IsStorable (delete_log (codes "old"))
deletion-IsStorable = record {
  named = tt;
  key_text = omega arith;
  value_text = tt;
  key_short = omega arith;
  value_short = omega arith;
}

abbrev buffer : Cursor
buffer = start_of (zeros max_line)

log_of_buff-to_slice_example :
    (end : Cursor) × (to_slice sample buffer ≡ some (end, log_size sample))
    × (log_of_buff (whole end) ≡ some sample)
    × (log_of_slice (slice_bytes buffer end (log_size sample)) ≡ some sample)
log_of_buff-to_slice_example =
    log_of_buff-to_slice sample buffer sample-IsStorable (omega (arith, length-zeros max_line))

-- A log in which an insertion is pending.
abbrev pending_log : StoreLog MemoryDb
pending_log = record {
  db_handle = record { db = (log_row sample ∷ [], (tt, tt)) };
  buff = zeros max_line;
}

delete_behind_put_example :
    (l' : StoreLog MemoryDb) × (write_log memory delete (codes "old") [] pending_log ≡ some l')
    × (get_log memory l' ≡ some sample)
    × (log_rows memory memory-IsRocks (clear_log memory l')
        ≡ log_row (delete_log (codes "old")) ∷ [])
delete_behind_put_example =
    delete_behind_put memory memory-IsRocks (codes "key") (codes "v") (codes "old") pending_log refl
      sample-IsStorable deletion-IsStorable (omega (arith, length-zeros max_line))

abbrev first_node : ControlMeta
first_node = record { min_str = codes "b"; max_str = codes "f"; virtual_fd = 0 }

of_slice-to_slice_example :
    (end : Cursor) × (ControlMeta.to_slice first_node buffer ≡ some (end, meta_size first_node))
    × (ControlMeta.of_slice (slice_bytes buffer end (meta_size first_node)) ≡ some first_node)
of_slice-to_slice_example =
    of_slice-to_slice first_node buffer
      (record {
        min_text = omega arith;
        max_text = omega arith;
        min_short = omega arith;
        max_short = omega arith;
        fd_int = omega arith;
      })
      (omega (arith, length-zeros max_line))
