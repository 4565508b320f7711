-- ===== src/ControlNode/ControlImpl/Changes.antt =====
-- The parts of a change by the control process: the log message, the metadata and the commit.
use distributed_rocks_db_tes.Prelude.{
  ℕ, ◌+◌, ◌≡◌, refl, ap, ◌∙◌, some, [], ◌∷◌, arith, length, ◌≤◌, length-append,
}
use distributed_rocks_db_tes.Prelude.Bytes.{Bytes, min_bytes, max_bytes}
use distributed_rocks_db_tes.ConstValues.{log_word, ok_word, commit_log_word}
use distributed_rocks_db_tes.HandleBuff.{whole, start_of, max_line}
use distributed_rocks_db_tes.HandleBuff.Writes.{
  str_bytes, length-str_bytes, insert_str-fits, advance, advance-advance, length-advance,
  length-whole-advance,
}
use distributed_rocks_db_tes.HandleBuff.RoundTrip.{NoNul}
use distributed_rocks_db_tes.Rocks.{Rocks, IsRocks}
use distributed_rocks_db_tes.Rocks.Entries.{Rows, insert, erase}
use distributed_rocks_db_tes.DbHandle
use distributed_rocks_db_tes.DbHandle.Rows.{rows-put_handle, rows-delete_handle}
use distributed_rocks_db_tes.StoreNode.StoreLog
use distributed_rocks_db_tes.StoreNode.StoreLog.{Log}
use distributed_rocks_db_tes.StoreNode.StoreLog.Codec.{log_bytes, log_size, length-log_bytes}
use distributed_rocks_db_tes.StoreNode.StoreLog.Pending.{log_row}
use distributed_rocks_db_tes.StoreNode.StoreImpl.{StoreImpl}
use distributed_rocks_db_tes.StoreNode.StoreImpl.Loop.{sent, step}
use distributed_rocks_db_tes.StoreNode.StoreImpl.Commits.{apply_rows}
use distributed_rocks_db_tes.StoreNode.StoreImpl.Messages.{take-advance}
use distributed_rocks_db_tes.StoreNode.StoreImpl.Serves.{log_message, commit_message, step-commit}
use distributed_rocks_db_tes.ControlNode.ControlMeta
use distributed_rocks_db_tes.ControlNode.ControlMeta.{ControlMeta}
use distributed_rocks_db_tes.ControlNode.ControlMeta.Codec.{
  meta_bytes, meta_size, length-meta_bytes,
}
use distributed_rocks_db_tes.ControlNode.ControlImpl.{ControlImpl, ask_log, store_meta, commit}
use distributed_rocks_db_tes.ControlNode.ControlImpl.Requests.{
  OnlyNode, Reaches, talked, exchange-talked, talked-Reaches, talked-OnlyNode, ask-talked,
}
use distributed_rocks_db_tes.ControlNode.ControlImpl.Questions.{get_string-receive_all}

-- The range of the metadata, with the key in it.
abbrev pub widened : Bytes → ControlMeta → ControlMeta
widened key m = record m { min_str = min_bytes m.min_str key; max_str = max_bytes m.max_str key }

pub ok_text : NoNul ok_word
ok_text = omega arith

pub length-log_message : (log : Log) → length (log_message log) ≡ log_size log + 8
length-log_message log = omega (
  arith,
  length-append {0} (str_bytes log_word) (log_bytes log),
  length-str_bytes log_word,
  length-log_bytes log,
)

module _ {Db Iterator : Type 0} (r : Rocks Db Iterator) (laws : IsRocks r) where
  open laws use {rows}

  -- The entries of the metadata.
  abbrev pub meta_rows : ControlImpl Db → Rows
  meta_rows c = rows c.meta_db.db

  pub ask_log-talked :
      (log : Log) {c : ControlImpl Db} {virtual_fd : ℕ} {stored kept : Rows}
      (h : Reaches r laws c virtual_fd stored kept) (reply : Bytes) (node' : StoreImpl Db)
      → log_size log + 8 ≤ max_line
      → step r (log_message log) h.node ≡ some (node', sent reply)
      → ask_log r log virtual_fd c ≡ some (talked r laws virtual_fd (log_message log) node' reply c)
  unfolding ask_log
  ask_log-talked log {c} h reply node' short answers =
      rw
        (
          insert_str-fits (start_of c.send_buff) log_word 0 (omega arith)
              (omega (arith, h.send_room)),
          StoreLog.Codec.to_slice-fits log (advance (str_bytes log_word) (start_of c.send_buff))
              (omega arith)
              (omega (
                arith,
                h.send_room,
                length-str_bytes log_word,
                length-advance (str_bytes log_word) (start_of c.send_buff),
              )),
          advance-advance (str_bytes log_word) (log_bytes log) (start_of c.send_buff),
        )
        (exchange-talked r laws h (log_message log) reply node' _
          (omega (arith, length-log_message log)) (omega arith) answers)

  -- The state once the metadata under the iterator gave way to `m`.
  unfoldable pub renewed : Iterator → ControlMeta → ControlImpl Db → ControlImpl Db
  renewed it m c = record c {
    meta_db = DbHandle.put r m.min_str (meta_bytes m) (DbHandle.delete_1 r (r.key it) c.meta_db);
    receive_buff = whole (advance (meta_bytes m) (start_of c.receive_buff));
  }

  pub store_meta-renewed :
      (it : Iterator) (m : ControlMeta) (c : ControlImpl Db)
      → length c.receive_buff ≡ max_line
      → meta_size m ≤ max_line
      → store_meta r it m c ≡ some (renewed it m c)
  unfolding store_meta renewed
  store_meta-renewed it m c full fits =
      rw
        (
          ControlMeta.Codec.to_slice-fits m (start_of c.receive_buff) (omega arith)
              (omega (arith, full)),
          take-advance (meta_bytes m) c.receive_buff (meta_size m) (length-meta_bytes m)
              (omega arith),
        )
        refl

  pub meta_rows-renewed :
      (it : Iterator) (m : ControlMeta) (c : ControlImpl Db)
      → meta_rows (renewed it m c)
        ≡ insert m.min_str (meta_bytes m) (erase (r.key it) (meta_rows c))
  unfolding renewed
  meta_rows-renewed it m c =
      rows-put_handle r laws m.min_str (meta_bytes m) (DbHandle.delete_1 r (r.key it) c.meta_db)
      ∙ ap (insert m.min_str (meta_bytes m)) (rows-delete_handle r laws (r.key it) c.meta_db)

  pub renewed-Reaches :
      (it : Iterator) (m : ControlMeta) {c : ControlImpl Db} {virtual_fd : ℕ} {stored kept : Rows}
      → meta_size m ≤ max_line
      → Reaches r laws c virtual_fd stored kept
      → Reaches r laws (renewed it m c) virtual_fd stored kept
  unfolding renewed
  renewed-Reaches it m {c} fits h = record {
    node = h.node;
    has_node = h.has_node;
    holds = h.holds;
    send_room = h.send_room;
    receive_room =
        length-whole-advance (meta_bytes m) (start_of c.receive_buff)
          (omega (arith, h.receive_room, length-meta_bytes m))
        ∙ h.receive_room;
  }

  -- A commit, to a node with one storable entry in its log.
  pub commit_lem :
      (log : Log) {c : ControlImpl Db} {virtual_fd : ℕ} {stored : Rows}
      → StoreLog.Codec.IsStorable log
      → Reaches r laws c virtual_fd stored (log_row log ∷ [])
      → (c' : ControlImpl Db) × (commit r virtual_fd c ≡ some c')
        × Reaches r laws c' virtual_fd (apply_rows log.kind log.key log.value stored) []
        × OnlyNode virtual_fd c c'
  unfolding commit talked
  commit_lem log {c} {virtual_fd} storable h =
      let (node', e, g) = step-commit r laws log storable h.holds in
      let reply : Bytes = str_bytes ok_word in
      (
        talked r laws virtual_fd commit_message node' reply c,
        rw (ask-talked r laws commit_log_word h reply node' (omega arith) e)
            (rw (get_string-receive_all ok_word c.receive_buff ok_text (omega arith)) refl),
        talked-Reaches r laws h commit_message reply node'
            (omega (arith, length-str_bytes commit_log_word))
            (omega (arith, length-str_bytes ok_word)) g,
        talked-OnlyNode r laws virtual_fd commit_message reply node' c,
      )
