-- ===== src/StoreNode/StoreImpl/LogPhase.antt =====
-- The first phase of a change as a storage process serves it: a message that logs it.
use distributed_rocks_db_tes.Prelude.{
  ℕ, ◌+◌, ◌^◌, ◌≡◌, ◌≢◌, refl, ap, ◌∙◌, subst, some, [], ◌∷◌, ◌++◌, arith, length, ◌≤◌, ◌<◌,
  length-append,
}
use distributed_rocks_db_tes.Prelude.Bytes.{Bytes}
use distributed_rocks_db_tes.ConstValues.{log_word, ok_word}
use distributed_rocks_db_tes.HandleBuff.{Cursor, start_of, max_line, to_int}
use distributed_rocks_db_tes.HandleBuff.Writes.{
  str_bytes, length-str_bytes, advance, advance-advance, length-advance,
}
use distributed_rocks_db_tes.Rocks.{Rocks, IsRocks}
use distributed_rocks_db_tes.Rocks.Entries.{Rows, insert, erase, IsSorted, rows_of}
use distributed_rocks_db_tes.StoreNode.StoreLog.{Log}
use distributed_rocks_db_tes.StoreNode.StoreLog.Codec.{
  log_bytes, log_size, length-log_bytes, IsStorable, log_of_buff-log_bytes,
}
use distributed_rocks_db_tes.StoreNode.StoreLog.Pending.{
  log_row, logged, log_rows-logged, write_log-fits, length-logged, put_log, delete_log,
}
use distributed_rocks_db_tes.StoreNode.StoreImpl.{
  StoreImpl, log_log, log_by_kind, log_put, log_delete,
}
use distributed_rocks_db_tes.StoreNode.StoreImpl.Loop.{step, serve_log}
use distributed_rocks_db_tes.StoreNode.StoreImpl.Commits.{Holds, apply_rows}
use distributed_rocks_db_tes.StoreNode.StoreImpl.Messages.{
  received, received-Holds, answered, answered-Holds, answer_lem, step-message, pair_bytes,
  pair_size, length-pair_bytes, insert_pair-fits,
}
use distributed_rocks_db_tes.StoreNode.StoreImpl.Ranges.{HasKeys, range_with_lem, range_without_lem}
use distributed_rocks_db_tes.StoreNode.StoreImpl.Serves.{
  log_message, range_of, range_answer, ok_written, serve-log,
}

-- What the control process asks a node to log.
pub data Change : Type 0 where
  insertion : Bytes → Bytes → Change
  deletion : Bytes → Change

abbrev pub log_of : Change → Log
log_of (insertion key value) = put_log key value
log_of (deletion key) = delete_log key

-- The change, made on the entries.
abbrev pub changed : Change → Rows → Rows
changed (insertion key value) rows = insert key value rows
changed (deletion key) rows = erase key rows

pub apply_rows-change :
    (change : Change) (stored : Rows)
    → apply_rows (log_of change).kind (log_of change).key (log_of change).value stored
      ≡ changed change stored
apply_rows-change (insertion key value) stored = refl
apply_rows-change (deletion key) stored = refl

-- For an insertion no stored key is empty; for a deletion its key is not.
abbrev pub HasNames : Change → Rows → Type 0
HasNames (insertion key value) rows = HasKeys rows
HasNames (deletion key) rows = key ≢ []

-- The log message and its answer fit the buffers, and the strings are read back as they are.
pub record IsSendable (c : Change) (rows : Rows) : Type 0 where
  pub storable : IsStorable (log_of c)
  pub message_fits : log_size (log_of c) + 8 ≤ max_line
  pub answer_fits : pair_size (range_of (changed c rows)) + 7 ≤ max_line
  pub names : HasNames c rows

module _ {Db Iterator : Type 0} (r : Rocks Db Iterator) (laws : IsRocks r) where
  -- A node with an entry written to its log.
  abbrev with_logged : Log → StoreImpl Db → StoreImpl Db
  with_logged log s = record s { store_log = logged r laws log s.store_log }

  with_logged-Holds :
      (log : Log) {s : StoreImpl Db} {stored : Rows}
      → log_size log < 2 ^ 31
      → log_size log ≤ max_line
      → Holds r laws s stored []
      → Holds r laws (with_logged log s) stored (log_row log ∷ [])
  unfolding insert
  with_logged-Holds log {s} small room h = record {
    has_data = h.has_data;
    has_log = log_rows-logged r laws log s.store_log ∙ ap (insert (log_bytes log) []) h.has_log;
    log_room = length-logged r laws log s.store_log small (omega (arith, h.log_room)) ∙ h.log_room;
    receive_room = h.receive_room;
    send_room = h.send_room;
  }

  module _ (s : StoreImpl Db) (stored : Rows) (h : Holds r laws s stored []) where
    abbrev scan_start : Iterator
    scan_start = r.new_iterator s.store_data.db_handle.db

    snapshot : rows_of (laws.position scan_start) ≡ stored
    snapshot = laws.rows_of-new_iterator s.store_data.db_handle.db ∙ h.has_data

    in_order : IsSorted stored
    in_order = subst IsSorted h.has_data (laws.rows-IsSorted s.store_data.db_handle.db)

    log_log_put :
        (key value : Bytes) (c : Cursor) (t : ℕ)
        → log_size (put_log key value) < 2 ^ 31
        → log_size (put_log key value) ≤ max_line
        → HasKeys stored
        → pair_size (range_of (insert key value stored)) < 2 ^ 31
        → pair_size (range_of (insert key value stored)) ≤ length c.ahead
        → log_log r (put_log key value) c t s
          ≡ some (
            with_logged (put_log key value) s,
            advance (pair_bytes (range_of (insert key value stored))) c,
            to_int (t + pair_size (range_of (insert key value stored))),
          )
    unfolding log_log log_by_kind log_put
    log_log_put key value c t small room keys short space = rw (
      write_log-fits r laws (put_log key value) s.store_log small (omega (arith, h.log_room)),
      range_with_lem r laws key scan_start value stored snapshot in_order keys,
      insert_pair-fits c (range_of (insert key value stored)) t short space,
    )

    log_log_delete :
        (key : Bytes) (c : Cursor) (t : ℕ)
        → log_size (delete_log key) < 2 ^ 31
        → log_size (delete_log key) ≤ max_line
        → key ≢ []
        → pair_size (range_of (erase key stored)) < 2 ^ 31
        → pair_size (range_of (erase key stored)) ≤ length c.ahead
        → log_log r (delete_log key) c t s
          ≡ some (
            with_logged (delete_log key) s,
            advance (pair_bytes (range_of (erase key stored))) c,
            to_int (t + pair_size (range_of (erase key stored))),
          )
    unfolding log_log log_by_kind log_delete
    log_log_delete key c t small room some_key short space = rw (
      write_log-fits r laws (delete_log key) s.store_log small (omega (arith, h.log_room)),
      range_without_lem r laws key scan_start stored snapshot in_order some_key,
      insert_pair-fits c (range_of (erase key stored)) t short space,
    )

  log_log-change :
      (change : Change) (c : Cursor) (t : ℕ) (s : StoreImpl Db) (stored : Rows)
      → IsSendable change stored
      → Holds r laws s stored []
      → pair_size (range_of (changed change stored)) ≤ length c.ahead
      → log_log r (log_of change) c t s
        ≡ some (
          with_logged (log_of change) s,
          advance (pair_bytes (range_of (changed change stored))) c,
          to_int (t + pair_size (range_of (changed change stored))),
        )
  log_log-change (insertion key value) c t s stored f h space =
      log_log_put s stored h key value c t (omega (arith, f.message_fits))
        (omega (arith, f.message_fits)) f.names (omega (arith, f.answer_fits)) space
  log_log-change (deletion key) c t s stored f h space =
      log_log_delete s stored h key c t (omega (arith, f.message_fits))
        (omega (arith, f.message_fits)) f.names (omega (arith, f.answer_fits)) space

  module _ (change : Change) {stored : Rows} (f : IsSendable change stored) where
    abbrev range : Bytes × Bytes
    range = range_of (changed change stored)

    abbrev reply_bytes : Bytes
    reply_bytes = str_bytes ok_word ++ pair_bytes range

    length-reply : length reply_bytes ≡ 7 + pair_size range
    length-reply = omega (
      arith,
      length-append {0} (str_bytes ok_word) (pair_bytes range),
      length-str_bytes ok_word,
      length-pair_bytes range,
    )

    message_short : length (log_message (log_of change)) ≤ max_line
    message_short = omega (
      arith,
      length-append {0} (str_bytes log_word) (log_bytes (log_of change)),
      length-str_bytes log_word,
      length-log_bytes (log_of change),
      f.message_fits,
    )

    serve_log-change :
        (rest : Bytes) (s : StoreImpl Db)
        → Holds r laws s stored []
        → serve_log r (log_bytes (log_of change) ++ rest) s
          ≡ some (
            answered r laws reply_bytes s.send_buff (with_logged (log_of change) s),
            range_answer (changed change stored),
          )
    unfolding serve_log
    serve_log-change rest s h =
        let ok : Bytes = str_bytes ok_word in
        let send : Cursor = advance ok (start_of s.send_buff) in
        let space : pair_size range ≤ length send.ahead = omega (
          arith,
          f.answer_fits,
          h.send_room,
          length-advance ok (start_of s.send_buff),
          length-str_bytes ok_word,
        ) in
        rw (log_of_buff-log_bytes (log_of change) rest f.storable) (
          rw (ok_written s.send_buff h.send_room) (
            rw (log_log-change change send 7 s stored f h space) (
              rw (advance-advance ok (pair_bytes range) (start_of s.send_buff)) (
                ap some (
                  answer_lem r laws reply_bytes s.send_buff (to_int (7 + pair_size range))
                    (with_logged (log_of change) s) (omega (arith, length-reply, f.answer_fits))
                    (omega (arith, f.answer_fits)))))))

    -- A log message that fits, to a node with an empty log, is answered "ok" and the range of keys that
    -- the data will have; the data stays, and the entry is pending.
    pub step-log :
        {s : StoreImpl Db}
        → Holds r laws s stored []
        → (s' : StoreImpl Db) × (step r (log_message (log_of change)) s
            ≡ some (s', range_answer (changed change stored)))
          × Holds r laws s' stored (log_row (log_of change) ∷ [])
    step-log {s} h =
        let message : Bytes = log_message (log_of change) in
        let g = received-Holds r laws message message_short h in
        let got : StoreImpl Db = received r laws message s in
        (
          answered r laws reply_bytes got.send_buff (with_logged (log_of change) got),
          step-message r laws log_word (log_bytes (log_of change)) s (omega arith) message_short
              ∙ serve-log r laws _ _
              ∙ serve_log-change _ got g,
          answered-Holds r laws reply_bytes got.send_buff
              (omega (arith, length-reply, f.answer_fits)) g.send_room
              (with_logged-Holds (log_of change) (omega (arith, f.message_fits))
                (omega (arith, f.message_fits)) g),
        )
