-- ===== src/StoreNode/StoreLog/Pending.antt =====
-- The log's database as its entries: writing, reading back and clearing.
use distributed_rocks_db_tes.Prelude.{
  ◌^◌, ◌<◌, ◌≤◌, ◌≡◌, refl, ap, ◌∙◌, true, some, [], ◌∷◌, length, arith, append-nil,
}
use distributed_rocks_db_tes.Prelude.Bytes.{
  Bytes, eq_bytes_refl, eq_bytes_iff, lt_bytes, lt_bytes_trans, lt_bytes_irrefl,
}
use distributed_rocks_db_tes.HandleBuff.{whole, start_of, int_bytes}
use distributed_rocks_db_tes.HandleBuff.Writes.{advance, length-whole-advance}
use distributed_rocks_db_tes.Rocks.{Rocks, IsRocks}
use distributed_rocks_db_tes.Rocks.Entries.{Entry, Rows, on, insert, erase, first, is_on}
use distributed_rocks_db_tes.DbHandle
use distributed_rocks_db_tes.DbHandle.Rows.{rows-put_handle, rows-delete_handle}
use distributed_rocks_db_tes.StoreNode.StoreLog.{
  put, delete, error, int_of_kind, Log, StoreLog, write_log, get_log, clear_log, log_of_slice,
}
use distributed_rocks_db_tes.StoreNode.StoreLog.Codec.{
  log_bytes, IsStorable, log_size, to_slice-fits, slice_bytes-advance, log_of_buff-log_bytes,
  log_of_slice-eq, length-log_bytes,
}

-- The row that an entry is kept in.
abbrev pub log_row : Log → Entry
log_row log = record { key = log_bytes log; value = [] }

abbrev pub put_log : Bytes → Bytes → Log
put_log key value = record { kind = put; key = key; value = value }

abbrev pub delete_log : Bytes → Log
delete_log key = record { kind = delete; key = key; value = [] }

-- The bytes begin with the kind, so an insertion stands before a deletion.
put_before_delete :
    (key value other : Bytes)
    → lt_bytes (log_bytes (put_log key value)) (log_bytes (delete_log other)) ≡ true
unfolding lt_bytes log_bytes int_bytes int_of_kind
put_before_delete key value other = refl

module _ {Db Iterator : Type 0} (r : Rocks Db Iterator) (laws : IsRocks r) where
  open laws use {rows, position}

  abbrev pub log_rows : StoreLog Db → Rows
  log_rows l = rows l.db_handle.db

  -- The first entry of the log's database, as the iterator stands.
  position-start :
      (l : StoreLog Db)
      → position (r.seek_to_first (r.new_iterator l.db_handle.db)) ≡ first (log_rows l)
  position-start l =
      laws.position-seek_to_first _ ∙ ap first (laws.rows_of-new_iterator l.db_handle.db)

  -- The log with an entry written.
  unfoldable pub logged : Log → StoreLog Db → StoreLog Db
  logged log l = record {
    db_handle = DbHandle.put r (log_bytes log) [] l.db_handle;
    buff = whole (advance (log_bytes log) (start_of l.buff));
  }

  pub log_rows-logged :
      (log : Log) (l : StoreLog Db)
      → log_rows (logged log l) ≡ insert (log_bytes log) [] (log_rows l)
  unfolding logged
  log_rows-logged log l = rows-put_handle r laws (log_bytes log) [] l.db_handle

  module _ (log : Log) (l : StoreLog Db) (small : log_size log < 2 ^ 31)
      (room : log_size log ≤ length l.buff) where
    pub write_log-fits : write_log r log.kind log.key log.value l ≡ some (logged log l)
    unfolding write_log logged
    write_log-fits = rw (
      to_slice-fits log (start_of l.buff) small room,
      slice_bytes-advance log (start_of l.buff) small room,
    )

    pub length-logged : length (logged log l).buff ≡ length l.buff
    unfolding logged
    length-logged =
        length-whole-advance (log_bytes log) (start_of l.buff) (rw length-log_bytes room)

  pub get_log-none :
      (l : StoreLog Db)
      → log_rows l ≡ []
      → get_log r l ≡ some (record { kind = error; key = []; value = [] })
  unfolding get_log first is_on
  get_log-none l h = rw (
      laws.valid_lem (r.seek_to_first (r.new_iterator l.db_handle.db))
      ∙ ap is_on (position-start l ∙ ap first h))

  get_log-first :
      (l : StoreLog Db) (e : Entry) (rest : Rows)
      → log_rows l ≡ e ∷ rest
      → get_log r l ≡ log_of_slice e.key
  unfolding get_log first is_on
  get_log-first l e rest h =
      let p : position (r.seek_to_first (r.new_iterator l.db_handle.db)) ≡ on [] e rest =
        position-start l ∙ ap first h in
      rw (
        laws.valid_lem (r.seek_to_first (r.new_iterator l.db_handle.db)) ∙ ap is_on p,
        laws.key_lem _ [] e rest p,
      )

  -- `clear_log` deletes the first entry alone.
  pub clear_log-first :
      (l : StoreLog Db) (e : Entry) (rest : Rows)
      → log_rows l ≡ e ∷ rest
      → log_rows (clear_log r l) ≡ rest
  unfolding clear_log first is_on erase
  clear_log-first l e rest h =
      let p : position (r.seek_to_first (r.new_iterator l.db_handle.db)) ≡ on [] e rest =
        position-start l ∙ ap first h in
      rw
        (
          laws.valid_lem (r.seek_to_first (r.new_iterator l.db_handle.db)) ∙ ap is_on p,
          laws.key_lem _ [] e rest p,
        )
        (rw (rows-delete_handle r laws e.key l.db_handle, h, eq_bytes_refl e.key))

  pub clear_log-none : (l : StoreLog Db) → log_rows l ≡ [] → clear_log r l ≡ l
  unfolding clear_log first is_on
  clear_log-none l h = rw (
      laws.valid_lem (r.seek_to_first (r.new_iterator l.db_handle.db))
      ∙ ap is_on (position-start l ∙ ap first h))

  insert-one :
      (k j : Bytes)
      → lt_bytes j k ≡ true
      → insert k [] (record { key = j; value = [] } ∷ [])
        ≡ record { key = j; value = [] } ∷ record { key = k; value = [] } ∷ []
  unfolding insert
  insert-one k j h =
      ground (arith, lt_bytes_trans k j k, lt_bytes_irrefl k, lt_bytes_irrefl j, eq_bytes_iff k j)

  pub get_log-storable :
      (log : Log) (l : StoreLog Db) (rest : Rows)
      → IsStorable log
      → log_rows l ≡ log_row log ∷ rest
      → get_log r l ≡ some log
  get_log-storable log l rest s h =
      get_log-first l (log_row log) rest h
      ∙ log_of_slice-eq (log_bytes log)
      ∙ (rw append-nil at (log_of_buff-log_bytes log [] s))

  -- An entry that fits, written to an empty log, is what `get_log` returns; `clear_log` then leaves
  -- the log empty. Writing does not change the size of the log's buffer.
  pub log_round :
      (log : Log) (l : StoreLog Db)
      → log_rows l ≡ []
      → IsStorable log
      → log_size log ≤ length l.buff
      → (l' : StoreLog Db) × (write_log r log.kind log.key log.value l ≡ some l')
        × (get_log r l' ≡ some log)
        × (log_rows (clear_log r l') ≡ [])
        × (length l'.buff ≡ length l.buff)
  unfolding insert
  log_round log l empty s room =
      let small : log_size log < 2 ^ 31 = omega (arith, s.key_short, s.value_short) in
      let one : log_rows (logged log l) ≡ log_row log ∷ [] =
        log_rows-logged log l ∙ ap (insert (log_bytes log) []) empty in
      (
        logged log l,
        write_log-fits log l small room,
        get_log-storable log (logged log l) [] s one,
        clear_log-first (logged log l) (log_row log) [] one,
        length-logged log l small room,
      )

  -- Where an insertion is still pending, a deletion that is written after it is not what `get_log`
  -- returns: the insertion is, and `clear_log` then leaves the deletion.
  pub delete_behind_put :
      (key value other : Bytes) (l : StoreLog Db)
      → log_rows l ≡ log_row (put_log key value) ∷ []
      → IsStorable (put_log key value)
      → IsStorable (delete_log other)
      → log_size (delete_log other) ≤ length l.buff
      → (l' : StoreLog Db) × (write_log r delete other [] l ≡ some l')
        × (get_log r l' ≡ some (put_log key value))
        × (log_rows (clear_log r l') ≡ log_row (delete_log other) ∷ [])
  delete_behind_put key value other l pending s t room =
      let p : Log = put_log key value in
      let d : Log = delete_log other in
      let small : log_size d < 2 ^ 31 = omega (arith, t.key_short) in
      let two : log_rows (logged d l) ≡ log_row p ∷ log_row d ∷ [] =
        log_rows-logged d l
        ∙ ap (insert (log_bytes d) []) pending
        ∙ insert-one (log_bytes d) (log_bytes p) (put_before_delete key value other) in
      (
        logged d l,
        write_log-fits d l small room,
        get_log-storable p (logged d l) (log_row d ∷ []) s two,
        clear_log-first (logged d l) (log_row p) (log_row d ∷ []) two,
      )
