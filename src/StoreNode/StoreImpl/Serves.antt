-- ===== src/StoreNode/StoreImpl/Serves.antt =====
-- The two phases of a change as a storage process serves them: a message that logs it, then one that
-- commits it or drops it.
use distributed_rocks_db_tes.Prelude.{◌≡◌, refl, ap, ◌∙◌, some, [], ◌∷◌, ◌++◌, arith, length, ◌≤◌}
use distributed_rocks_db_tes.Prelude.Bytes.{Bytes, eq_bytes}
use distributed_rocks_db_tes.ConstValues.{commit_log_word, del_log_word, log_word, ok_word}
use distributed_rocks_db_tes.HandleBuff.{start_of, max_line, insert_str_to_buff}
use distributed_rocks_db_tes.HandleBuff.Writes.{
  str_bytes, length-str_bytes, advance, insert_str-fits,
}
use distributed_rocks_db_tes.Rocks.{Rocks, IsRocks}
use distributed_rocks_db_tes.Rocks.Entries.{Entry, Rows}
use distributed_rocks_db_tes.Rocks.Extremes.{min_key_of, max_key_of}
use distributed_rocks_db_tes.StoreNode.StoreLog.{Log}
use distributed_rocks_db_tes.StoreNode.StoreLog.Codec.{log_bytes, IsStorable}
use distributed_rocks_db_tes.StoreNode.StoreLog.Pending.{log_row}
use distributed_rocks_db_tes.StoreNode.StoreImpl
use distributed_rocks_db_tes.StoreNode.StoreImpl.{
  StoreImpl, insert_pair, log_log, log_by_kind, log_put, log_delete, range_with, range_without,
}
use distributed_rocks_db_tes.StoreNode.StoreImpl.Loop.{
  Answer, sent, serve, step, serve_commit_log, serve_del_log, serve_log,
}
use distributed_rocks_db_tes.StoreNode.StoreImpl.Commits.{
  Holds, apply_rows, delete_log-Holds, commit_log-Holds, commit_log-none,
}
use distributed_rocks_db_tes.StoreNode.StoreImpl.Messages.{
  received, received-Holds, answered, answered-Holds, answer_lem, step-word, pair_bytes,
}

abbrev pub commit_message : Bytes
commit_message = str_bytes commit_log_word

abbrev pub del_log_message : Bytes
del_log_message = str_bytes del_log_word

abbrev pub log_message : Log → Bytes
log_message log = str_bytes log_word ++ log_bytes log

abbrev pub ok_answer : Answer
ok_answer = sent (str_bytes ok_word)

-- "ok", and the range of keys of the entries.
abbrev pub range_of : Rows → Bytes × Bytes
range_of rows = (min_key_of rows, max_key_of rows)

abbrev pub range_answer : Rows → Answer
range_answer rows = sent (str_bytes ok_word ++ pair_bytes (range_of rows))

pub ok_written :
    (buff : Bytes)
    → length buff ≡ max_line
    → insert_str_to_buff (start_of buff) ok_word 0
      ≡ some (advance (str_bytes ok_word) (start_of buff), 7)
ok_written buff full = insert_str-fits (start_of buff) ok_word 0 (omega arith) (omega (arith, full))

commit_short : length commit_message ≤ max_line
commit_short = omega (arith, length-str_bytes commit_log_word)

module _ {Db Iterator : Type 0} (r : Rocks Db Iterator) (laws : IsRocks r) where
  pub serve-commit :
      (tmp : Bytes) (s : StoreImpl Db) → serve r commit_log_word tmp s ≡ serve_commit_log r s
  unfolding serve eq_bytes
  serve-commit tmp s = refl

  serve-del_log : (tmp : Bytes) (s : StoreImpl Db) → serve r del_log_word tmp s ≡ serve_del_log r s
  unfolding serve eq_bytes
  serve-del_log tmp s = refl

  pub serve-log : (tmp : Bytes) (s : StoreImpl Db) → serve r log_word tmp s ≡ serve_log r tmp s
  unfolding serve eq_bytes
  serve-log tmp s = refl

  step-committed :
      {s s' : StoreImpl Db} {stored kept : Rows} {stored' kept' : Rows}
      → Holds r laws s stored kept
      → StoreImpl.commit_log r (received r laws commit_message s) ≡ some s'
      → Holds r laws s' stored' kept'
      → (end : StoreImpl Db) × (step r commit_message s ≡ some (end, ok_answer))
        × Holds r laws end stored' kept'
  unfolding serve_commit_log
  step-committed {s} {s'} h e k =
      let ok : Bytes = str_bytes ok_word in
      let g = received-Holds r laws commit_message commit_short h in
      let buff : Bytes = (received r laws commit_message s).send_buff in
      (
        answered r laws ok buff s',
        step-word r laws commit_log_word s (omega arith) commit_short
            ∙ serve-commit _ _
            ∙ rw (ok_written buff g.send_room, e)
                (ap some (answer_lem r laws ok buff 7 s' (length-str_bytes ok_word) (omega arith))),
        answered-Holds r laws ok buff (omega (arith, length-str_bytes ok_word)) g.send_room k,
      )

  -- A commit message applies the pending change, clears the log and is answered "ok".
  pub step-commit :
      (log : Log) {s : StoreImpl Db} {stored : Rows}
      → IsStorable log
      → Holds r laws s stored (log_row log ∷ [])
      → (s' : StoreImpl Db) × (step r commit_message s ≡ some (s', ok_answer))
        × Holds r laws s' (apply_rows log.kind log.key log.value stored) []
  step-commit log storable h =
      let (s', e, k) =
        commit_log-Holds r laws log storable
          (received-Holds r laws commit_message commit_short h) in
      step-committed h e k

  -- With nothing pending a commit message changes nothing that counts, and is answered "ok".
  pub step-commit_none :
      {s : StoreImpl Db} {stored : Rows}
      → Holds r laws s stored []
      → (s' : StoreImpl Db) × (step r commit_message s ≡ some (s', ok_answer))
        × Holds r laws s' stored []
  step-commit_none {s} h =
      let g = received-Holds r laws commit_message commit_short h in
      step-committed h (commit_log-none r laws (received r laws commit_message s) g.has_log) g

  -- A message that drops the log drops its first entry, leaves the data, and is answered "ok".
  pub step-del_log :
      (e : Entry) {s : StoreImpl Db} {stored rest : Rows}
      → Holds r laws s stored (e ∷ rest)
      → (s' : StoreImpl Db) × (step r del_log_message s ≡ some (s', ok_answer))
        × Holds r laws s' stored rest
  unfolding serve_del_log
  step-del_log e {s} h =
      let short : length del_log_message ≤ max_line =
        omega (arith, length-str_bytes del_log_word) in
      let g = received-Holds r laws del_log_message short h in
      let got : StoreImpl Db = received r laws del_log_message s in
      let s' : StoreImpl Db = StoreImpl.delete_log r got in
      let buff : Bytes = got.send_buff in
      (
        answered r laws (str_bytes ok_word) buff s',
        step-word r laws del_log_word s (omega arith) short
            ∙ serve-del_log _ _
            ∙ rw (ok_written buff g.send_room) (
                ap some (
                  answer_lem r laws (str_bytes ok_word) buff 7 s' (length-str_bytes ok_word)
                    (omega arith))),
        answered-Holds r laws (str_bytes ok_word) buff (omega (arith, length-str_bytes ok_word))
            g.send_room (delete_log-Holds r laws e g),
      )
