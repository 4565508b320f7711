-- ===== src/StoreNode/StoreImpl/TwoPhase.antt =====
-- A change in two phases as a storage process serves it: a message that logs it, then one that
-- commits it or drops it.
use distributed_rocks_db_tes.Prelude.{◌≡◌, refl, ◌∙◌, subst, some, List, [], ◌∷◌, ◌>>=◌}
use distributed_rocks_db_tes.Prelude.Bytes.{Bytes}
use distributed_rocks_db_tes.Rocks.{Rocks, IsRocks}
use distributed_rocks_db_tes.Rocks.Entries.{Rows}
use distributed_rocks_db_tes.StoreNode.StoreLog.Pending.{log_row}
use distributed_rocks_db_tes.StoreNode.StoreImpl.{StoreImpl}
use distributed_rocks_db_tes.StoreNode.StoreImpl.Loop.{sent, step}
use distributed_rocks_db_tes.StoreNode.StoreImpl.Commits.{Holds}
use distributed_rocks_db_tes.StoreNode.StoreImpl.Loop.{run}
use distributed_rocks_db_tes.StoreNode.StoreImpl.Serves.{
  commit_message, del_log_message, log_message, ok_answer, range_answer, step-commit,
  step-commit_none, step-del_log,
}
use distributed_rocks_db_tes.StoreNode.StoreImpl.LogPhase.{
  Change, log_of, changed, IsSendable, apply_rows-change, step-log,
}

module _ {Db Iterator : Type 0} (r : Rocks Db Iterator) (laws : IsRocks r) where
  run-nil : (s : StoreImpl Db) → run r [] s ≡ some (s, [])
  unfolding run
  run-nil s = refl

  run-step :
      (message : Bytes) (rest : List Bytes) (s s' : StoreImpl Db) (bytes : Bytes)
      → step r message s ≡ some (s', sent bytes)
      → run r (message ∷ rest) s ≡ (run r rest s' >>= λ p. some (p.0, sent bytes ∷ p.1))
  unfolding run
  run-step message rest s s' bytes h = rw (h, run)

  -- A node that gets a log message and then a commit, with an empty log before, where the change can
  -- be sent (strings with no NUL, messages within the buffers, no empty key), answers "ok" with the
  -- range that the data will have, and "ok"; the change is then made on its data, and its log is empty.
  pub run-log_commit :
      (change : Change) {s : StoreImpl Db} {stored : Rows}
      → IsSendable change stored
      → Holds r laws s stored []
      → (s' : StoreImpl Db) × (run r (log_message (log_of change) ∷ commit_message ∷ []) s
          ≡ some (s', range_answer (changed change stored) ∷ ok_answer ∷ []))
        × Holds r laws s' (changed change stored) []
  run-log_commit change {s} {stored} f h =
      let (one, e, g) = step-log r laws change f h in
      let (two, d, k) = step-commit r laws (log_of change) f.storable g in
      (
        two,
        run-step _ _ s one _ e ∙ rw (run-step commit_message [] one two _ d, run-nil two),
        subst (λ l. Holds r laws two l []) (apply_rows-change change stored) k,
      )

  -- A node that gets a log message of a change that can be sent (strings with no NUL, messages within the buffers, no empty key), then one that drops the
  -- log, and even a commit after it, with an empty log before, answers the range and "ok" twice; its data is as it was, and its log is empty.
  pub run-log_del_log_commit :
      (change : Change) {s : StoreImpl Db} {stored : Rows}
      → IsSendable change stored
      → Holds r laws s stored []
      → (s' : StoreImpl Db) × (run r
            (log_message (log_of change) ∷ del_log_message ∷ commit_message ∷ [])
            s
          ≡ some (s', range_answer (changed change stored) ∷ ok_answer ∷ ok_answer ∷ []))
        × Holds r laws s' stored []
  run-log_del_log_commit change {s} {stored} f h =
      let (one, e, g) = step-log r laws change f h in
      let (two, d, k) = step-del_log r laws (log_row (log_of change)) g in
      let (three, c, m) = step-commit_none r laws k in
      (
        three,
        run-step _ _ s one _ e
            ∙ rw (run-step del_log_message (commit_message ∷ []) one two _ d)
                (rw (run-step commit_message [] two three _ c, run-nil three)),
        m,
      )
