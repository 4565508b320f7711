-- ===== src/StoreNode/StoreImpl/Silent.antt =====
-- The message whose string a node only prints.
use distributed_rocks_db_tes.Prelude.{
  length-append, append_assoc, [], ◌∷◌, ◌+◌, ◌≡◌, refl, ◌∙◌, some, ◌++◌, arith, length, ◌≤◌, drop,
}
use distributed_rocks_db_tes.Prelude.Bytes.{Bytes, eq_bytes}
use distributed_rocks_db_tes.ConstValues.{test_word}
use distributed_rocks_db_tes.HandleBuff.{max_line}
use distributed_rocks_db_tes.HandleBuff.Writes.{strs_bytes, str_bytes, length-str_bytes}
use distributed_rocks_db_tes.HandleBuff.RoundTrip.{get_string-str_bytes}
use distributed_rocks_db_tes.Rocks.{Rocks, IsRocks}
use distributed_rocks_db_tes.Rocks.Entries.{Rows}
use distributed_rocks_db_tes.StoreNode.StoreImpl.{StoreImpl}
use distributed_rocks_db_tes.StoreNode.StoreImpl.Loop.{silent, serve, step, serve_test}
use distributed_rocks_db_tes.StoreNode.StoreImpl.Commits.{Holds}
use distributed_rocks_db_tes.StoreNode.StoreImpl.Messages.{received, received-Holds, step-message}

abbrev pub test_message : Bytes → Bytes
test_message text = strs_bytes (test_word ∷ text ∷ [])

pub length-test_message : (text : Bytes) → length (test_message text) ≡ length text + 14
unfolding strs_bytes
length-test_message text = omega (
  arith,
  length-append {0} (str_bytes test_word) (str_bytes text ++ []),
  length-append {0} (str_bytes text) [],
  length-str_bytes text,
  length-str_bytes test_word,
)

module _ {Db Iterator : Type 0} (r : Rocks Db Iterator) (laws : IsRocks r) where
  serve-test : (tmp : Bytes) (s : StoreImpl Db) → serve r test_word tmp s ≡ serve_test r tmp s
  unfolding serve eq_bytes
  serve-test tmp s = refl

  -- It has no answer; the entries and the log stay.
  pub step-test :
      (text : Bytes) {s : StoreImpl Db} {stored kept : Rows}
      → Holds r laws s stored kept
      → length text + 14 ≤ max_line
      → (s' : StoreImpl Db) × (step r (test_message text) s ≡ some (s', silent))
        × Holds r laws s' stored kept
  unfolding serve_test strs_bytes
  step-test text {s} h short =
      let message : Bytes = str_bytes test_word ++ (str_bytes text ++ []) in
      let small : length message ≤ max_line = omega (arith, length-test_message text) in
      let old : Bytes = drop (length message) s.receive_buff in
      (
        received r laws message s,
        step-message r laws test_word (str_bytes text ++ []) s (omega arith) small
            ∙ serve-test ((str_bytes text ++ []) ++ old) (received r laws message s)
            ∙ rw (append_assoc (str_bytes text) [] old, get_string-str_bytes text old (omega arith))
                refl,
        received-Holds r laws message small h,
      )
