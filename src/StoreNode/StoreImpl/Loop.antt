-- ===== src/StoreNode/StoreImpl/Loop.antt =====
-- The loop of my_code/store_node/store_impl, and what it sends for each command.
--
-- The connection is the list of the messages that arrive, each whole in one `recv`. What the process
-- prints is not modelled. A step gives the new state and what is sent back.
use distributed_rocks_db_tes.Prelude.{
  ℕ, Bool, true, false, Option, some, List, [], ◌∷◌, if◌then◌else◌, ◌>>=◌,
}
use distributed_rocks_db_tes.Prelude.Bytes.{Bytes, eq_bytes}
use distributed_rocks_db_tes.ConstValues.{
  get_word, del_log_word, commit_log_word, size_word, quit_word, log_word, test_word, ok_word,
  max_key_word, min_key_word, less_or_equal_one_word,
}
use distributed_rocks_db_tes.HandleBuff.{
  Cursor, whole, start_of, insert_int_to_buff, insert_str_to_buff, get_string_from_buff,
}
use distributed_rocks_db_tes.NetConnect.NetFile.{send_to, receive_from}
use distributed_rocks_db_tes.Rocks.{Rocks}
use distributed_rocks_db_tes.StoreNode.StoreData
use distributed_rocks_db_tes.StoreNode.StoreData.{StoreData, open_data}
use distributed_rocks_db_tes.StoreNode.StoreLog.{log_of_buff}
use distributed_rocks_db_tes.StoreNode.StoreImpl
use distributed_rocks_db_tes.StoreNode.StoreImpl.{
  StoreImpl, get, delete_log, commit_log, log_log, insert_pair,
}

pub data Answer : Type 0 where
  -- The loop ends.
  quit : Answer
  silent : Answer
  sent : Bytes → Answer

-- An answer of strings or of one int, written from the start of the send buffer.
abbrev pub answer : {Db : Type 0} → Cursor → ℕ → StoreImpl Db → StoreImpl Db × Answer
answer end len s = (record s { send_buff = whole end }, sent (send_to (whole end) len))

abbrev pub int_of_bool : Bool → ℕ
int_of_bool true = 1
int_of_bool false = 0

module _ {Db Iterator : Type 0} (r : Rocks Db Iterator) where
  unfoldable pub serve_get : Bytes → StoreImpl Db → Option (StoreImpl Db × Answer)
  serve_get tmp s = do
    (key, rest) ← get_string_from_buff tmp
    (end, len) ← insert_str_to_buff (start_of s.send_buff) (get r key s) 0
    some (answer end len s)

  unfoldable pub serve_log : Bytes → StoreImpl Db → Option (StoreImpl Db × Answer)
  serve_log tmp s = do
    log ← log_of_buff tmp
    (send, send_len) ← insert_str_to_buff (start_of s.send_buff) ok_word 0
    (s', end, len) ← log_log r log send send_len s
    some (answer end len s')

  unfoldable pub serve_commit_log : StoreImpl Db → Option (StoreImpl Db × Answer)
  serve_commit_log s = do
    (end, len) ← insert_str_to_buff (start_of s.send_buff) ok_word 0
    s' ← commit_log r s
    some (answer end len s')

  unfoldable pub serve_test : Bytes → StoreImpl Db → Option (StoreImpl Db × Answer)
  serve_test tmp s = do (rec, rest) ← get_string_from_buff tmp; some (s, silent)

  unfoldable pub serve_int : ℕ → StoreImpl Db → Option (StoreImpl Db × Answer)
  serve_int n s = do
    (end, len) ← insert_int_to_buff (start_of s.send_buff) n 0
    some (answer end len s)

  unfoldable pub serve_less_or_equal_one : StoreImpl Db → Option (StoreImpl Db × Answer)
  serve_less_or_equal_one s = do
    few ← StoreImpl.store_less_or_equal_one r s
    serve_int (int_of_bool few) s

  unfoldable pub serve_pair : Bytes × Bytes → StoreImpl Db → Option (StoreImpl Db × Answer)
  serve_pair pair s = do
    (end, len) ← insert_pair (start_of s.send_buff) pair 0
    some (answer end len s)

  unfoldable pub serve_del_log : StoreImpl Db → Option (StoreImpl Db × Answer)
  serve_del_log s = do
    (end, len) ← insert_str_to_buff (start_of s.send_buff) ok_word 0
    some (answer end len (delete_log r s))

  -- The chain of comparisons of the loop's body.
  unfoldable pub serve : Bytes → Bytes → StoreImpl Db → Option (StoreImpl Db × Answer)
  serve command tmp s =
      if eq_bytes command quit_word
      then some (s, quit)
      else if eq_bytes command get_word
      then serve_get tmp s
      else if eq_bytes command log_word
      then serve_log tmp s
      else if eq_bytes command commit_log_word
      then serve_commit_log s
      else if eq_bytes command test_word
      then serve_test tmp s
      else if eq_bytes command size_word
      then serve_int (StoreData.get_size r s.store_data) s
      else if eq_bytes command less_or_equal_one_word
      then serve_less_or_equal_one s
      else if eq_bytes command max_key_word
      then serve_pair (StoreData.get_max_key r [] [] s.store_data) s
      else if eq_bytes command min_key_word
      then serve_pair (StoreData.get_min_key r [] [] s.store_data) s
      else if eq_bytes command del_log_word
      then serve_del_log s
      else some (s, silent)

  unfoldable pub step : Bytes → StoreImpl Db → Option (StoreImpl Db × Answer)
  step message s = do
    let buff = receive_from message s.receive_buff
    (command, tmp) ← get_string_from_buff buff
    serve command tmp (record s { receive_buff = buff })

  -- The loop over the messages that arrive, up to the one that ends it, with the answers.
  unfoldable pub run : List Bytes → StoreImpl Db → Option (StoreImpl Db × List Answer)
  run [] s = some (s, [])
  run (message ∷ rest) s = do
    (s', a) ← step message s
    elim a [
      | quit ↦ some (s', quit ∷ [])
      | other ↦ do (end, answers) ← run rest s'; some (end, other ∷ answers)
    ]
