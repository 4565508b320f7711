-- ===== src/ControlNode/ControlImpl/Run.antt =====
-- The loop of my_code/control_node/control_impl over the words that are typed.
--
-- The words of the input are a list, which `cin >>` reads one by one; at its end the loop of the source
-- goes on for ever, and the model gives `none`. `rounds` bounds each loop of a re_balance.
-- Of what the commands print, the model has the line of a get.
use distributed_rocks_db_tes.Prelude.{
  ℕ, true, false, Option, none, some, List, [], ◌∷◌, ◌++◌, if◌then◌else◌, length, ◌>>=◌,
}
use distributed_rocks_db_tes.Prelude.Bytes.{Bytes, codes, eq_bytes, is_empty}
use distributed_rocks_db_tes.ConstValues.{put_word, get_word, del_word, test_word, quit_word}
use distributed_rocks_db_tes.Rocks.{Rocks}
use distributed_rocks_db_tes.ControlNode.ControlImpl.{ControlImpl, put, get, del, test}
use distributed_rocks_db_tes.ControlNode.ControlImpl.Balance.{Share, re_balance}

-- What the next word is for.
pub data Wanted : Type 0 where
  command test_string put_key get_key del_key : Wanted
  put_value : Bytes → Wanted

-- What a get prints, `cout << "get " << ans << endl`.
abbrev pub answer_line : Bytes → Bytes
answer_line ans = codes "get " ++ (ans ++ (10 ∷ []))

-- The chain of comparisons, behind that with "quit".
unfoldable pub wanted_by : Bytes → Wanted
wanted_by word =
    if eq_bytes word test_word
    then test_string
    else if eq_bytes word put_word
    then put_key
    else if eq_bytes word get_word
    then get_key
    else if eq_bytes word del_word
    then del_key
    else command

module _ {Db Iterator : Type 0} (r : Rocks Db Iterator) (share : Share) (rounds : ℕ) where
  -- The call of re_balance behind a put and a del.
  abbrev pub balance : ControlImpl Db → Option (ControlImpl Db)
  balance c = re_balance r share rounds (length c.virtual_fd_2_net_file) c

  unfoldable pub run_put : Bytes → Bytes → ControlImpl Db → Option (ControlImpl Db)
  run_put key value c = do c' ← put r key value c; balance c'

  -- With the line that it prints.
  unfoldable pub run_get : Bytes → ControlImpl Db → Option (ControlImpl Db × Bytes)
  run_get key c = do (c', ans) ← get r key c; some (c', answer_line ans)

  unfoldable pub run_del : Bytes → ControlImpl Db → Option (ControlImpl Db)
  run_del key c = do c' ← del r key c; if is_empty key then some c' else balance c'

  -- With the lines that the gets print.
  unfoldable pub run : Wanted → List Bytes → ControlImpl Db → Option (ControlImpl Db × List Bytes)
  run wanted [] c = none
  run command (word ∷ words) c = elim (eq_bytes word quit_word) [
    | true ↦ some (c, [])
    | false ↦ run (wanted_by word) words c
  ]
  run test_string (word ∷ words) c = do c' ← test r word c; run command words c'
  run put_key (word ∷ words) c = run (put_value word) words c
  run (put_value key) (word ∷ words) c = do c' ← run_put key word c; run command words c'
  run get_key (word ∷ words) c = do
    (c', line) ← run_get word c
    (end, lines) ← run command words c'
    some (end, line ∷ lines)
  run del_key (word ∷ words) c = do c' ← run_del word c; run command words c'
