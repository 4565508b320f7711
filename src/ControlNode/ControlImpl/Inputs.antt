-- ===== src/ControlNode/ControlImpl/Inputs.antt =====
-- The loop of the control process against the commands that the words of its input spell.
use distributed_rocks_db_tes.Prelude.{
  if◌then◌else◌, length, ℕ, false, Option, none, some, List, [], ◌∷◌, ◌++◌, ◌>>=◌, ◌≡◌, refl, All,
  ◌∙◌,
}
use distributed_rocks_db_tes.Prelude.Bytes.{is_empty, codes, codes, Bytes, eq_bytes}
use distributed_rocks_db_tes.ConstValues.{put_word, get_word, del_word, test_word, quit_word}
use distributed_rocks_db_tes.Rocks.{Rocks}
use distributed_rocks_db_tes.ControlNode.ControlImpl
use distributed_rocks_db_tes.ControlNode.ControlImpl.{length, ControlImpl, test}
use distributed_rocks_db_tes.ControlNode.ControlImpl.Balance.{Share, re_balance}
use distributed_rocks_db_tes.ControlNode.ControlImpl.Run.{
  Wanted, wanted_by, run_put, run_get, run_del, run,
}

-- What a user types. `unknown` is a word that starts no command.
pub data Command : Type 0 where
  put : Bytes → Bytes → Command
  get del test_with : Bytes → Command
  unknown : Bytes → Command

abbrev pub words_of : Command → List Bytes
words_of (put key value) = put_word ∷ key ∷ value ∷ []
words_of (get key) = get_word ∷ key ∷ []
words_of (del key) = del_word ∷ key ∷ []
words_of (test_with text) = test_word ∷ text ∷ []
words_of (unknown word) = word ∷ []

-- The words of commands, one after another, and "quit".
abbrev pub session : List Command → List Bytes
session [] = quit_word ∷ []
session (c ∷ cs) = words_of c ++ session cs

abbrev pub IsCommand : Command → Type 0
IsCommand (unknown word) = (eq_bytes word quit_word ≡ false) × (wanted_by word ≡ Wanted.command)
IsCommand (put key value) = Unit {0}
IsCommand (get key) = Unit {0}
IsCommand (del key) = Unit {0}
IsCommand (test_with text) = Unit {0}

-- A step that prints nothing, one that prints a line, and a step with what follows it.
abbrev pub quietly : {A : Type 0} → Option A → Option (A × List Bytes)
quietly m = do a ← m; some (a, [])

abbrev pub aloud : {A : Type 0} → Option (A × Bytes) → Option (A × List Bytes)
aloud m = do (a, line) ← m; some (a, line ∷ [])

abbrev pub before :
    {A B : Type 0}
    → (A → Option (B × List Bytes))
    → Option (A × List Bytes)
    → Option (B × List Bytes)
before f m = do (a, lines) ← m; (b, rest) ← f a; some (b, lines ++ rest)

eta : {B : Type 0} (m : Option (B × List Bytes)) → m ≡ (m >>= (λ (b, rest). some (b, [] ++ rest)))
eta none = refl
eta (some (b, rest)) = refl

unprinted : {A B : Type 0} (f : A → Option (B × List Bytes)) (a : A) → f a ≡ before f (some (a, []))
unprinted f a = eta (f a)

before-quietly :
    {A B : Type 0} (m : Option A) {f g : A → Option (B × List Bytes)}
    → ((a : A) → f a ≡ g a)
    → (m >>= f) ≡ before g (quietly m)
before-quietly none h = refl
before-quietly (some a) {g = g} h = h a ∙ unprinted g a

before-aloud :
    {A B : Type 0} (m : Option (A × Bytes)) {f g : A → Option (B × List Bytes)}
    → ((a : A) → f a ≡ g a)
    → (m >>= (λ (a, line). f a >>= (λ (b, lines). some (b, line ∷ lines)))) ≡ before g (aloud m)
before-aloud none h = refl
before-aloud (some (a, line)) h = rw (h a) refl

module _ {Db Iterator : Type 0} (r : Rocks Db Iterator) (share : Share) (rounds : ℕ) where
  -- re_balance over all nodes.
  abbrev balanced : ControlImpl Db → Option (ControlImpl Db)
  balanced c = re_balance r share rounds (length c.virtual_fd_2_net_file) c

  -- A put, and a del of a key that is not empty, has a re_balance behind it; of what is printed there is
  -- the line of a get.
  abbrev pub execute : Command → ControlImpl Db → Option (ControlImpl Db × List Bytes)
  execute (put key value) c = quietly (do c' ← ControlImpl.put r key value c; balanced c')
  execute (get key) c =
      aloud (do (c', ans) ← ControlImpl.get r key c; some (c', codes "get " ++ (ans ++ (10 ∷ []))))
  execute (del key) c =
      quietly (do c' ← ControlImpl.del r key c; if is_empty key then some c' else balanced c')
  execute (test_with text) c = quietly (test r text c)
  execute (unknown word) c = some (c, [])

  abbrev pub execute_all : List Command → ControlImpl Db → Option (ControlImpl Db × List Bytes)
  execute_all [] c = some (c, [])
  execute_all (command ∷ commands) c = before (execute_all commands) (execute command c)

  run-unknown :
      (word : Bytes) (words : List Bytes) (c : ControlImpl Db)
      → eq_bytes word quit_word ≡ false
      → wanted_by word ≡ Wanted.command
      → run r share rounds Wanted.command (word ∷ words) c
        ≡ run r share rounds Wanted.command words c
  unfolding run
  run-unknown word words c other idle = rw (other, run) (rw idle refl)

  -- The loop on the words of any commands, ended by "quit", does what the commands do one after
  -- another, re_balance behind each put and each del of a key included, and prints what they print, of
  -- which the model has the lines of the gets; a word that starts no command is passed over.
  pub run-session :
      (commands : List Command) (c : ControlImpl Db)
      → All IsCommand commands
      → run r share rounds Wanted.command (session commands) c ≡ execute_all commands c
  unfolding run wanted_by eq_bytes run_put run_get run_del
  run-session [] c h = refl
  run-session (put key value ∷ cs) c h = before-quietly _ (λ c'. run-session cs c' h.1)
  run-session (get key ∷ cs) c h = before-aloud _ (λ c'. run-session cs c' h.1)
  run-session (del key ∷ cs) c h = before-quietly _ (λ c'. run-session cs c' h.1)
  run-session (test_with text ∷ cs) c h = before-quietly _ (λ c'. run-session cs c' h.1)
  run-session (unknown word ∷ cs) c h =
      run-unknown word (session cs) c h.0.0 h.0.1
      ∙ run-session cs c h.1
      ∙ unprinted (execute_all cs) c
