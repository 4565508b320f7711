-- ===== src/MainCpp/Script.antt =====
-- The input that my_code/test/test1.py prints, with "quit" behind it.
use distributed_rocks_db_tes.Prelude.{
  ℕ, zero, suc, ◌+◌, ◌≡◌, ◌≢◌, refl, ap, ◌∙◌, none, some, List, [], ◌∷◌, ◌++◌, length, arith, ◌<◌,
  ◌≤◌, All, Option, ◌%◌, ◌/◌, ◌==◌, Bool-cases, inl, inr,
}
use distributed_rocks_db_tes.Prelude.Bytes.{Bytes, codes, eq_bytes, eq_bytes_refl}
use distributed_rocks_db_tes.ConstValues.{put_word, quit_word}
use distributed_rocks_db_tes.HandleBuff.{max_line}
use distributed_rocks_db_tes.HandleBuff.RoundTrip.{NoNul}
use distributed_rocks_db_tes.Rocks.{Rocks, IsRocks}
use distributed_rocks_db_tes.DbHandle.{digits, to_string}
use distributed_rocks_db_tes.StoreNode.StoreImpl.{StoreImpl}
use distributed_rocks_db_tes.StoreNode.StoreImpl.Commits.{Holds}
use distributed_rocks_db_tes.ControlNode.ControlImpl.{ControlImpl}
use distributed_rocks_db_tes.ControlNode.ControlImpl.Balance.{Share}
use distributed_rocks_db_tes.ControlNode.ControlImpl.Inputs.{Command, session}
use distributed_rocks_db_tes.ControlNode.Cluster.{Shard, value_at, IsText, IsCluster}
use distributed_rocks_db_tes.ControlNode.Cluster.Changed.{same_or_other}
use distributed_rocks_db_tes.ControlNode.Cluster.Executed.{IsTyped}
use distributed_rocks_db_tes.ControlNode.Cluster.Session.{told, replay}
use distributed_rocks_db_tes.MainCpp.{store_locations, control_main, put_words}
use distributed_rocks_db_tes.MainCpp.Served.{control_main-IsCluster}

digits-NoNul : (more n : ℕ) (text : Bytes) → NoNul text → NoNul (digits more n text)
digits-NoNul zero n text h = h
digits-NoNul (suc more) n text h =
    let longer : NoNul ((48 + n % 10) ∷ text) = ((λ p. omega (arith, p)), h) in
    let rest = digits-NoNul more (n / 10) ((48 + n % 10) ∷ text) longer in
    elim (Bool-cases (n / 10 == 0)) [
      | inl last ↦ rw last longer
      | inr more_left ↦ rw more_left rest
    ]

length-digits : (more n : ℕ) (text : Bytes) → length (digits more n text) ≤ more + length text
length-digits zero n text = omega arith
length-digits (suc more) n text =
    let rest = length-digits more (n / 10) ((48 + n % 10) ∷ text) in
    elim (Bool-cases (n / 10 == 0)) [
      | inl last ↦ rw last (omega arith)
      | inr more_left ↦ rw more_left (omega (arith, rest))
    ]

length-digits_least : (more n : ℕ) (text : Bytes) → length text ≤ length (digits more n text)
length-digits_least zero n text = omega arith
length-digits_least (suc more) n text =
    let rest = length-digits_least more (n / 10) ((48 + n % 10) ∷ text) in
    elim (Bool-cases (n / 10 == 0)) [
      | inl last ↦ rw last (omega arith)
      | inr more_left ↦ rw more_left (omega (arith, rest))
    ]

length-digits_first : (more n : ℕ) (text : Bytes) → length text < length (digits (suc more) n text)
length-digits_first more n text =
    let rest = length-digits_least more (n / 10) ((48 + n % 10) ∷ text) in
    elim (Bool-cases (n / 10 == 0)) [
      | inl last ↦ rw last (omega arith)
      | inr more_left ↦ rw more_left (omega (arith, rest))
    ]

number-IsText : (n : ℕ) → IsText (to_string n)
number-IsText n = (digits-NoNul 10 n [] tt, omega (arith, length-digits 10 n []))

number-not_nil : (n : ℕ) → to_string n ≢ []
number-not_nil n p = omega (arith, length-digits_first 9 n [], ap length p)

module _ (name : ℕ → Bytes) (value : Bytes) where
  -- Numbers from `i` on, each put with the same value.
  abbrev pub puts : ℕ → ℕ → List Command
  puts zero i = []
  puts (suc lines) i = Command.put (name i) value ∷ puts lines (i + 1)

  length-puts : (lines i : ℕ) → length (puts lines i) ≡ lines
  length-puts zero i = refl
  length-puts (suc lines) i = ap suc (length-puts lines (i + 1))

  puts-IsTyped :
      ((n : ℕ) → IsText (name n) × (name n ≢ []))
      → IsText value
      → (lines i : ℕ) → All IsTyped (puts lines i)
  puts-IsTyped names text zero i = tt
  puts-IsTyped names text (suc lines) i =
      (((names i).0, text, (names i).1), puts-IsTyped names text lines (i + 1))

  told-puts : (lines i : ℕ) (m : Bytes → Option Bytes) → told (puts lines i) m ≡ []
  told-puts zero i m = refl
  told-puts (suc lines) i m = told-puts lines (i + 1) _

  -- A number that has the value keeps it.
  replay-kept :
      (lines i : ℕ) (key : Bytes) (m : Bytes → Option Bytes)
      → m key ≡ some value
      → replay (puts lines i) m key ≡ some value
  replay-kept zero i key m h = h
  replay-kept (suc lines) i key m h =
      replay-kept lines (i + 1) key _ (elim (Bool-cases (eq_bytes key (name i))) [
        | inl same ↦ rw same refl
        | inr other ↦ rw other h
      ])

  replay-puts :
      (lines i n : ℕ) (m : Bytes → Option Bytes)
      → i ≤ n
      → n < i + lines
      → replay (puts lines i) m (name n) ≡ some value
  replay-puts zero i n m from to = absurd (omega (arith, from, to))
  replay-puts (suc lines) i n m from to = elim (same_or_other n i) [
    | inl same ↦ replay-kept lines (i + 1) (name n) _ (rw (same, eq_bytes_refl (name i)) refl)
    | inr other ↦ replay-puts lines (i + 1) n _ (omega (arith, from, other)) (omega (arith, to))
  ]

-- The commands that the words are.
abbrev pub script : ℕ → ℕ → List Command
script = puts to_string (to_string 1)

put_words-session : (lines i : ℕ) → put_words lines i ++ (quit_word ∷ []) ≡ session (script lines i)
unfolding put_words
put_words-session zero i = refl
put_words-session (suc lines) i =
    ap (λ (words : List Bytes). put_word ∷ (to_string i ∷ (to_string 1 ∷ words)))
      (put_words-session lines (i + 1))

module _ {Db Iterator : Type 0} (r : Rocks Db Iterator) (laws : IsRocks r) where
  -- Where the database of the metadata opens empty and none of the three storage processes holds an
  -- entry, the control process, started on the words of any number of lines of the script and "quit"
  -- behind them, ends, and each number of a line then has the value "1". The buffers have their full
  -- size, malloc gives the array of connections twelve bytes, and each loop may take more than three
  -- rounds and more than there are lines.
  pub control_main-put_words :
      (share : Share) (rounds : ℕ) (room : ℕ → ℕ) (first second third : Bytes)
      (at : Bytes × ℕ → StoreImpl Db) (db : Db) (lines : ℕ)
      → 3 < rounds
      → lines < rounds
      → 12 ≤ room 3
      → length first ≡ max_line
      → length second ≡ max_line
      → length third ≡ max_line
      → r.open_db (codes "control_meta") ≡ some db
      → IsRocks.rows laws db ≡ []
      → All (λ (location : Bytes × ℕ). Holds r laws (at location) [] []) store_locations
      → (c : ControlImpl Db) × (shards : List Shard) × (control_main r share rounds room
            (first, second, third)
            at
            (put_words lines 0 ++ (quit_word ∷ []))
          ≡ some (c, []))
        × IsCluster r laws shards c
        × ((n : ℕ) → n < lines → value_at (to_string n) shards ≡ some (to_string 1))
  control_main-put_words share rounds room first second third at db lines three enough wide full
        full2 full3 opens empty hold =
      let names : (n : ℕ) → IsText (to_string n) × (to_string n ≢ []) =
        λ n. (number-IsText n, number-not_nil n) in
      let (c, shards, e, h, values) =
        control_main-IsCluster r laws share rounds room first second third at db (script lines 0)
          three (omega (arith, enough, length-puts to_string (to_string 1) lines 0)) wide full full2
          full3 opens empty hold
          (puts-IsTyped to_string (to_string 1) names (number-IsText 1) lines 0) in
      (
        c,
        shards,
        ap (control_main r share rounds room (first, second, third) at) (put_words-session lines 0)
            ∙ e
            ∙ ap (λ (l : List Bytes). some (c, l))
                (told-puts to_string (to_string 1) lines 0 (λ k. none)),
        h,
        λ n small.
            values (to_string n)
            ∙ replay-puts to_string (to_string 1) lines 0 n (λ k. none) (omega arith)
                (omega (arith, small)),
      )
