-- ===== src/ControlNode/Cluster/Fresh.antt =====
-- The processes as the constructor of control_impl finds them, each with a range of one digit and no
-- entries.
use distributed_rocks_db_tes.Prelude.{
  ℕ, zero, suc, ◌+◌, ◌≡◌, ◌≢◌, refl, sym, ap, ◌∙◌, subst, true, none, List, [], ◌∷◌, length, arith,
  ◌<◌, ◌≤◌, All, ◌/◌, ◌%◌,
}
use distributed_rocks_db_tes.Prelude.Bytes.{Bytes, lt_bytes}
use distributed_rocks_db_tes.Rocks.Entries.{lookup}
use distributed_rocks_db_tes.DbHandle.{to_string}
use distributed_rocks_db_tes.ControlNode.Cluster.{
  Shard, value_at, IsText, IsShard, IsBelow, AreOrdered,
}
use distributed_rocks_db_tes.ControlNode.Cluster.Counts.{entries}

one_digit : (n : ℕ) → n < 10 → to_string n ≡ (48 + n) ∷ []
one_digit n h =
    let none_left : n / 10 ≡ 0 = omega (arith, h) in
    let last : n % 10 ≡ n = omega (arith, h) in rw (none_left, last) refl

pub digit : (i : ℕ) → i < 9 → to_string (i + 1) ≡ (49 + i) ∷ []
digit i h = one_digit (i + 1) (omega (arith, h)) ∙ ap (λ (n : ℕ). n ∷ []) (omega arith)

abbrev pub fresh_shard : ℕ → Shard
fresh_shard i = record { low = to_string (i + 1); high = to_string (i + 1); stored = [] }

-- As many, from number `i` on.
abbrev pub fresh : ℕ → ℕ → List Shard
fresh i zero = []
fresh i (suc n) = fresh_shard i ∷ fresh (suc i) n

pub length-fresh : (i n : ℕ) → length (fresh i n) ≡ n
length-fresh i zero = refl
length-fresh i (suc n) = ap suc (length-fresh (suc i) n)

pub entries-fresh : (i n : ℕ) → entries (fresh i n) ≡ 0
entries-fresh i zero = refl
entries-fresh i (suc n) = omega (arith, entries-fresh (suc i) n)

pub value_at-fresh : (k : Bytes) (i n : ℕ) → value_at k (fresh i n) ≡ none
unfolding value_at lookup
value_at-fresh k i zero = refl
value_at-fresh k i (suc n) = value_at-fresh k (suc i) n

pub lt_bytes-digits :
    (i j : ℕ) → i < j → j < 9 → lt_bytes (to_string (i + 1)) (to_string (j + 1)) ≡ true
unfolding lt_bytes
lt_bytes-digits i j h small = rw (digit i (omega (arith, h, small)), digit j small) (ground arith)

digit-IsText : (i : ℕ) → i < 9 → IsText (to_string (i + 1))
digit-IsText i h = subst IsText (sym (digit i h)) (omega arith, omega arith)

pub fresh-IsShard : (i n : ℕ) → i + n ≤ 9 → All IsShard (fresh i n)
fresh-IsShard i zero h = tt
fresh-IsShard i (suc n) h =
    let text = digit-IsText i (omega (arith, h)) in
    (
      record { low_text = text; high_text = text; held = tt; capped = tt },
      fresh-IsShard (suc i) n (omega (arith, h)),
    )

fresh-IsBelow : (j i n : ℕ) → j < i → i + n ≤ 9 → All (IsBelow (fresh_shard j)) (fresh i n)
fresh-IsBelow j i zero h small = tt
fresh-IsBelow j i (suc n) h small = (
  (lt_bytes-digits j i h (omega (arith, small)), tt),
  fresh-IsBelow j (suc i) n (omega (arith, h)) (omega (arith, small)),
)

pub fresh-AreOrdered : (i n : ℕ) → i + n ≤ 9 → AreOrdered (fresh i n)
fresh-AreOrdered i zero h = tt
fresh-AreOrdered i (suc n) h = (
  fresh-IsBelow i (suc i) n (omega arith) (omega (arith, h)),
  fresh-AreOrdered (suc i) n (omega (arith, h)),
)

pub fresh-not_nil : (i n : ℕ) → n ≢ 0 → fresh i n ≢ []
fresh-not_nil i zero h p = h refl
fresh-not_nil i (suc n) h p = cc
