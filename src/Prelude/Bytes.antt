-- ===== src/Prelude/Bytes.antt =====
-- Byte strings: std::string as the list of its bytes, its equality and its order (memcmp, the
-- shorter string first), which is also the order of a Slice under the default comparator.
use Prim.Native.Nat.{ℕ}
use mathlib.Core.Path.{◌≡◌, refl}
use mathlib.Core.Logic.{◌↔◌}
use mathlib.Core.Bool.{Bool, true, false, not, ◌&&◌}
use mathlib.Core.List.{List, [], ◌∷◌, ◌++◌}
use native.Mathlib.Omega.{arith}
use distributed_rocks_db_tes.Prelude.Tests.{◌==◌, ltb, if◌then◌else◌}
use Prim.Native.Char.{code}
use Prim.Native.String.{String}

abbrev pub Bytes : Type 0
Bytes = List ℕ

-- The bytes of a text of ASCII characters.
abbrev pub codes : String → Bytes
codes String.[] = []
codes (String.◌∷◌ c s) = code c ∷ codes s

unfoldable pub eq_bytes : Bytes → Bytes → Bool
eq_bytes [] [] = true
eq_bytes [] (y ∷ ys) = false
eq_bytes (x ∷ xs) [] = false
eq_bytes (x ∷ xs) (y ∷ ys) = x == y && eq_bytes xs ys

unfoldable pub lt_bytes : Bytes → Bytes → Bool
lt_bytes [] [] = false
lt_bytes [] (y ∷ ys) = true
lt_bytes (x ∷ xs) [] = false
lt_bytes (x ∷ xs) (y ∷ ys) = if ltb x y then true else x == y && lt_bytes xs ys

-- std::min and std::max: the first argument unless the other is strictly less or greater.
unfoldable pub min_bytes : Bytes → Bytes → Bytes
min_bytes a b = if lt_bytes b a then b else a

unfoldable pub max_bytes : Bytes → Bytes → Bytes
max_bytes a b = if lt_bytes a b then b else a

unfoldable pub is_empty : Bytes → Bool
is_empty [] = true
is_empty (x ∷ xs) = false

pub eq_bytes_iff : (a b : Bytes) → (eq_bytes a b ≡ true) ↔ (a ≡ b)
unfolding eq_bytes
eq_bytes_iff [] [] = ground arith
eq_bytes_iff [] (y ∷ ys) = ground arith
eq_bytes_iff (x ∷ xs) [] = ground arith
eq_bytes_iff (x ∷ xs) (y ∷ ys) = ground (arith, eq_bytes_iff xs ys)

pub eq_bytes_refl : (a : Bytes) → eq_bytes a a ≡ true
eq_bytes_refl a = (eq_bytes_iff a a).1 refl

pub lt_bytes_irrefl : (a : Bytes) → lt_bytes a a ≡ false
unfolding lt_bytes
lt_bytes_irrefl [] = refl
lt_bytes_irrefl (x ∷ xs) = ground (arith, lt_bytes_irrefl xs)

pub lt_bytes_trans :
    (a b c : Bytes) → lt_bytes a b ≡ true → lt_bytes b c ≡ true → lt_bytes a c ≡ true
unfolding lt_bytes
lt_bytes_trans a [] [] p q = cc
lt_bytes_trans a (y ∷ ys) [] p q = cc
lt_bytes_trans [] b (z ∷ zs) p q = refl
lt_bytes_trans (x ∷ xs) [] (z ∷ zs) p q = cc
lt_bytes_trans (x ∷ xs) (y ∷ ys) (z ∷ zs) p q = ground (arith, lt_bytes_trans xs ys zs)

pub lt_bytes_total : (a b : Bytes) → lt_bytes a b ≡ false → lt_bytes b a ≡ false → a ≡ b
unfolding lt_bytes
lt_bytes_total [] [] p q = refl
lt_bytes_total [] (y ∷ ys) p q = cc
lt_bytes_total (x ∷ xs) [] p q = cc
lt_bytes_total (x ∷ xs) (y ∷ ys) p q = ground (arith, lt_bytes_total xs ys)

lt_bytes-nil : (a : Bytes) → lt_bytes a [] ≡ false
unfolding lt_bytes
lt_bytes-nil [] = refl
lt_bytes-nil (x ∷ xs) = refl

-- No string lies between `k` and `k` with a NUL behind it.
pub lt_bytes-nul : (a k : Bytes) → lt_bytes a (k ++ 0 ∷ []) ≡ not (lt_bytes k a)
unfolding lt_bytes
lt_bytes-nul [] [] = refl
lt_bytes-nul (x ∷ xs) [] = ground (arith, lt_bytes-nil xs)
lt_bytes-nul [] (y ∷ ys) = refl
lt_bytes-nul (x ∷ xs) (y ∷ ys) = ground (arith, lt_bytes-nul xs ys)

pub ruleset bytes_laws = (eq_bytes_iff, lt_bytes_irrefl, lt_bytes_trans, lt_bytes_total)
