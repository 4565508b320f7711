-- ===== src/Rocks/Entries.antt =====
-- The vocabulary in which RocksDB's documented behaviour is stated: entries in key order, the place
-- of an iterator among them, and the laws of both.
use mathlib.Core.List.{reverse, reverse-cons}
use distributed_rocks_db_tes.Prelude.{
  ◌≡◌, refl, sym, subst, Bool, true, false, Option, none, some, List, [], ◌∷◌, ◌++◌, if◌then◌else◌,
  All, arith, append_assoc, Bool-cases, inl, inr,
}
use distributed_rocks_db_tes.Prelude.Bytes.{
  Bytes, eq_bytes, lt_bytes, eq_bytes_iff, lt_bytes_irrefl, lt_bytes_trans, lt_bytes_total,
}

pub record Entry : Type 0 where
  pub key : Bytes
  pub value : Bytes

abbrev pub Rows : Type 0
Rows = List Entry

-- Every key is above `k`.
abbrev pub Above : Bytes → Rows → Type 0
Above k = All (λ (e : Entry). lt_bytes k e.key ≡ true)

-- Keys strictly increase.
abbrev pub IsSorted : Rows → Type 0
IsSorted [] = Unit {0}
IsSorted (e ∷ r) = Above e.key r × IsSorted r

unfoldable pub insert : Bytes → Bytes → Rows → Rows
insert k v [] = record { key = k; value = v } ∷ []
insert k v (e ∷ r) =
    if lt_bytes k e.key
    then record { key = k; value = v } ∷ e ∷ r
    else if eq_bytes k e.key
    then record { key = k; value = v } ∷ r
    else e ∷ insert k v r

unfoldable pub erase : Bytes → Rows → Rows
erase k [] = []
erase k (e ∷ r) = if eq_bytes k e.key then r else e ∷ erase k r

unfoldable pub lookup : Bytes → Rows → Option Bytes
lookup k [] = none
lookup k (e ∷ r) = if eq_bytes k e.key then some e.value else lookup k r

-- Off every entry of a snapshot, or on one: those before it, nearest first, and those after it.
pub data Position : Type 0 where
  off : Rows → Position
  on : Rows → Entry → Rows → Position

unfoldable pub rows_of : Position → Rows
rows_of (off rows) = rows
rows_of (on before e after) = reverse before ++ (e ∷ after)

unfoldable pub is_on : Position → Bool
is_on (off rows) = false
is_on (on before e after) = true

unfoldable pub first : Rows → Position
first [] = off []
first (e ∷ r) = on [] e r

unfoldable pub last_from : Rows → Entry → Rows → Position
last_from before e [] = on before e []
last_from before e (f ∷ r) = last_from (e ∷ before) f r

unfoldable pub last : Rows → Position
unfolding last_from
last [] = off []
last (e ∷ r) = last_from [] e r

unfoldable pub seek_from : Bytes → Rows → Rows → Position
seek_from k before [] = off (reverse before)
seek_from k before (e ∷ r) = if lt_bytes e.key k then seek_from k (e ∷ before) r else on before e r

-- The first entry at or above `k`.
unfoldable pub seek : Bytes → Rows → Position
unfolding seek_from
seek k rows = seek_from k [] rows

unfoldable pub next : Rows → Entry → Rows → Position
next before e [] = off (reverse before ++ (e ∷ []))
next before e (f ∷ after) = on (e ∷ before) f after

unfoldable pub prev : Rows → Entry → Rows → Position
prev [] e after = off (e ∷ after)
prev (f ∷ before) e after = on before f (e ∷ after)

-- Moving keeps the snapshot.
pub rows_of-next : (b : Rows) (e : Entry) (a : Rows) → rows_of (next b e a) ≡ reverse b ++ (e ∷ a)
unfolding rows_of next
rows_of-next b e [] = refl
rows_of-next b e (f ∷ a) = rw reverse-cons (append_assoc (reverse b) (e ∷ []) (f ∷ a))

pub rows_of-prev : (b : Rows) (e : Entry) (a : Rows) → rows_of (prev b e a) ≡ reverse b ++ (e ∷ a)
unfolding rows_of prev
rows_of-prev [] e a = refl
rows_of-prev (f ∷ b) e a = rw reverse-cons (sym (append_assoc (reverse b) (f ∷ []) (e ∷ a)))

pub Above-trans : (j k : Bytes) (r : Rows) → lt_bytes j k ≡ true → Above k r → Above j r
Above-trans j k [] h a = tt
Above-trans j k (e ∷ r) h a = (lt_bytes_trans j k e.key h a.0, Above-trans j k r h a.1)

Above-insert : (j k v : Bytes) (r : Rows) → lt_bytes j k ≡ true → Above j r → Above j (insert k v r)
unfolding insert
Above-insert j k v [] h a = (h, tt)
Above-insert j k v (e ∷ r) h a = ground (arith, Above-insert j k v r h)

pub lt_bytes-flip :
    (a b : Bytes) → lt_bytes a b ≡ false → eq_bytes a b ≡ false → lt_bytes b a ≡ true
lt_bytes-flip a b above other = ground (arith, lt_bytes_total a b, eq_bytes_iff a b)

pub insert-IsSorted : (k v : Bytes) (r : Rows) → IsSorted r → IsSorted (insert k v r)
unfolding insert
insert-IsSorted k v [] h = (tt, tt)
insert-IsSorted k v (e ∷ r) h = elim (Bool-cases (lt_bytes k e.key)) [
  | inl below ↦ rw below ((below, Above-trans k e.key r below h.0), h)
  | inr above ↦ rw above (elim (Bool-cases (eq_bytes k e.key)) [
    | inl same ↦ rw same (subst (λ j. Above j r) (sym ((eq_bytes_iff k e.key).0 same)) h.0, h.1)
    | inr other ↦ rw other (
      Above-insert e.key k v r (lt_bytes-flip k e.key above other) h.0,
      insert-IsSorted k v r h.1,
    )
  ])
]

Above-erase : (j k : Bytes) (r : Rows) → Above j r → Above j (erase k r)
unfolding erase
Above-erase j k [] a = tt
Above-erase j k (e ∷ r) a = ground (arith, Above-erase j k r)

pub erase-IsSorted : (k : Bytes) (r : Rows) → IsSorted r → IsSorted (erase k r)
unfolding erase
erase-IsSorted k [] h = tt
erase-IsSorted k (e ∷ r) h = ground (arith, erase-IsSorted k r, Above-erase e.key k r)

pub lookup-insert :
    (k j v : Bytes) (r : Rows)
    → lookup j (insert k v r) ≡ (if eq_bytes j k then some v else lookup j r)
unfolding lookup insert
lookup-insert k j v [] = refl
lookup-insert k j v (e ∷ r) =
    ground
      (arith, lookup-insert k j v r, eq_bytes_iff j k, eq_bytes_iff k e.key, eq_bytes_iff j e.key)

pub lookup-Above : (j : Bytes) (r : Rows) → Above j r → lookup j r ≡ none
unfolding lookup
lookup-Above j [] a = refl
lookup-Above j (e ∷ r) a =
    ground (arith, lookup-Above j r, eq_bytes_iff j e.key, lt_bytes_irrefl j, lt_bytes_irrefl e.key)

pub lookup-erase :
    (k j : Bytes) (r : Rows)
    → IsSorted r
    → lookup j (erase k r) ≡ (if eq_bytes j k then none else lookup j r)
unfolding lookup erase
lookup-erase k j [] h = ground arith
lookup-erase k j (e ∷ r) h = ground (
  arith,
  lookup-erase k j r,
  lookup-Above e.key r,
  eq_bytes_iff j k,
  eq_bytes_iff k e.key,
  eq_bytes_iff j e.key,
)
