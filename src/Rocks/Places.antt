-- ===== src/Rocks/Places.antt =====
-- Where `first`, `last` and `seek` stand, among the entries that they start from.
use mathlib.Core.List.{reverse, reverse-cons}
use distributed_rocks_db_tes.Prelude.{
  ◌≡◌, refl, sym, ◌∙◌, true, false, [], ◌∷◌, ◌++◌, All, append_assoc, append-nil, Bool-cases, inl,
  inr, ◌⊎◌,
}
use distributed_rocks_db_tes.Prelude.Bytes.{Bytes, lt_bytes, lt_bytes-nul}
use distributed_rocks_db_tes.Rocks.Entries.{
  Entry, Rows, Position, off, on, Above, Above-trans, IsSorted, rows_of, first, last, last_from,
  seek, seek_from,
}

-- No key is above `k`.
abbrev pub AtMost : Bytes → Rows → Type 0
AtMost k = All (λ (e : Entry). lt_bytes k e.key ≡ false)

-- The last entry of a list that is not empty, as a position.
abbrev pub IsLast : Rows → Position → Entry → Type 0
IsLast rows p e = (b : Rows) × (p ≡ on b e []) × (reverse b ++ (e ∷ []) ≡ rows)

last_from_lem :
    (P : Entry → Type 0) (before : Rows) (e : Entry) (r : Rows)
    → P e
    → All P r
    → (f : Entry) × IsLast (reverse before ++ (e ∷ r)) (last_from before e r) f × P f
unfolding last_from
last_from_lem P before e [] h hs = (e, (before, refl, refl), h)
last_from_lem P before e (f ∷ r) h hs =
    let (g, (b, p, s), q) = last_from_lem P (e ∷ before) f r hs.0 hs.1 in
    (g, (b, p, s ∙ rw reverse-cons (append_assoc (reverse before) (e ∷ []) (f ∷ r))), q)

pub last_lem :
    (P : Entry → Type 0) (e : Entry) (r : Rows)
    → All P (e ∷ r)
    → (f : Entry) × IsLast (e ∷ r) (last (e ∷ r)) f × P f
unfolding last
last_lem P e r h = last_from_lem P [] e r h.0 h.1

pub rows_of-first : (rows : Rows) → rows_of (first rows) ≡ rows
unfolding rows_of first
rows_of-first [] = refl
rows_of-first (e ∷ r) = refl

rows_of-last_from :
    (before : Rows) (e : Entry) (r : Rows)
    → rows_of (last_from before e r) ≡ reverse before ++ (e ∷ r)
unfolding rows_of last_from
rows_of-last_from before e [] = refl
rows_of-last_from before e (f ∷ r) =
    rows_of-last_from (e ∷ before) f r
    ∙ rw reverse-cons (append_assoc (reverse before) (e ∷ []) (f ∷ r))

pub rows_of-last : (rows : Rows) → rows_of (last rows) ≡ rows
unfolding rows_of last
rows_of-last [] = refl
rows_of-last (e ∷ r) = rows_of-last_from [] e r

pub rows_of-seek_from :
    (k : Bytes) (before rest : Rows) → rows_of (seek_from k before rest) ≡ reverse before ++ rest
unfolding rows_of seek_from
rows_of-seek_from k before [] = sym (append-nil (reverse before))
rows_of-seek_from k before (e ∷ rest) = elim (Bool-cases (lt_bytes e.key k)) [
  | inl below ↦ rw below (
      rows_of-seek_from k (e ∷ before) rest
      ∙ rw reverse-cons (append_assoc (reverse before) (e ∷ []) rest))
  | inr above ↦ rw above
]

-- The place of the first entry above `k`: nothing is above `k`, or one is, and all before it is not.
abbrev pub Splits : Bytes → Rows → Rows → Position → Type 0
Splits k before rest p =
    ((s : Rows) × (p ≡ off s) × AtMost k rest)
    ⊎ ((b : Rows) × (e : Entry) × (a : Rows) × (p ≡ on b e a)
        × AtMost k b
        × (lt_bytes k e.key ≡ true)
        × Above k a
        × (reverse b ++ (e ∷ a) ≡ reverse before ++ rest))

seek_from-Splits :
    (k : Bytes) (before rest : Rows)
    → IsSorted rest
    → AtMost k before
    → Splits k before rest (seek_from (k ++ (0 ∷ [])) before rest)
unfolding seek_from
seek_from-Splits k before [] h l = inl (_, refl, tt)
seek_from-Splits k before (e ∷ rest) h l = elim (Bool-cases (lt_bytes k e.key)) [
  | inl above ↦
      rw (lt_bytes-nul e.key k, above)
        (inr (before, e, rest, refl, l, above, Above-trans k e.key rest above h.0, refl))
  | inr below ↦
      rw (lt_bytes-nul e.key k, below)
        (elim (seek_from-Splits k (e ∷ before) rest h.1 (below, l)) [
          | inl (s, p, m) ↦ inl (s, p, (refl, m))
          | inr (b, f, a, p, m, u, v, q) ↦ inr (
            b,
            f,
            a,
            p,
            m,
            u,
            v,
            q ∙ rw reverse-cons (append_assoc (reverse before) (e ∷ []) rest),
          )
        ])
]

pub seek-Splits :
    (k : Bytes) (rows : Rows) → IsSorted rows → Splits k [] rows (seek (k ++ (0 ∷ [])) rows)
unfolding seek
seek-Splits k rows h = seek_from-Splits k [] rows h tt
