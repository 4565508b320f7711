-- ===== src/Rocks/Extremes.antt =====
-- The smallest and the largest key of a database, empty if there is none, and how an insertion and a
-- deletion change them.
use distributed_rocks_db_tes.Prelude.{
  ◌≡◌, refl, sym, subst, true, false, [], ◌∷◌, if◌then◌else◌, arith, Bool-cases, inl, inr,
}
use distributed_rocks_db_tes.Prelude.Bytes.{
  Bytes, eq_bytes, lt_bytes, min_bytes, max_bytes, eq_bytes_iff, lt_bytes_irrefl, lt_bytes_trans,
}
use distributed_rocks_db_tes.Rocks.Entries.{
  Entry, Rows, Position, off, on, Above, IsSorted, insert, erase, first, last, last_from, next,
  prev, lt_bytes-flip,
}

unfoldable pub min_key_of : Rows → Bytes
min_key_of [] = []
min_key_of (e ∷ r) = e.key

-- The last key, or `k` if there is none.
abbrev pub max_from : Bytes → Rows → Bytes
max_from k [] = k
max_from k (e ∷ r) = max_from e.key r

unfoldable pub max_key_of : Rows → Bytes
max_key_of rows = max_from [] rows

-- The key before the last of `k` and what follows it, or `j` if there is none.
abbrev pub before_last : Bytes → Bytes → Rows → Bytes
before_last j k [] = j
before_last j k (e ∷ r) = before_last k e.key r

-- The key where an iterator stands.
unfoldable pub key_at : Position → Bytes
key_at (off rows) = []
key_at (on b e a) = e.key

pub key_at-first : (rows : Rows) → key_at (first rows) ≡ min_key_of rows
unfolding key_at first min_key_of
key_at-first [] = refl
key_at-first (e ∷ r) = refl

key_at-last_from : (b : Rows) (e : Entry) (r : Rows) → key_at (last_from b e r) ≡ max_from e.key r
unfolding key_at last_from
key_at-last_from b e [] = refl
key_at-last_from b e (f ∷ r) = key_at-last_from (e ∷ b) f r

pub key_at-last : (rows : Rows) → key_at (last rows) ≡ max_key_of rows
unfolding last max_key_of
key_at-last [] = unfold key_at in refl
key_at-last (e ∷ r) = key_at-last_from [] e r

pub key_at-next : (b : Rows) (e : Entry) (a : Rows) → key_at (next b e a) ≡ min_key_of a
unfolding key_at next min_key_of
key_at-next b e [] = refl
key_at-next b e (f ∷ a) = refl

pub key_at-prev : (b : Rows) (e : Entry) (a : Rows) → key_at (prev b e a) ≡ min_key_of b
unfolding key_at prev min_key_of
key_at-prev [] e a = refl
key_at-prev (f ∷ b) e a = refl

not-eq_of_lt : (a b : Bytes) → lt_bytes a b ≡ true → eq_bytes a b ≡ false
not-eq_of_lt a b h = ground (arith, eq_bytes_iff a b, lt_bytes_irrefl a, lt_bytes_irrefl b)

lt-max_from :
    (j k : Bytes) (r : Rows)
    → lt_bytes j k ≡ true
    → Above k r
    → IsSorted r
    → lt_bytes j (max_from k r) ≡ true
lt-max_from j k [] h a s = h
lt-max_from j k (e ∷ r) h a s = lt-max_from j e.key r (lt_bytes_trans j k e.key h a.0) s.0 s.1

max_bytes-max_from :
    (k : Bytes) (r : Rows) → Above k r → IsSorted r → max_bytes k (max_from k r) ≡ max_from k r
unfolding max_bytes
max_bytes-max_from k [] a s = rw (lt_bytes_irrefl k)
max_bytes-max_from k (e ∷ r) a s = rw (lt-max_from k e.key r a.0 s.0 s.1)

pub min_key_of-insert :
    (k v : Bytes) (e : Entry) (r : Rows) → min_key_of (insert k v (e ∷ r)) ≡ min_bytes e.key k
unfolding min_key_of insert min_bytes
min_key_of-insert k v e r = ground (arith, eq_bytes_iff k e.key)

max_insert_cons :
    (k v : Bytes) (e : Entry) (r : Rows)
    → IsSorted (e ∷ r)
    → (lt_bytes e.key k ≡ true → max_from e.key (insert k v r) ≡ max_bytes k (max_from e.key r))
    → (j : Bytes) → max_from j (insert k v (e ∷ r)) ≡ max_bytes k (max_from e.key r)
unfolding insert max_bytes
max_insert_cons k v e r s further j = elim (Bool-cases (lt_bytes k e.key)) [
  | inl below ↦ rw (below, lt-max_from k e.key r below s.0 s.1)
  | inr above ↦ elim (Bool-cases (eq_bytes k e.key)) [
    | inl same ↦
        let p : k ≡ e.key = (eq_bytes_iff k e.key).0 same in
        rw (above, same)
          (subst (λ x. max_from x r ≡ max_bytes x (max_from e.key r)) (sym p)
            (sym (max_bytes-max_from e.key r s.0 s.1)))
    | inr other ↦ rw (above, other) (further (lt_bytes-flip k e.key above other))
  ]
]

max_from-insert :
    (j k v : Bytes) (r : Rows)
    → lt_bytes j k ≡ true
    → IsSorted r
    → max_from j (insert k v r) ≡ max_bytes k (max_from j r)
max_from-insert j k v [] h s =
    unfold insert max_bytes in ground (arith, lt_bytes_trans j k j, lt_bytes_irrefl j)
max_from-insert j k v (e ∷ r) h s =
    max_insert_cons k v e r s (λ below. max_from-insert e.key k v r below s.1) j

pub max_key_of-insert :
    (k v : Bytes) (e : Entry) (r : Rows)
    → IsSorted (e ∷ r)
    → max_key_of (insert k v (e ∷ r)) ≡ max_bytes k (max_key_of (e ∷ r))
unfolding max_key_of
max_key_of-insert k v e r s =
    max_insert_cons k v e r s (λ below. max_from-insert e.key k v r below s.1) []

pub min_key_of-erase :
    (k : Bytes) (e : Entry) (r : Rows)
    → min_key_of (erase k (e ∷ r)) ≡ (if eq_bytes k e.key then min_key_of r else e.key)
unfolding min_key_of erase
min_key_of-erase k e r = ground arith

max_from-erase :
    (j k : Bytes) (e : Entry) (r : Rows)
    → IsSorted (e ∷ r)
    → max_from j (erase k (e ∷ r))
      ≡ (if eq_bytes k (max_from e.key r) then before_last j e.key r else max_from e.key r)
unfolding erase
max_from-erase j k e [] s = ground arith
max_from-erase j k e (f ∷ r) s = elim (Bool-cases (eq_bytes k e.key)) [
  | inl same ↦
      let p : k ≡ e.key = (eq_bytes_iff k e.key).0 same in
      let q : lt_bytes k (max_from f.key r) ≡ true =
        subst (λ x. lt_bytes x (max_from f.key r) ≡ true) (sym p)
          (lt-max_from e.key f.key r s.0.0 s.1.0 s.1.1) in
      rw (same, not-eq_of_lt k (max_from f.key r) q)
  | inr other ↦ rw other (max_from-erase e.key k f r s.1)
]

pub max_key_of-erase :
    (k : Bytes) (e : Entry) (r : Rows)
    → IsSorted (e ∷ r)
    → max_key_of (erase k (e ∷ r))
      ≡ (if eq_bytes k (max_key_of (e ∷ r)) then before_last [] e.key r else max_key_of (e ∷ r))
unfolding max_key_of
max_key_of-erase k e r s = max_from-erase [] k e r s

-- The entries before the last, nearest first.
before_last_lem :
    (j : Bytes) (b : Rows) (e : Entry) (r : Rows)
    → min_key_of b ≡ j
    → (b' : Rows) × (f : Entry) × (last_from b e r ≡ on b' f [])
      × (min_key_of b' ≡ before_last j e.key r)
unfolding last_from
before_last_lem j b e [] h = (b, e, refl, h)
before_last_lem j b e (f ∷ r) h = before_last_lem e.key (e ∷ b) f r (unfold min_key_of in refl)

pub last-before :
    (e : Entry) (r : Rows)
    → (b : Rows) × (f : Entry) × (last (e ∷ r) ≡ on b f [])
      × (min_key_of b ≡ before_last [] e.key r)
unfolding last
last-before e r = before_last_lem [] [] e r (unfold min_key_of in refl)
