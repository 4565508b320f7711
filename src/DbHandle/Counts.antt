-- ===== src/DbHandle/Counts.antt =====
-- What the loops of my_code/db_handle compute: the number of entries, their size, and whether there
-- is at most one.
use mathlib.Core.List.{foldl}
use distributed_rocks_db_tes.Prelude.{
  ℕ, zero, suc, ◌+◌, ◌^◌, ◌≤◌, ◌<◌, ◌≡◌, refl, sym, ap, ◌∙◌, true, false, some, [], ◌∷◌, leb,
  length, arith, ◌⊎◌, inl, inr,
}
use distributed_rocks_db_tes.HandleBuff.{to_int}
use distributed_rocks_db_tes.Rocks.{Rocks, IsRocks}
use distributed_rocks_db_tes.Rocks.Entries.{Entry, Rows, Position, off, on, first, next, is_on}
use distributed_rocks_db_tes.DbHandle.{
  DbHandle, scan, get_num, get_size, add_entry_size, up_to_one, store_less_or_equal_one,
}

-- The entries from an iterator's place on.
unfoldable pub rest_of : Position → Rows
rest_of (off rows) = []
rest_of (on before e after) = e ∷ after

pub Position-cases :
    (p : Position)
    → ((rows : Rows) × (p ≡ off rows)) ⊎ ((b : Rows) × (e : Entry) × (a : Rows) × (p ≡ on b e a))
Position-cases (off rows) = inl (rows, refl)
Position-cases (on b e a) = inr (b, e, a, refl)

rest_of-first : (rows : Rows) → rest_of (first rows) ≡ rows
unfolding rest_of first
rest_of-first [] = refl
rest_of-first (e ∷ rows) = refl

rest_of-next : (b : Rows) (e : Entry) (a : Rows) → rest_of (next b e a) ≡ a
unfolding rest_of next
rest_of-next b e [] = refl
rest_of-next b e (f ∷ a) = refl

-- The bytes that the source counts for the entries: each key and each value with a final NUL.
unfoldable pub bytes_of : Rows → ℕ
bytes_of [] = 0
bytes_of (e ∷ rows) = length e.key + 1 + (length e.value + 1) + bytes_of rows

abbrev count_step : ℕ → Entry → ℕ
count_step ret e = to_int (ret + 1)

foldl-count : (s : ℕ) (l : Rows) → s < 2 ^ 32 → foldl count_step s l ≡ to_int (s + length l)
foldl-count s [] h = omega arith
foldl-count s (e ∷ l) h = omega (arith, foldl-count (to_int (s + 1)) l (omega arith))

abbrev size_step : ℕ → Entry → ℕ
size_step ret e = add_entry_size ret e.key e.value

foldl-size : (s : ℕ) (l : Rows) → s < 2 ^ 32 → foldl size_step s l ≡ to_int (s + bytes_of l)
unfolding bytes_of
foldl-size s [] h = omega arith
foldl-size s (e ∷ l) h = omega (arith, foldl-size (add_entry_size s e.key e.value) l (omega arith))

module _ {Db Iterator : Type 0} (r : Rocks Db Iterator) (laws : IsRocks r) where
  open laws use {rows, position}

  valid_on :
      (it : Iterator) (b : Rows) (e : Entry) (a : Rows) → position it ≡ on b e a → r.valid it ≡ true
  unfolding is_on
  valid_on it b e a h = laws.valid_lem it ∙ ap is_on h

  valid_off : (it : Iterator) (s : Rows) → position it ≡ off s → r.valid it ≡ false
  unfolding is_on
  valid_off it s h = laws.valid_lem it ∙ ap is_on h

  rest_of-start : (d : Db) → rest_of (position (r.seek_to_first (r.new_iterator d))) ≡ rows d
  rest_of-start d =
      rw (laws.position-seek_to_first (r.new_iterator d), laws.rows_of-new_iterator d)
        (rest_of-first (rows d))

  rest_of-step :
      (it : Iterator) (b : Rows) (e : Entry) (a : Rows)
      → position it ≡ on b e a
      → rest_of (position (r.next it)) ≡ a
  rest_of-step it b e a p = ap rest_of (laws.position-next it b e a p) ∙ rest_of-next b e a

  rest_of-off : (it : Iterator) (s : Rows) → position it ≡ off s → rest_of (position it) ≡ []
  unfolding rest_of
  rest_of-off it s p = ap rest_of p

  rest_of-on :
      (it : Iterator) (b : Rows) (e : Entry) (a : Rows)
      → position it ≡ on b e a
      → rest_of (position it) ≡ e ∷ a
  unfolding rest_of
  rest_of-on it b e a p = ap rest_of p

  scan_lem {ℓ} :
      {A : Type ℓ} (body : A → Iterator → A) (step : A → Entry → A)
      → ((s : A) (it : Iterator) (b : Rows) (e : Entry) (a : Rows)
          → position it ≡ on b e a
          → body s it ≡ step s e)
      → (fuel : ℕ) (it : Iterator) (s : A) (todo : Rows) → rest_of (position it) ≡ todo
      → length todo < fuel
      → scan r fuel body it s ≡ some (foldl step s todo)
  unfolding scan
  scan_lem body step agree zero it s todo e h = absurd (omega arith)
  scan_lem body step agree (suc fuel) it s todo t h = elim (Position-cases (position it)) [
    | inl (rows', p) ↦ rw (valid_off it rows' p, scan) (rw (← t, rest_of-off it rows' p))
    | inr (b, e, a, p) ↦
        rw (valid_on it b e a p, scan, agree s it b e a p)
          (scan_lem body step agree fuel (r.next it) (step s e) a (rest_of-step it b e a p)
              (omega (arith, ap (length {A = Entry}) (sym t ∙ rest_of-on it b e a p)))
            ∙ ap (λ (l : Rows). some (foldl step s l)) (sym (rest_of-on it b e a p) ∙ t))
  ]

  up_to_one_lem :
      (fuel : ℕ) (it : Iterator) (ret : ℕ) (todo : Rows)
      → rest_of (position it) ≡ todo
      → 3 ≤ fuel + ret
      → ret < 2
      → up_to_one r fuel it ret ≡ some (leb (ret + length todo) 1)
  unfolding up_to_one
  up_to_one_lem zero it ret todo t f h = absurd (omega arith)
  up_to_one_lem (suc fuel) it ret todo t f h = elim (Position-cases (position it)) [
    | inl (rows', p) ↦
        rw (valid_off it rows' p, up_to_one) (rw (← t, rest_of-off it rows' p) (ground arith))
    | inr (b, e, a, p) ↦
        let more : todo ≡ e ∷ a = sym t ∙ rest_of-on it b e a p in
        rw (valid_on it b e a p, up_to_one, more)
          (ground (arith, up_to_one_lem fuel (r.next it) (ret + 1) a (rest_of-step it b e a p)))
  ]

  module _ (h : DbHandle Db) where
    -- With more fuel than entries, `get_num` ends and returns the number of entries, as an int.
    pub get_num_lem :
        (fuel : ℕ)
        → length (rows h.db) < fuel
        → get_num r fuel h ≡ some (to_int (length (rows h.db)))
    unfolding get_num
    get_num_lem fuel enough =
        scan_lem _ count_step (λ s it b e a p. refl) fuel _ 0 _ (rest_of-start h.db) enough
        ∙ ap some (foldl-count 0 (rows h.db) (omega arith) ∙ omega arith)

    -- With more fuel than entries, `get_size` ends and returns the bytes of all keys and values, a
    -- final NUL counted with each, as an int.
    pub get_size_lem :
        (fuel : ℕ)
        → length (rows h.db) < fuel
        → get_size r fuel h ≡ some (to_int (bytes_of (rows h.db)))
    unfolding get_size
    get_size_lem fuel enough =
        scan_lem _ size_step
          (λ s it b e a p. rw (laws.key_lem it b e a p, laws.value_lem it b e a p)) fuel _ 0 _
          (rest_of-start h.db) enough
        ∙ ap some (foldl-size 0 (rows h.db) (omega arith) ∙ omega arith)

    -- `store_less_or_equal_one` always ends, and tells whether the database has at most one entry.
    pub store_less_or_equal_one_lem :
        store_less_or_equal_one r h ≡ some (leb (length (rows h.db)) 1)
    unfolding store_less_or_equal_one
    store_less_or_equal_one_lem =
        up_to_one_lem 3 _ 0 _ (rest_of-start h.db) (omega arith) (omega arith)
        ∙ ap (λ (n : ℕ). some (leb n 1)) (omega arith)
