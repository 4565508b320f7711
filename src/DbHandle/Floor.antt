-- ===== src/DbHandle/Floor.antt =====
-- Where `get_smaller_or_equal_but_as_large_as_possible` leaves the iterator, and that the lookup
-- through an iterator never finds its key.
use mathlib.Core.List.{reverse, reverse-cons, append_assoc}
use distributed_rocks_db_tes.Prelude.{
  leb, none, ◌≤◌, Bool-cases, ◌+◌, ◌^◌, ◌<◌, ◌≡◌, refl, sym, ap, ◌∙◌, subst, Bool, true, false,
  Option, some, [], ◌∷◌, ◌++◌, if◌then◌else◌, length, arith, length-append, ◌⊎◌, inl, inr,
}
use distributed_rocks_db_tes.Prelude.Bytes.{
  Bytes, eq_bytes, lt_bytes, eq_bytes_iff, lt_bytes_irrefl,
}
use distributed_rocks_db_tes.HandleBuff.Writes.{to_int_small, to_size_small, copy_all}
use distributed_rocks_db_tes.Rocks.{Rocks, IsRocks}
use distributed_rocks_db_tes.Rocks.Entries.{
  Entry, Rows, Position, off, on, rows_of, first, last, prev, is_on, Above, IsSorted, seek,
}
use distributed_rocks_db_tes.Rocks.Places.{AtMost, last_lem, seek-Splits, rows_of-seek_from}
use distributed_rocks_db_tes.DbHandle.{
  none, leb, DbHandle, get_iterator, get_iterator_str,
  get_smaller_or_equal_but_as_large_as_possible,
}

-- What the search for the largest key at or below `k` leaves, where it is one of three cases.
pub data IsFloor (k : Bytes) (rows : Rows) (p : Position) (found : Bool) : Type 0 where
  -- The entry is at or below `k`, and all after it are above.
  at :
      (b : Rows) (e : Entry) (a : Rows)
      → p ≡ on b e a
      → reverse b ++ (e ∷ a) ≡ rows
      → lt_bytes k e.key ≡ false
      → Above k a
      → found ≡ true
      → IsFloor k rows p found
  -- All are above `k`, and the first one is taken.
  below_all :
      (e : Entry) (a : Rows)
      → p ≡ on [] e a
      → e ∷ a ≡ rows
      → Above k (e ∷ a)
      → found ≡ false
      → IsFloor k rows p found
  -- There is none.
  nowhere : p ≡ off [] → rows ≡ [] → found ≡ true → IsFloor k rows p found

not-eq_of_lt : (a b : Bytes) → lt_bytes a b ≡ true → eq_bytes b a ≡ false
not-eq_of_lt a b h = ground (arith, eq_bytes_iff b a, lt_bytes_irrefl a, lt_bytes_irrefl b)

list_cases : (l : Rows) → (l ≡ []) ⊎ ((e : Entry) × (a : Rows) × (l ≡ e ∷ a))
list_cases [] = inl refl
list_cases (e ∷ a) = inr (e, a, refl)

module _ {Db Iterator : Type 0} (r : Rocks Db Iterator) (laws : IsRocks r) where
  open laws use {rows, position}

  valid_at : (it : Iterator) (p : Position) → position it ≡ p → r.valid it ≡ is_on p
  valid_at it p h = laws.valid_lem it ∙ ap is_on h

  abbrev floor : Bytes → Iterator → Iterator × Bool
  floor = get_smaller_or_equal_but_as_large_as_possible r

  module _ (k : Bytes) (it : Iterator) (all : Rows) (from : rows_of (position it) ≡ all) where
    abbrev sought : Iterator
    sought = r.seek (k ++ (0 ∷ [])) it

    position-sought : position sought ≡ seek (k ++ (0 ∷ [])) all
    position-sought = laws.position-seek _ it ∙ ap (seek (k ++ (0 ∷ []))) from

    last_of_all : position (r.seek_to_last sought) ≡ last all
    unfolding seek
    last_of_all =
        laws.position-seek_to_last sought
        ∙ ap last (ap rows_of position-sought ∙ rows_of-seek_from (k ++ (0 ∷ [])) [] all)

    -- Every key is at most `k`.
    IsFloor-end :
        (p : Position)
        → position (r.seek_to_last sought) ≡ p
        → p ≡ last all
        → AtMost k all
        → IsFloor k all p true
    IsFloor-end p h q m = elim (list_cases all) [
      | inl empty ↦ nowhere (q ∙ ap last empty ∙ unfold last in refl) empty refl
      | inr (e, a, full) ↦
          let (f, (b, x, y), z) =
            last_lem (λ d. lt_bytes k d.key ≡ false) e a (subst (AtMost k) full m) in
          at b f [] (q ∙ ap last full ∙ x) (y ∙ sym full) z tt refl
    ]

    floor_off :
        (s : Rows)
        → position sought ≡ off s
        → AtMost k all
        → IsFloor k all (position (floor k it).0) (floor k it).1
    unfolding get_smaller_or_equal_but_as_large_as_possible is_on
    floor_off s p m =
        rw (valid_at sought (off s) p, get_smaller_or_equal_but_as_large_as_possible)
          (IsFloor-end (position (r.seek_to_last sought)) refl last_of_all m)

    floor_on :
        (b : Rows) (e : Entry) (a : Rows)
        → position sought ≡ on b e a
        → AtMost k b
        → lt_bytes k e.key ≡ true
        → Above k a
        → reverse b ++ (e ∷ a) ≡ all
        → IsFloor k all (position (floor k it).0) (floor k it).1
    unfolding get_smaller_or_equal_but_as_large_as_possible is_on prev rows_of first
    floor_on [] e a p m u v q =
        let w : position (r.prev sought) ≡ off (e ∷ a) = laws.position-prev sought [] e a p in
        rw
          (
            valid_at sought (on [] e a) p,
            laws.key_lem sought [] e a p,
            not-eq_of_lt k e.key u,
            valid_at (r.prev sought) (off (e ∷ a)) w,
            get_smaller_or_equal_but_as_large_as_possible,
          )
          (below_all e a
            (laws.position-seek_to_first (r.prev sought)
              ∙ ap (λ (x : Position). first (rows_of x)) w)
            q (u, v) refl)
    floor_on (f ∷ b) e a p m u v q =
        let w : position (r.prev sought) ≡ on b f (e ∷ a) =
          laws.position-prev sought (f ∷ b) e a p in
        rw
          (
            valid_at sought (on (f ∷ b) e a) p,
            laws.key_lem sought (f ∷ b) e a p,
            not-eq_of_lt k e.key u,
            valid_at (r.prev sought) (on b f (e ∷ a)) w,
            get_smaller_or_equal_but_as_large_as_possible,
          )
          (at b f (e ∷ a) w (sym (append_assoc (reverse b) (f ∷ []) (e ∷ a)) ∙ rw reverse-cons at q)
            m.0 (u, v) refl)

  -- What the lookup of a string gives: false, where the seek to the string and its final NUL leaves no
  -- entry, or one whose key is longer than the string; undefined behaviour, where the key is not longer.
  abbrev pub LooksUp : Bytes → Position → Option (Iterator × Bool) → Type 0
  LooksUp key (off rest) ans = (it : Iterator) × (ans ≡ some (it, false))
  LooksUp key (on b e a) ans =
      ((length key < length e.key) × (it : Iterator) × (ans ≡ some (it, false)))
      ⊎ ((length e.key ≤ length key) × (ans ≡ none))

  looked :
      (key : Bytes) (it : Iterator) (p : Position)
      → position it ≡ p
      → LooksUp key p (elim (is_on p) [
        | true ↦
            if leb (length (key ++ (0 ∷ []))) (length (r.key it))
            then some (r.overwrite_key (key ++ (0 ∷ [])) it, false)
            else none
        | false ↦ some (it, false)
      ])
  unfolding is_on
  looked key it (off rest) place = (it, refl)
  looked key it (on b e a) place =
      let size = length-append key (0 ∷ []) in
      elim (Bool-cases (leb (length (key ++ (0 ∷ []))) (length e.key))) [
        | inl longer ↦ inl (
          ground (arith, longer, size),
          r.overwrite_key (key ++ (0 ∷ [])) it,
          rw (laws.key_lem it b e a place, longer) refl,
        )
        | inr short ↦
            inr (ground (arith, short, size), rw (laws.key_lem it b e a place, short) refl)
      ]

  looks_at :
      (key : Bytes) (h : DbHandle Db)
      → length key + 1 < 2 ^ 31
      → (p : Position) → position (r.seek (key ++ (0 ∷ [])) (r.new_iterator h.db)) ≡ p
      → LooksUp key p (get_iterator_str r key h)
  unfolding get_iterator_str get_iterator is_on
  looks_at key h small p place =
      let buf : Bytes = key ++ (0 ∷ []) in
      let size : length buf ≡ length key + 1 = length-append key (0 ∷ []) in
      let sought : Iterator = r.seek buf (r.new_iterator h.db) in
      rw
        (
          to_int_small (length key + 1) small,
          to_size_small (length key + 1) small,
          copy_all buf (length key + 1) size,
          valid_at sought p place,
        )
        (looked key sought p place)

  -- The lookup of a string through an iterator never reports that a key was found: the memcpy in its test
  -- is true of every pointer. It reports that none was, except where the first entry at or above the
  -- string and its final NUL has a key no longer than the string: there the memcpy writes past that key.
  pub get_iterator_str-not_found :
      (key : Bytes) (h : DbHandle Db)
      → length key + 1 < 2 ^ 31
      → LooksUp key (seek (key ++ (0 ∷ [])) (rows h.db)) (get_iterator_str r key h)
  get_iterator_str-not_found key h small =
      looks_at key h small (seek (key ++ (0 ∷ [])) (rows h.db)) (
        laws.position-seek (key ++ (0 ∷ [])) (r.new_iterator h.db)
        ∙ ap (seek (key ++ (0 ∷ []))) (laws.rows_of-new_iterator h.db))

  -- On the snapshot of an iterator in key order, the search stops at the largest key at or below
  -- `k` and returns true; or, where every key is above, at the first entry, with false; or, where
  -- there is no entry, nowhere, with true.
  pub get_smaller_or_equal_but_as_large_as_possible-IsFloor :
      (k : Bytes) (it : Iterator)
      → IsSorted (rows_of (position it))
      → IsFloor k
          (rows_of (position it))
          (position (get_smaller_or_equal_but_as_large_as_possible r k it).0)
          (get_smaller_or_equal_but_as_large_as_possible r k it).1
  get_smaller_or_equal_but_as_large_as_possible-IsFloor k it sorted =
      let all : Rows = rows_of (position it) in
      elim (seek-Splits k all sorted) [
        | inl (s, p, m) ↦ floor_off k it all refl s (position-sought k it all refl ∙ p) m
        | inr (b, e, a, p, m, u, v, q) ↦
            floor_on k it all refl b e a (position-sought k it all refl ∙ p) m u v q
      ]
