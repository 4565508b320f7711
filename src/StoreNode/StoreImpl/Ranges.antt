-- ===== src/StoreNode/StoreImpl/Ranges.antt =====
-- The range of keys that `log_log` announces is the one after the logged change.
use distributed_rocks_db_tes.Prelude.{
  ◌≡◌, ◌≢◌, refl, ap, ◌∙◌, Bool, true, false, [], ◌∷◌, if◌then◌else◌, All, inl, inr,
}
use distributed_rocks_db_tes.Prelude.Bytes.{
  Bytes, eq_bytes, lt_bytes_irrefl, min_bytes, max_bytes, is_empty,
}
use distributed_rocks_db_tes.Rocks.{Rocks, IsRocks}
use distributed_rocks_db_tes.Rocks.Entries.{
  Entry, Rows, Position, rows_of, rows_of-next, IsSorted, insert, erase, first, last, next, prev,
  is_on,
}
use distributed_rocks_db_tes.Rocks.Places.{rows_of-first, rows_of-last}
use distributed_rocks_db_tes.Rocks.Extremes.{
  min_key_of, max_key_of, key_at, key_at-first, key_at-last, key_at-next, key_at-prev, before_last,
  min_key_of-insert, max_key_of-insert, min_key_of-erase, max_key_of-erase, last-before,
}
use distributed_rocks_db_tes.DbHandle.Counts.{Position-cases}
use distributed_rocks_db_tes.StoreNode.StoreImpl.{key_or_empty, range_with, range_without}

pub not-is_empty : (k : Bytes) → k ≢ [] → is_empty k ≡ false
unfolding is_empty
not-is_empty [] h = absurd (h refl)
not-is_empty (x ∷ k) h = refl

not-eq_nil : (k : Bytes) → k ≢ [] → eq_bytes k [] ≡ false
unfolding eq_bytes
not-eq_nil [] h = absurd (h refl)
not-eq_nil (x ∷ k) h = refl

-- No key is empty.
abbrev pub HasKeys : Rows → Type 0
HasKeys = All (λ (e : Entry). e.key ≢ [])

module _ {Db Iterator : Type 0} (r : Rocks Db Iterator) (laws : IsRocks r) where
  open laws use {position}

  key_or_empty_lem : (it : Iterator) → key_or_empty r it ≡ key_at (position it)
  unfolding key_at is_on
  key_or_empty_lem it = elim (Position-cases (position it)) [
    | inl (rows, p) ↦ rw (laws.valid_lem it ∙ ap is_on p, p)
    | inr (b, e, a, p) ↦ rw (laws.valid_lem it ∙ ap is_on p, p) (laws.key_lem it b e a p)
  ]

  key_at-place : (it : Iterator) (p : Position) → position it ≡ p → key_or_empty r it ≡ key_at p
  key_at-place it p h = key_or_empty_lem it ∙ ap key_at h

  position-first :
      (it : Iterator) (all : Rows)
      → rows_of (position it) ≡ all
      → position (r.seek_to_first it) ≡ first all
  position-first it all h = laws.position-seek_to_first it ∙ ap first h

  position-last :
      (it : Iterator) (all : Rows)
      → rows_of (position it) ≡ all
      → position (r.seek_to_last it) ≡ last all
  position-last it all h = laws.position-seek_to_last it ∙ ap last h

  rows-first :
      (it : Iterator) (all : Rows)
      → rows_of (position it) ≡ all
      → rows_of (position (r.seek_to_first it)) ≡ all
  rows-first it all h = ap rows_of (position-first it all h) ∙ rows_of-first all

  rows-last :
      (it : Iterator) (all : Rows)
      → rows_of (position it) ≡ all
      → rows_of (position (r.seek_to_last it)) ≡ all
  rows-last it all h = ap rows_of (position-last it all h) ∙ rows_of-last all

  module _ (key : Bytes) (it : Iterator) where
    abbrev at_first : Iterator
    at_first = r.seek_to_first it

    abbrev at_last : Iterator
    at_last = r.seek_to_last at_first

    -- The iterator that steps from the first entry to the second.
    abbrev second : Iterator
    second = r.next (r.seek_to_first at_last)

    key-at_first :
        (all : Rows) → rows_of (position it) ≡ all → key_or_empty r at_first ≡ min_key_of all
    key-at_first all h =
        key_at-place at_first (first all) (position-first it all h) ∙ key_at-first all

    key-at_last :
        (all : Rows) → rows_of (position it) ≡ all → key_or_empty r at_last ≡ max_key_of all
    key-at_last all h =
        key_at-place at_last (last all) (position-last at_first all (rows-first it all h))
        ∙ key_at-last all

    -- With no empty key stored, the range that is announced for an insertion is that of the database
    -- with the key in it.
    pub range_with_lem :
        (value : Bytes) (all : Rows)
        → rows_of (position it) ≡ all
        → IsSorted all
        → HasKeys all
        → range_with r key it
          ≡ (min_key_of (insert key value all), max_key_of (insert key value all))
    unfolding range_with
    range_with_lem value [] h s k =
        rw (key-at_first [] h, key-at_last [] h)
          (unfold min_key_of max_key_of is_empty insert min_bytes max_bytes in
            rw (lt_bytes_irrefl key))
    range_with_lem value (e ∷ l) h s k =
        rw (key-at_first (e ∷ l) h, key-at_last (e ∷ l) h)
          (rw (min_key_of-insert key value e l, max_key_of-insert key value e l s)
            (unfold min_key_of in rw (not-is_empty e.key k.0)))

    key-second :
        (e : Entry) (l : Rows)
        → rows_of (position it) ≡ e ∷ l
        → key_or_empty r second ≡ min_key_of l
    unfolding first
    key-second e l h =
        key_at-place second (next [] e l) (
          laws.position-next (r.seek_to_first at_last) [] e l
            (position-first at_last (e ∷ l) (rows-last at_first (e ∷ l) (rows-first it (e ∷ l) h))))
        ∙ key_at-next [] e l

    key-second_last :
        (from : Iterator) (e : Entry) (l : Rows)
        → rows_of (position from) ≡ e ∷ l
        → key_or_empty r (r.prev (r.seek_to_last from)) ≡ before_last [] e.key l
    key-second_last from e l h =
        let (b, f, p, q) = last-before e l in
        key_at-place (r.prev (r.seek_to_last from)) (prev b f [])
          (laws.position-prev (r.seek_to_last from) b f [] (position-last from (e ∷ l) h ∙ p))
        ∙ key_at-prev b f []
        ∙ q

    rows-second :
        (e : Entry) (l : Rows) → rows_of (position it) ≡ e ∷ l → rows_of (position second) ≡ e ∷ l
    unfolding first
    rows-second e l h =
        ap rows_of (
          laws.position-next (r.seek_to_first at_last) [] e l
            (position-first at_last (e ∷ l) (rows-last at_first (e ∷ l) (rows-first it (e ∷ l) h))))
        ∙ rows_of-next [] e l

    rows-moved :
        (moved : Bool) (e : Entry) (l : Rows)
        → rows_of (position it) ≡ e ∷ l
        → rows_of (position (if moved then second else at_last)) ≡ e ∷ l
    rows-moved true e l h = rows-second e l h
    rows-moved false e l h = rows-last at_first (e ∷ l) (rows-first it (e ∷ l) h)

    -- For a key that is not empty, the range that is announced for a deletion is that of the database
    -- without the key, stored or not; both ends are empty where nothing is left.
    pub range_without_lem :
        (all : Rows)
        → rows_of (position it) ≡ all
        → IsSorted all
        → key ≢ []
        → range_without r key it ≡ (min_key_of (erase key all), max_key_of (erase key all))
    unfolding range_without
    range_without_lem [] h s k =
        rw (key-at_first [] h, key-at_last [] h)
          (unfold min_key_of max_key_of erase in rw (not-eq_nil key k))
    range_without_lem (e ∷ l) h s k =
        rw (key-at_first (e ∷ l) h, key-at_last (e ∷ l) h, key-second e l h)
          (rw
            (
              key-second_last (if eq_bytes key (min_key_of (e ∷ l)) then second else at_last) e l
                  (rows-moved (eq_bytes key (min_key_of (e ∷ l))) e l h),
              min_key_of-erase key e l,
              max_key_of-erase key e l s,
            )
            (unfold min_key_of in refl))
