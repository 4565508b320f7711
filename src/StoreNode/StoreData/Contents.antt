-- ===== src/StoreNode/StoreData/Contents.antt =====
-- What a node's data returns after a change, and its smallest and largest entries.
use mathlib.Core.List.{reverse}
use distributed_rocks_db_tes.Prelude.{
  ◌≡◌, refl, sym, ap, ◌∙◌, subst, true, false, some, [], ◌∷◌, ◌++◌, if◌then◌else◌, All, arith, ◌⊎◌,
  inl, inr,
}
use distributed_rocks_db_tes.Prelude.Bytes.{
  Bytes, eq_bytes, eq_bytes_refl, eq_bytes_iff, lt_bytes, lt_bytes_irrefl, lt_bytes_trans,
}
use distributed_rocks_db_tes.Rocks.{Rocks, IsRocks}
use distributed_rocks_db_tes.Rocks.Entries.{
  Entry, Rows, off, on, rows_of, IsSorted, Above, lookup, first, last, is_on, lookup-insert,
  lookup-erase,
}
use distributed_rocks_db_tes.Rocks.Places.{AtMost, rows_of-last}
use distributed_rocks_db_tes.Rocks.Extremes.{last-before}
use distributed_rocks_db_tes.DbHandle
use distributed_rocks_db_tes.DbHandle.{value_or_empty}
use distributed_rocks_db_tes.DbHandle.Rows.{rows-put_handle, rows-delete_handle, get_handle}
use distributed_rocks_db_tes.StoreNode.StoreData.{
  Data, StoreData, get, put, delete_1, entry_at, get_max_key, get_min_key,
}

-- No key is below `k`.
abbrev pub AtLeast : Bytes → Rows → Type 0
AtLeast k = All (λ (e : Entry). lt_bytes e.key k ≡ false)

not-lt_of_lt : (a b : Bytes) → lt_bytes a b ≡ true → lt_bytes b a ≡ false
not-lt_of_lt a b h = ground (arith, lt_bytes_trans a b a, lt_bytes_irrefl a)

Above-AtLeast : (k : Bytes) (r : Rows) → Above k r → AtLeast k r
Above-AtLeast k [] h = tt
Above-AtLeast k (e ∷ r) h = (not-lt_of_lt k e.key h.0, Above-AtLeast k r h.1)

Above-last : (k : Bytes) (l : Rows) (f : Entry) → Above k (l ++ (f ∷ [])) → lt_bytes k f.key ≡ true
Above-last k [] f h = h.0
Above-last k (e ∷ l) f h = Above-last k l f h.1

last-AtMost : (l : Rows) (f : Entry) → IsSorted (l ++ (f ∷ [])) → AtMost f.key (l ++ (f ∷ []))
last-AtMost [] f h = (lt_bytes_irrefl f.key, tt)
last-AtMost (e ∷ l) f h = (not-lt_of_lt e.key f.key (Above-last e.key l f h.0), last-AtMost l f h.1)

lookup-last :
    (l : Rows) (f : Entry) → IsSorted (l ++ (f ∷ [])) → lookup f.key (l ++ (f ∷ [])) ≡ some f.value
unfolding lookup
lookup-last [] f h = rw (eq_bytes_refl f.key)
lookup-last (e ∷ l) f h = ground (
  arith,
  eq_bytes_iff f.key e.key,
  Above-last e.key l f h.0,
  lt_bytes_irrefl e.key,
  lookup-last l f h.1,
)

-- The stored entry with the largest key, in a pair.
abbrev pub IsMaxEntry : Rows → Bytes × Bytes → Type 0
IsMaxEntry all pair = (lookup pair.0 all ≡ some pair.1) × AtMost pair.0 all

abbrev pub IsMinEntry : Rows → Bytes × Bytes → Type 0
IsMinEntry all pair = (lookup pair.0 all ≡ some pair.1) × AtLeast pair.0 all

module _ {Db Iterator : Type 0} (r : Rocks Db Iterator) (laws : IsRocks r) where
  open laws use {rows, position}

  -- After a `put`, `get` returns the value for that key, and what it returned before for any other.
  pub get-put :
      (item : Data) (j : Bytes) (d : StoreData Db)
      → get r j (put r item d) ≡ (if eq_bytes j item.key then item.value else get r j d)
  unfolding get put
  get-put item j d =
      rw
        (
          get_handle r laws j (DbHandle.put r item.key item.value d.db_handle),
          get_handle r laws j d.db_handle,
          rows-put_handle r laws item.key item.value d.db_handle,
          lookup-insert item.key j item.value (rows d.db_handle.db),
        )
        (ground arith)

  -- After a `delete_1`, `get` returns the empty string for that key, and what it returned before for
  -- any other.
  pub get-delete_1 :
      (k j : Bytes) (d : StoreData Db)
      → get r j (delete_1 r k d) ≡ (if eq_bytes j k then [] else get r j d)
  unfolding get delete_1
  get-delete_1 k j d =
      rw
        (
          get_handle r laws j (DbHandle.delete_1 r k d.db_handle),
          get_handle r laws j d.db_handle,
          rows-delete_handle r laws k d.db_handle,
          lookup-erase k j (rows d.db_handle.db) (laws.rows-IsSorted d.db_handle.db),
        )
        (ground arith)

  module _ (key value : Bytes) where
    entry_at-on :
        (it : Iterator) (b : Rows) (e : Entry) (a : Rows)
        → position it ≡ on b e a
        → entry_at r it key value ≡ (e.key, e.value)
    unfolding entry_at is_on
    entry_at-on it b e a p =
        rw (laws.valid_lem it ∙ ap is_on p, laws.key_lem it b e a p, laws.value_lem it b e a p)

    entry_at-off :
        (it : Iterator) (s : Rows) → position it ≡ off s → entry_at r it key value ≡ (key, value)
    unfolding entry_at is_on
    entry_at-off it s p = rw (laws.valid_lem it ∙ ap is_on p)

    max_entry :
        (it : Iterator) (all : Rows)
        → IsSorted all
        → position it ≡ last all
        → ((all ≡ []) × (entry_at r it key value ≡ (key, value)))
          ⊎ IsMaxEntry all (entry_at r it key value)
    unfolding last rows_of
    max_entry it [] s p = inl (refl, entry_at-off it [] p)
    max_entry it (e ∷ l) s p =
        let (b, f, q, w) = last-before e l in
        let whole : reverse b ++ (f ∷ []) ≡ e ∷ l = sym (ap rows_of q) ∙ rows_of-last (e ∷ l) in
        inr (
          subst (IsMaxEntry (e ∷ l)) (sym (entry_at-on it b f [] (p ∙ q))) (
            subst (λ all. IsMaxEntry all (f.key, f.value)) whole
              (lookup-last (reverse b) f (rw whole s), last-AtMost (reverse b) f (rw whole s))))

    min_entry :
        (it : Iterator) (all : Rows)
        → IsSorted all
        → position it ≡ first all
        → ((all ≡ []) × (entry_at r it key value ≡ (key, value)))
          ⊎ IsMinEntry all (entry_at r it key value)
    unfolding first lookup
    min_entry it [] s p = inl (refl, entry_at-off it [] p)
    min_entry it (e ∷ l) s p = inr (
        subst (IsMinEntry (e ∷ l)) (sym (entry_at-on it [] e l p))
          (rw (eq_bytes_refl e.key), (lt_bytes_irrefl e.key, Above-AtLeast e.key l s.0)))

    -- `get_max_key` gives the entry with the largest key, and leaves the caller's strings where there
    -- is no entry.
    pub get_max_key_lem :
        (d : StoreData Db)
        → ((rows d.db_handle.db ≡ []) × (get_max_key r key value d ≡ (key, value)))
          ⊎ IsMaxEntry (rows d.db_handle.db) (get_max_key r key value d)
    unfolding get_max_key
    get_max_key_lem d =
        max_entry _ (rows d.db_handle.db) (laws.rows-IsSorted d.db_handle.db)
          (laws.position-seek_to_last _ ∙ ap last (laws.rows_of-new_iterator d.db_handle.db))

    -- `get_min_key` gives the entry with the smallest key, and leaves the caller's strings where there
    -- is no entry.
    pub get_min_key_lem :
        (d : StoreData Db)
        → ((rows d.db_handle.db ≡ []) × (get_min_key r key value d ≡ (key, value)))
          ⊎ IsMinEntry (rows d.db_handle.db) (get_min_key r key value d)
    unfolding get_min_key
    get_min_key_lem d =
        min_entry _ (rows d.db_handle.db) (laws.rows-IsSorted d.db_handle.db)
          (laws.position-seek_to_first _ ∙ ap first (laws.rows_of-new_iterator d.db_handle.db))
