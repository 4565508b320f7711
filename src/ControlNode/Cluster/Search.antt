-- ===== src/ControlNode/Cluster/Search.antt =====
-- The search of the metadata for a key stops at the process whose range has the key.
use mathlib.Core.List.{reverse}
use distributed_rocks_db_tes.Prelude.{
  ℕ, suc, ◌≡◌, refl, sym, ap, ◌∙◌, subst, true, false, some, List, [], ◌∷◌, ◌++◌, length, All,
  arith, ◌⊎◌, inl, inr, ◌<◌, ◌^◌, length-append, append-nil,
}
use distributed_rocks_db_tes.Prelude.Bytes.{Bytes, lt_bytes}
use distributed_rocks_db_tes.Rocks.{Rocks, IsRocks}
use distributed_rocks_db_tes.Rocks.Entries.{Entry, Rows, on, is_on, Above, IsSorted, rows_of}
use distributed_rocks_db_tes.DbHandle.Floor.{
  IsFloor, get_smaller_or_equal_but_as_large_as_possible-IsFloor,
}
use distributed_rocks_db_tes.ControlNode.ControlMeta.Codec.{IsStorable, of_slice-meta_bytes}
use distributed_rocks_db_tes.ControlNode.ControlImpl.{ControlImpl, find, meta_at}
use distributed_rocks_db_tes.ControlNode.Cluster.{
  Shard, meta_of, meta_row, metas, IsShard, IsCluster,
}
use distributed_rocks_db_tes.ControlNode.Cluster.Shards.{metas-split, All-here}

metas-lows :
    (k : Bytes) (i : ℕ) (ss : List Shard)
    → Above k (metas i ss)
    → All (λ (t : Shard). lt_bytes k t.low ≡ true) ss
metas-lows k i [] h = tt
metas-lows k i (s ∷ ss) h = (h.0, metas-lows k (suc i) ss h.1)

metas-nil : (i : ℕ) (ss : List Shard) → metas i ss ≡ [] → ss ≡ []
metas-nil i [] h = refl
metas-nil i (s ∷ ss) h = absurd cc

meta-IsStorable : (i : ℕ) (s : Shard) → IsShard s → i < 2 ^ 32 → IsStorable (meta_of i s)
meta-IsStorable i s h small = record {
  min_text = h.low_text.0;
  max_text = h.high_text.0;
  min_short = omega (arith, h.low_text.1);
  max_short = omega (arith, h.high_text.1);
  fd_int = small;
}

module _ {Db Iterator : Type 0} (r : Rocks Db Iterator) (laws : IsRocks r) where
  open laws use {rows, position}

  -- An iterator at the metadata of a process reads it.
  pub meta_at-row :
      (it : Iterator) (b a : Rows) (n : ℕ) (s : Shard)
      → position it ≡ on b (meta_row n s) a
      → IsShard s
      → n < 2 ^ 32
      → meta_at r it ≡ some (meta_of n s)
  unfolding meta_at is_on
  meta_at-row it b a n s p shard small =
      rw (laws.valid_lem it ∙ ap is_on p, laws.value_lem it b (meta_row n s) a p)
        (rw append-nil at (of_slice-meta_bytes (meta_of n s) [] (meta-IsStorable n s shard small)))

  -- Where the search for `key` stops: at process `s`, all after it having keys above `key`, and all
  -- before it keys below, there being none where `key` is below the range of `s`.
  pub record IsFound (key : Bytes) (c : ControlImpl Db) (shards : List Shard) : Type 0 where
    pub before : List Shard
    pub here : Shard
    pub after : List Shard
    pub whole : shards ≡ before ++ (here ∷ after)
    pub found : meta_at r (find r key c) ≡ some (meta_of (length before) here)
    pub behind : Rows
    pub ahead : Rows
    pub place : position (find r key c) ≡ on behind (meta_row (length before) here) ahead
    pub metas_behind : reverse behind ≡ metas 0 before
    pub metas_ahead : ahead ≡ metas (suc (length before)) after
    pub row_key : r.key (find r key c) ≡ here.low
    pub above : All (λ (t : Shard). lt_bytes key t.low ≡ true) after
    pub within : (before ≡ []) ⊎ (lt_bytes key here.low ≡ false)

  module _ (key : Bytes) {c : ControlImpl Db} {shards : List Shard}
      (h : IsCluster r laws shards c) where
    snapshot : rows_of (position (r.new_iterator c.meta_db.db)) ≡ metas 0 shards
    snapshot = laws.rows_of-new_iterator c.meta_db.db ∙ h.has_metas

    found_at :
        (b : Rows) (e : Entry) (a : Rows)
        → position (find r key c) ≡ on b e a
        → reverse b ++ (e ∷ a) ≡ metas 0 shards
        → Above key a
        → (b ≡ []) ⊎ (lt_bytes key e.key ≡ false)
        → IsFound key c shards
    found_at b e a p whole above within =
        let (before, s, after, n, m, q, u, w, z) = metas-split 0 shards (reverse b) e a whole in
        let shard : IsShard s =
          All-here IsShard before s after (subst (All IsShard) q h.are_shards) in
        let number : n ≡ length before = omega (arith, m) in
        let small : n < 2 ^ 32 =
          omega (arith, h.few, ap length q, length-append before (s ∷ after), m) in
        record {
          before = before;
          here = s;
          after = after;
          whole = q;
          found =
              meta_at-row (find r key c) b a (length before) s
                (p ∙ ap (λ (x : Entry). on b x a) (u ∙ ap (λ (i : ℕ). meta_row i s) number)) shard
                (omega (arith, small, number));
          behind = b;
          ahead = a;
          place = p ∙ ap (λ (x : Entry). on b x a) (u ∙ ap (λ (i : ℕ). meta_row i s) number);
          metas_behind = w;
          metas_ahead = z ∙ ap (λ (i : ℕ). metas (suc i) after) number;
          row_key = laws.key_lem (find r key c) b e a p ∙ ap (λ (x : Entry). x.key) u;
          above = metas-lows key (suc n) after (subst (Above key) z above);
          within = elim within [
            | inl none ↦ inl (metas-nil 0 before (sym w ∙ ap reverse none))
            | inr below ↦ inr (ap (λ (x : Entry). lt_bytes key x.key) (sym u) ∙ below)
          ];
        }

    -- The search succeeds.
    pub find-IsFound : IsFound key c shards
    unfolding find
    find-IsFound =
        elim (get_smaller_or_equal_but_as_large_as_possible-IsFloor r laws key
          (r.new_iterator c.meta_db.db)
          (subst IsSorted (sym (laws.rows_of-new_iterator c.meta_db.db))
            (laws.rows-IsSorted c.meta_db.db))) [
              | IsFloor.at b e a p whole below above f ↦
                  found_at b e a p (whole ∙ snapshot) above (inr below)
              | IsFloor.below_all e a p whole above f ↦
                  found_at [] e a p (whole ∙ snapshot) above.1 (inl refl)
              | IsFloor.nowhere p none f ↦
                  absurd (h.not_empty (metas-nil 0 shards (sym snapshot ∙ none)))
            ]
