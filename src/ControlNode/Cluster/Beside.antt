-- ===== src/ControlNode/Cluster/Beside.antt =====
-- The search for a key that is in the range of a process, and the metadata of the processes beside it.
use mathlib.Core.List.{reverse, reverse-reverse, reverse-append}
use distributed_rocks_db_tes.ControlNode.Cluster.Changed.{metas-split_at}
use distributed_rocks_db_tes.Prelude.{
  ◌+◌, append_assoc, ℕ, suc, ◌≡◌, refl, sym, ap, ◌∙◌, subst, true, false, some, List, [], ◌∷◌, ◌++◌,
  length, All, arith, ◌⊎◌, inl, inr, ◌<◌, ◌^◌, length-append,
}
use distributed_rocks_db_tes.Prelude.Bytes.{Bytes, lt_bytes}
use distributed_rocks_db_tes.Rocks.{Rocks, IsRocks}
use distributed_rocks_db_tes.Rocks.Entries.{Entry, Rows, on, next, prev}
use distributed_rocks_db_tes.ControlNode.ControlImpl.{ControlImpl, find, meta_at}
use distributed_rocks_db_tes.ControlNode.Cluster.{
  Shard, meta_of, meta_row, metas, IsShard, IsCluster,
}
use distributed_rocks_db_tes.ControlNode.Cluster.Shards.{All-here}
use distributed_rocks_db_tes.ControlNode.Cluster.Neighbours.{All-after}
use distributed_rocks_db_tes.ControlNode.Cluster.Search.{find-IsFound, meta_at-row}

-- Two places in the processes where a search for the key may stop are one.
same_place :
    (key : Bytes) (b b' : List Shard) (s s' : Shard) (a a' : List Shard)
    → b ++ (s ∷ a) ≡ b' ++ (s' ∷ a')
    → lt_bytes key s.low ≡ false
    → All (λ (t : Shard). lt_bytes key t.low ≡ true) a
    → All (λ (t : Shard). lt_bytes key t.low ≡ true) a'
    → (b' ≡ []) ⊎ (lt_bytes key s'.low ≡ false)
    → (b ≡ b') × (s ≡ s') × (a ≡ a')
same_place key [] [] s s' a a' h n f g w = (refl, cc, cc)
same_place key [] (x ∷ b') s s' a a' h n f g (inl e) = absurd cc
same_place key [] (x ∷ b') s s' a a' h n f g (inr e) =
    let later : lt_bytes key s'.low ≡ true =
      All-here (λ (t : Shard). lt_bytes key t.low ≡ true) b' s' a'
        (subst (All (λ (t : Shard). lt_bytes key t.low ≡ true)) (cc) f) in
    absurd cc
same_place key (x ∷ b) [] s s' a a' h n f g w =
    let later : lt_bytes key s.low ≡ true =
      All-here (λ (t : Shard). lt_bytes key t.low ≡ true) b s a
        (subst (All (λ (t : Shard). lt_bytes key t.low ≡ true)) (cc) g) in
    absurd cc
same_place key (x ∷ b) (y ∷ b') s s' a a' h n f g (inl e) = absurd cc
same_place key (x ∷ b) (y ∷ b') s s' a a' h n f g (inr e) =
    let (p, q, u) = same_place key b b' s s' a a' (cc) n f g (inr e) in (cc, q, u)

module _ {Db Iterator : Type 0} (r : Rocks Db Iterator) (laws : IsRocks r) (key : Bytes)
    (before : List Shard) (s t : Shard) (after : List Shard) {c : ControlImpl Db}
    (h : IsCluster r laws (before ++ (s ∷ (t ∷ after))) c) (here : lt_bytes key s.low ≡ false)
    (above : All (λ (u : Shard). lt_bytes key u.low ≡ true) (t ∷ after)) where
  open laws use {position}

  -- The search stops at the process `s`, and a step forward is to `t`.
  pub find_pair :
      (meta_at r (find r key c) ≡ some (meta_of (length before) s))
      × (r.key (find r key c) ≡ s.low)
      × (meta_at r (r.next (find r key c)) ≡ some (meta_of (suc (length before)) t))
      × (r.key (r.next (find r key c)) ≡ t.low)
  unfolding next
  find_pair =
      let f = find-IsFound r laws key h in
      let (p, q, u) =
        same_place key before f.before s f.here (t ∷ after) f.after f.whole here above f.above
          f.within in
      let n : ℕ = length before in
      let place : position (find r key c) ≡ on f.behind (meta_row n s) (metas (suc n) (t ∷ after)) =
        f.place
        ∙ ap (λ (x : Entry). on f.behind x f.ahead)
            (ap (λ (l : List Shard). meta_row (length l) f.here) (sym p)
              ∙ ap (λ (x : Shard). meta_row n x) (sym q))
        ∙ ap (λ (x : Rows). on f.behind (meta_row n s) x)
            (f.metas_ahead
              ∙ ap (λ (l : List Shard). metas (suc (length l)) f.after) (sym p)
              ∙ ap (λ (l : List Shard). metas (suc n) l) (sym u)) in
      let beside : position (r.next (find r key c))
          ≡ on (meta_row n s ∷ f.behind) (meta_row (suc n) t) (metas (suc (suc n)) after) =
        laws.position-next (find r key c) f.behind (meta_row n s) (metas (suc n) (t ∷ after))
          place in
      let shard_s : IsShard s = All-here IsShard before s (t ∷ after) h.are_shards in
      let shard_t : IsShard t = (All-after IsShard before s (t ∷ after) h.are_shards).0 in
      let few : suc n < 2 ^ 32 = omega (arith, h.few, length-append before (s ∷ (t ∷ after))) in
      (
        meta_at-row r laws (find r key c) _ _ n s place shard_s (omega (arith, few)),
        laws.key_lem (find r key c) _ _ _ place,
        meta_at-row r laws (r.next (find r key c)) _ _ (suc n) t beside shard_t few,
        laws.key_lem (r.next (find r key c)) _ _ _ beside,
      )

plus_one : (n : ℕ) → n + 1 ≡ suc n
plus_one n = omega arith

-- The metadata before a place, where a process `t` is the last there.
behind_lem :
    (before : List Shard) (t : Shard) (b : Rows)
    → reverse b ≡ metas 0 (before ++ (t ∷ []))
    → (b' : Rows) × (b ≡ meta_row (length before) t ∷ b')
behind_lem before t b h = (
  reverse (metas 0 before),
  sym (reverse-reverse b)
      ∙ ap reverse (h ∙ metas-split_at before (t ∷ []))
      ∙ reverse-append (metas 0 before) (meta_row (length before) t ∷ []),
)

module _ {Db Iterator : Type 0} (r : Rocks Db Iterator) (laws : IsRocks r) (key : Bytes)
    (before : List Shard) (t s : Shard) (after : List Shard) {c : ControlImpl Db}
    (h : IsCluster r laws (before ++ (t ∷ (s ∷ after))) c) (here : lt_bytes key s.low ≡ false)
    (above : All (λ (u : Shard). lt_bytes key u.low ≡ true) after) where
  open laws use {position}

  -- The search stops at the process `s`, and a step back is to `t`.
  pub find_pair_down :
      (meta_at r (find r key c) ≡ some (meta_of (suc (length before)) s))
      × (r.key (find r key c) ≡ s.low)
      × (meta_at r (r.prev (find r key c)) ≡ some (meta_of (length before) t))
      × (r.key (r.prev (find r key c)) ≡ t.low)
  unfolding prev
  find_pair_down =
      let f = find-IsFound r laws key h in
      let n : ℕ = length before in
      let front : List Shard = before ++ (t ∷ []) in
      let (p, q, u) =
        same_place key front f.before s f.here after f.after
          (append_assoc before (t ∷ []) (s ∷ after) ∙ f.whole) here above f.above f.within in
      let size : length f.before ≡ suc n =
        sym (ap length p) ∙ length-append before (t ∷ []) ∙ plus_one n in
      let (b', w) = behind_lem before t f.behind (f.metas_behind ∙ ap (metas 0) (sym p)) in
      let place : position (find r key c) ≡ on (meta_row n t ∷ b') (meta_row (suc n) s) f.ahead =
        f.place
        ∙ ap (λ (x : Entry). on f.behind x f.ahead)
            (ap (λ (i : ℕ). meta_row i f.here) size
              ∙ ap (λ (x : Shard). meta_row (suc n) x) (sym q))
        ∙ ap (λ (x : Rows). on x (meta_row (suc n) s) f.ahead) w in
      let beside : position (r.prev (find r key c))
          ≡ on b' (meta_row n t) (meta_row (suc n) s ∷ f.ahead) =
        laws.position-prev (find r key c) (meta_row n t ∷ b') (meta_row (suc n) s) f.ahead place in
      let shard_t : IsShard t = All-here IsShard before t (s ∷ after) h.are_shards in
      let shard_s : IsShard s = (All-after IsShard before t (s ∷ after) h.are_shards).0 in
      let few : suc n < 2 ^ 32 = omega (arith, h.few, length-append before (t ∷ (s ∷ after))) in
      (
        meta_at-row r laws (find r key c) _ _ (suc n) s place shard_s few,
        laws.key_lem (find r key c) _ _ _ place,
        meta_at-row r laws (r.prev (find r key c)) _ _ n t beside shard_t (omega (arith, few)),
        laws.key_lem (r.prev (find r key c)) _ _ _ beside,
      )
