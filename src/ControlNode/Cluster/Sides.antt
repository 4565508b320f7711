-- ===== src/ControlNode/Cluster/Sides.antt =====
-- The two directions of the balancing between processes beside each other.
use distributed_rocks_db_tes.Prelude.{
  ℕ, suc, ◌+◌, ◌≡◌, refl, sym, ap, ◌∙◌, false, List, [], ◌∷◌, ◌++◌, length, arith, ◌≤◌, leb,
  length-append, subst, append_assoc,
}
use distributed_rocks_db_tes.Prelude.Bytes.{Bytes}
use distributed_rocks_db_tes.Rocks.{Rocks, IsRocks}
use distributed_rocks_db_tes.Rocks.Entries.{Entry, Rows, erase, insert}
use distributed_rocks_db_tes.ControlNode.ControlImpl.{ControlImpl, get_max_store, get_min_store}
use distributed_rocks_db_tes.ControlNode.ControlImpl.Requests.{OnlyNode, Reaches}
use distributed_rocks_db_tes.ControlNode.ControlImpl.Ends.{
  get_max_store-Reaches, get_min_store-Reaches,
}
use distributed_rocks_db_tes.ControlNode.Cluster.{Shard, value_at, IsShard, IsCluster}
use distributed_rocks_db_tes.ControlNode.Cluster.Shards.{
  All-here, node_at-here, ordered-before, ordered-after,
}
use distributed_rocks_db_tes.ControlNode.Cluster.Changed.{changed-IsCluster}
use distributed_rocks_db_tes.ControlNode.Cluster.Announced.{announced}
use distributed_rocks_db_tes.ControlNode.Cluster.Pairs.{node_at-second}
use distributed_rocks_db_tes.ControlNode.Cluster.Leaving.{shorter, last-IsHeld, moved_values}
use distributed_rocks_db_tes.ControlNode.Cluster.Balancing.{round, leaving}
use distributed_rocks_db_tes.ControlNode.Cluster.Yielding.{
  shorter_down, first-IsHeld, moved_down_values,
}
use distributed_rocks_db_tes.ControlNode.Cluster.Descending.{round_down, yielding}
use distributed_rocks_db_tes.ControlNode.Cluster.Counts.{IsSame, length-insert, entries-append}
use distributed_rocks_db_tes.ControlNode.Cluster.Relieving.{Turned, IsSide}

pub plus_one : (n : ℕ) → n + 1 ≡ suc n
plus_one n = omega arith

two_last :
    (rows : Rows)
    → leb (length rows) 1 ≡ false
    → (x : Entry) × (xs : Rows) × (e : Entry) × (rows ≡ x ∷ (xs ++ (e ∷ [])))
two_last [] h = absurd cc
two_last (x ∷ []) h = absurd cc
two_last (x ∷ (y ∷ [])) h = (x, [], y, refl)
two_last (x ∷ (y ∷ (z ∷ rows))) h =
    let (w, xs, e, p) = two_last (y ∷ (z ∷ rows)) (ground arith) in
    (x, w ∷ xs, e, ap (λ (l : Rows). x ∷ l) p)

two_first :
    (rows : Rows)
    → leb (length rows) 1 ≡ false
    → (e : Entry) × (y : Entry) × (ys : Rows) × (rows ≡ e ∷ (y ∷ ys))
two_first [] h = absurd cc
two_first (x ∷ []) h = absurd cc
two_first (x ∷ (y ∷ rows)) h = (x, y, rows, refl)

-- One entry passed between two processes.
passed-IsSame :
    (before : List Shard) (s t s' t' : Shard) (after : List Shard)
    → length s'.stored + length t'.stored ≤ length s.stored + length t.stored
    → ((k : Bytes)
        → value_at k (before ++ (s' ∷ (t' ∷ after))) ≡ value_at k (before ++ (s ∷ (t ∷ after))))
    → IsSame (before ++ (s ∷ (t ∷ after))) (before ++ (s' ∷ (t' ∷ after)))
passed-IsSame before s t s' t' after sum values = record {
  same_count =
      omega
        (arith, length-append before (s ∷ (t ∷ after)), length-append before (s' ∷ (t' ∷ after)));
  bounded = omega (
    arith,
    sum,
    entries-append before (s ∷ (t ∷ after)),
    entries-append before (s' ∷ (t' ∷ after)),
  );
  same_values = values;
}

module _ {Db Iterator : Type 0} (r : Rocks Db Iterator) (laws : IsRocks r) where
  -- A question to a process leaves the processes as they were.
  pub asked-IsCluster :
      (before : List Shard) (s : Shard) (after : List Shard) {c c' : ControlImpl Db}
      → IsCluster r laws (before ++ (s ∷ after)) c
      → Reaches r laws c' (length before) s.stored []
      → OnlyNode (length before) c c'
      → IsCluster r laws (before ++ (s ∷ after)) c'
  asked-IsCluster before s after h g only =
      changed-IsCluster r laws before s s after h
        (ap (λ d. IsRocks.rows laws d.db) only.same_meta ∙ h.has_metas) g only.same_others
        (All-here IsShard before s after h.are_shards) (ordered-before before s after h.are_ordered)
        (ordered-after before s after h.are_ordered)

  module _ (before after : List Shard) where
    up_turns :
        (s t : Shard) (c : ControlImpl Db)
        → IsCluster r laws (before ++ (s ∷ (t ∷ after))) c
        → leb (length s.stored) 1 ≡ false
        → Turned r laws
            (get_max_store r)
            r.next
            (length before)
            (suc (length before))
            (λ s t. before ++ (s ∷ (t ∷ after)))
            s
            t
            c
    up_turns s t c h many =
        let (x, xs, e, split) = two_last s.stored many in
        let lv = leaving r laws before s t after x e xs h split in
        let k = last-IsHeld s t e lv in
        let there = h.reached (length before) s (node_at-here before s (t ∷ after)) in
        let (c1, e1, g1, only1) =
          get_max_store-Reaches r laws (x ∷ xs) e there split k.0.0 k.1.0
            (omega (arith, k.0.1, k.1.1)) in
        let h1 = asked-IsCluster before s (t ∷ after) h g1 only1 in
        let (c2, e2, h2) = round r laws before s t after x e xs h1 split in
        record {
          asked = c1;
          key = e.key;
          value = e.value;
          moved = c2;
          giver = announced (erase e.key s.stored) s;
          taker = announced (insert e.key e.value t.stored) t;
          picks = e1;
          moves = e2;
          is_cluster = h2;
          shorter = shorter s t e lv;
          same =
              passed-IsSame before s t (announced (erase e.key s.stored) s)
                (announced (insert e.key e.value t.stored) t) after
                (omega (arith, shorter s t e lv, length-insert e.key e.value t.stored))
                (λ j. moved_values s t e lv j after before);
        }

    pub up-IsSide :
        IsSide r laws
          (get_max_store r)
          r.next
          (length before)
          (suc (length before))
          (λ s t. before ++ (s ∷ (t ∷ after)))
    up-IsSide = record {
      reaches = λ s t c h. h.reached (length before) s (node_at-here before s (t ∷ after));
      stays = λ s t c c' h g only. asked-IsCluster before s (t ∷ after) h g only;
      turns = up_turns;
    }

    in_front : (t : Shard) (l : List Shard) → (before ++ (t ∷ [])) ++ l ≡ before ++ (t ∷ l)
    in_front t l = append_assoc before (t ∷ []) l

    length-front : (t : Shard) → length (before ++ (t ∷ [])) ≡ suc (length before)
    length-front t = length-append before (t ∷ []) ∙ plus_one (length before)

    down_reaches :
        (s t : Shard) (c : ControlImpl Db)
        → IsCluster r laws (before ++ (t ∷ (s ∷ after))) c
        → Reaches r laws c (suc (length before)) s.stored []
    down_reaches s t c h = h.reached (suc (length before)) s (node_at-second before t s t s after)

    down_stays :
        (s t : Shard) (c c' : ControlImpl Db)
        → IsCluster r laws (before ++ (t ∷ (s ∷ after))) c
        → Reaches r laws c' (suc (length before)) s.stored []
        → OnlyNode (suc (length before)) c c'
        → IsCluster r laws (before ++ (t ∷ (s ∷ after))) c'
    down_stays s t c c' h g only =
        subst (λ (l : List Shard). IsCluster r laws l c') (in_front t (s ∷ after))
          (asked-IsCluster (before ++ (t ∷ [])) s after
            (subst (λ (l : List Shard). IsCluster r laws l c) (sym (in_front t (s ∷ after))) h)
            (subst (λ (n : ℕ). Reaches r laws c' n s.stored []) (sym (length-front t)) g)
            (subst (λ (n : ℕ). OnlyNode n c c') (sym (length-front t)) only))

    down_turns :
        (s t : Shard) (c : ControlImpl Db)
        → IsCluster r laws (before ++ (t ∷ (s ∷ after))) c
        → leb (length s.stored) 1 ≡ false
        → Turned r laws
            (get_min_store r)
            r.prev
            (suc (length before))
            (length before)
            (λ s t. before ++ (t ∷ (s ∷ after)))
            s
            t
            c
    down_turns s t c h many =
        let (e, y, ys, split) = two_first s.stored many in
        let yd = yielding r laws before t s after e y ys h split in
        let k = first-IsHeld t s e yd in
        let (c1, e1, g1, only1) =
          get_min_store-Reaches r laws e (y ∷ ys) (down_reaches s t c h) split k.0.0 k.1.0
            (omega (arith, k.0.1, k.1.1)) in
        let h1 = down_stays s t c c1 h g1 only1 in
        let (c2, e2, h2) = round_down r laws before t s after e y ys h1 split in
        record {
          asked = c1;
          key = e.key;
          value = e.value;
          moved = c2;
          giver = announced (erase e.key s.stored) s;
          taker = announced (insert e.key e.value t.stored) t;
          picks = e1;
          moves = e2;
          is_cluster = h2;
          shorter = shorter_down t s e yd;
          same =
              passed-IsSame before t s (announced (insert e.key e.value t.stored) t)
                (announced (erase e.key s.stored) s) after
                (omega (arith, shorter_down t s e yd, length-insert e.key e.value t.stored))
                (λ j. moved_down_values t s e yd j after before);
        }

    pub down-IsSide :
        IsSide r laws
          (get_min_store r)
          r.prev
          (suc (length before))
          (length before)
          (λ s t. before ++ (t ∷ (s ∷ after)))
    down-IsSide = record { reaches = down_reaches; stays = down_stays; turns = down_turns }
