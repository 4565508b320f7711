-- ===== src/ControlNode/ControlImpl/Moves.antt =====
-- One round of the balancing of my_code/control_node/control_impl, which moves an entry between nodes.
use distributed_rocks_db_tes.Rocks.Extremes.{min_key_of, max_key_of}
use distributed_rocks_db_tes.Prelude.{
  if◌then◌else◌, ℕ, ◌≡◌, ◌≢◌, refl, ap, ◌∙◌, some, [], ◌≤◌, true,
}
use distributed_rocks_db_tes.Prelude.Bytes.{is_empty, Bytes, eq_bytes}
use distributed_rocks_db_tes.HandleBuff.{max_line}
use distributed_rocks_db_tes.Rocks.{Rocks, IsRocks}
use distributed_rocks_db_tes.Rocks.Entries.{Rows, insert, erase}
use distributed_rocks_db_tes.StoreNode.StoreLog.Pending.{put_log, delete_log}
use distributed_rocks_db_tes.StoreNode.StoreImpl.Serves.{range_of}
use distributed_rocks_db_tes.StoreNode.StoreImpl.LogPhase.{insertion, deletion, IsSendable}
use distributed_rocks_db_tes.ControlNode.ControlMeta.{ControlMeta}
use distributed_rocks_db_tes.ControlNode.ControlMeta.Codec.{meta_size, meta_bytes}
use distributed_rocks_db_tes.ControlNode.ControlImpl.{ControlImpl, find, meta_at, node_at}
use distributed_rocks_db_tes.ControlNode.ControlImpl.Requests.{OnlyNode, Reaches}
use distributed_rocks_db_tes.ControlNode.ControlImpl.Changes.{
  renewed, renewed-Reaches, meta_rows, meta_rows-renewed,
}
use distributed_rocks_db_tes.ControlNode.ControlImpl.Balance.{move}
use distributed_rocks_db_tes.ControlNode.ControlImpl.Rounds.{
  HasText, Reaches-other, log_on_lem, bound_meta-renewed, commit_both_lem,
}

-- The metadata once a node announced the range of these entries.
abbrev pub bounded : Rows → ControlMeta → ControlMeta
bounded rows m = record {
  min_str = if is_empty (min_key_of rows) then m.min_str else min_key_of rows;
  max_str = if is_empty (max_key_of rows) then m.max_str else max_key_of rows;
  virtual_fd = m.virtual_fd;
}

module _ {Db Iterator : Type 0} (r : Rocks Db Iterator) (laws : IsRocks r) where
  -- What a round leaves besides the entries of two nodes: the metadata under two iterators replaced,
  -- the first before the second, and the other nodes as they were.
  pub record Moved (it beside : Iterator) (m n : ControlMeta) (i j : ℕ) (c c' : ControlImpl Db)
      : Type 0 where
    pub new_metas :
        meta_rows r laws c'
        ≡ insert n.min_str (meta_bytes n) (
            erase
              (r.key beside)
              (insert m.min_str (meta_bytes m) (erase (r.key it) (meta_rows r laws c))))
    pub same_others :
        (other : ℕ)
        → other ≢ i
        → other ≢ j
        → node_at other c'.virtual_fd_2_net_file ≡ node_at other c.virtual_fd_2_net_file

  find-OnlyNode :
      (key : Bytes) {i : ℕ} {c c' : ControlImpl Db} → OnlyNode i c c' → find r key c' ≡ find r key c
  unfolding find
  find-OnlyNode key only = rw only.same_meta refl

  module _ (along : Iterator → Iterator) (key value : Bytes) {c : ControlImpl Db} {i j : ℕ}
      {stored_i stored_j : Rows} where
    -- A round moves an entry, its key not empty, from a node to another, which has no empty key. Where
    -- both have empty logs, no string has a NUL, the messages and the metadata fit the buffers, and the
    -- search of the metadata for the key stops at an entry, with one beside it: the round succeeds,
    -- the first node has lost the key, the second has the entry, both logs are
    -- empty, the metadata of both is what they announced, and the other nodes are as they were.
    pub move-Reaches :
        (m n : ControlMeta)
        → j ≢ i
        → i ≢ j
        → Reaches r laws c i stored_i []
        → Reaches r laws c j stored_j []
        → IsSendable (deletion key) stored_i
        → HasText (deletion key) stored_i
        → IsSendable (insertion key value) stored_j
        → HasText (insertion key value) stored_j
        → meta_at r (find r key c) ≡ some m
        → meta_at r (along (find r key c)) ≡ some n
        → meta_size (bounded (erase key stored_i) m) ≤ max_line
        → meta_size (bounded (insert key value stored_j) n) ≤ max_line
        → (c' : ControlImpl Db) × (move r along i j key value c ≡ some (c', true))
          × Reaches r laws c' i (erase key stored_i) []
          × Reaches r laws c' j (insert key value stored_j) []
          × Moved
              (find r key c)
              (along (find r key c))
              (bounded (erase key stored_i) m)
              (bounded (insert key value stored_j) n)
              i
              j
              c
              c'
    unfolding move eq_bytes renewed
    move-Reaches m n ne en h k f text f' text' found beside fits fits' =
        let it : Iterator = find r key c in
        let m' : ControlMeta = bounded (erase key stored_i) m in
        let n' : ControlMeta = bounded (insert key value stored_j) n in
        let (c1, e1, h1, only1) = log_on_lem r laws (deletion key) f text h in
        let k1 = Reaches-other r laws ne only1 h1 k in
        let (c2, e2, k2, only2) = log_on_lem r laws (insertion key value) f' text' k1 in
        let h2 = Reaches-other r laws en only2 k2 h1 in
        let h4 = renewed-Reaches r laws it m' fits h2 in
        let k4 = renewed-Reaches r laws it m' fits k2 in
        let h5 = renewed-Reaches r laws (along it) n' fits' h4 in
        let k5 = renewed-Reaches r laws (along it) n' fits' k4 in
        let (c6, e6, h6, k6, only) =
          commit_both_lem r laws (delete_log key) (put_log key value) ne en f.storable f'.storable
            h5 k5 in
        (
          c6,
          rw
              (
                e1,
                e2,
                find-OnlyNode key only2,
                find-OnlyNode key only1,
                bound_meta-renewed r laws it m (range_of (erase key stored_i)).0
                    (range_of (erase key stored_i)).1 c2 found k2.receive_room fits,
                bound_meta-renewed r laws (along it) n (range_of (insert key value stored_j)).0
                    (range_of (insert key value stored_j)).1 (renewed r laws it m' c2) beside
                    k4.receive_room fits',
              )
              e6,
          h6,
          k6,
          record {
            new_metas =
                ap (λ d. IsRocks.rows laws d.db) only.same_meta
                ∙ meta_rows-renewed r laws (along it) n' (renewed r laws it m' c2)
                ∙ ap (λ (x : Rows). insert n'.min_str (meta_bytes n') (erase (r.key (along it)) x))
                    (meta_rows-renewed r laws it m' c2
                      ∙ ap
                          (λ d.
                            insert m'.min_str (meta_bytes m')
                              (erase (r.key it) (IsRocks.rows laws d.db)))
                          (only2.same_meta ∙ only1.same_meta));
            same_others = λ other not_i not_j.
                only.same_others other not_i not_j
                ∙ only2.same_others other not_j
                ∙ only1.same_others other not_i;
          },
        )
