-- ===== src/ControlNode/ControlImpl/Rounds.antt =====
-- The parts of a round of the balancing of my_code/control_node/control_impl: the log messages, the
-- metadata and the commits.
use distributed_rocks_db_tes.Prelude.{
  ℕ, ◌+◌, ◌≡◌, ◌≢◌, refl, ◌∙◌, some, [], ◌∷◌, ◌++◌, arith, length, ◌≤◌, append_assoc, drop, true,
}
use distributed_rocks_db_tes.Prelude.Bytes.{Bytes, eq_bytes}
use distributed_rocks_db_tes.ConstValues.{ok_word, commit_log_word}
use distributed_rocks_db_tes.HandleBuff.{start_of, max_line, to_int}
use distributed_rocks_db_tes.HandleBuff.Writes.{str_bytes, length-str_bytes, insert_str-fits}
use distributed_rocks_db_tes.HandleBuff.RoundTrip.{NoNul, until_nul-NoNul, get_string-str_bytes}
use distributed_rocks_db_tes.Rocks.{Rocks, IsRocks}
use distributed_rocks_db_tes.Rocks.Entries.{Rows}
use distributed_rocks_db_tes.StoreNode.StoreLog
use distributed_rocks_db_tes.StoreNode.StoreLog.{Log}
use distributed_rocks_db_tes.StoreNode.StoreLog.Pending.{log_row}
use distributed_rocks_db_tes.StoreNode.StoreImpl.Commits.{apply_rows}
use distributed_rocks_db_tes.NetConnect.NetFile.{receive_from}
use distributed_rocks_db_tes.StoreNode.StoreImpl.Messages.{take-advance}
use distributed_rocks_db_tes.StoreNode.StoreImpl.Serves.{commit_message, range_of, step-commit}
use distributed_rocks_db_tes.StoreNode.StoreImpl.LogPhase.{Change, log_of, changed, IsSendable}
use distributed_rocks_db_tes.ControlNode.ControlMeta.{ControlMeta}
use distributed_rocks_db_tes.ControlNode.ControlMeta.Codec.{meta_size}
use distributed_rocks_db_tes.ControlNode.ControlImpl.{ControlImpl, meta_at, node_at}
use distributed_rocks_db_tes.ControlNode.ControlImpl.Requests.{
  OnlyNode, Reaches, talked, exchange-talked, talked-Reaches, talked-OnlyNode, heard,
  exchange-heard, heard-Reaches, heard-OnlyNode,
}
use distributed_rocks_db_tes.ControlNode.ControlImpl.Questions.{
  get_string-receive, get_string-receive_all,
}
use distributed_rocks_db_tes.ControlNode.ControlImpl.Changes.{ok_text, renewed, store_meta-renewed}
use distributed_rocks_db_tes.ControlNode.ControlImpl.Commands.{logged_lem, reply_to, reply_short}
use distributed_rocks_db_tes.ControlNode.ControlImpl.Balance.{
  replaced, log_on, bound_meta, commit_both,
}

-- The range that a change announces has no NUL.
abbrev pub HasText : Change → Rows → Type 0
HasText change stored =
    NoNul (range_of (changed change stored)).0 × NoNul (range_of (changed change stored)).1

-- Two states of the control process between which at most these two processes changed, and not the
-- metadata.
pub record OnlyNodes {Db : Type 0} (i j : ℕ) (c c' : ControlImpl Db) : Type 0 where
  pub same_meta : c'.meta_db ≡ c.meta_db
  pub same_others :
      (other : ℕ)
      → other ≢ i
      → other ≢ j
      → node_at other c'.virtual_fd_2_net_file ≡ node_at other c.virtual_fd_2_net_file

pub OnlyNodes-both :
    {Db : Type 0} {i j : ℕ} {c c1 c2 : ControlImpl Db}
    → OnlyNode i c c1
    → OnlyNode j c1 c2
    → OnlyNodes i j c c2
OnlyNodes-both one two = record {
  same_meta = two.same_meta ∙ one.same_meta;
  same_others = λ other not_i not_j. two.same_others other not_j ∙ one.same_others other not_i;
}

module _ {Db Iterator : Type 0} (r : Rocks Db Iterator) (laws : IsRocks r) where
  -- A node that is not the one asked is reached as before.
  pub Reaches-other :
      {c c' : ControlImpl Db} {i j : ℕ} {stored kept stored' kept' : Rows}
      → j ≢ i
      → OnlyNode i c c'
      → Reaches r laws c' i stored' kept'
      → Reaches r laws c j stored kept
      → Reaches r laws c' j stored kept
  Reaches-other {j = j} ne only g h = record {
    node = h.node;
    has_node = only.same_others j ne ∙ h.has_node;
    holds = h.holds;
    send_room = g.send_room;
    receive_room = g.receive_room;
  }

  pub log_on_lem :
      (change : Change) {c : ControlImpl Db} {virtual_fd : ℕ} {stored : Rows}
      → IsSendable change stored
      → HasText change stored
      → Reaches r laws c virtual_fd stored []
      → (c' : ControlImpl Db) × (log_on r (log_of change) virtual_fd c
          ≡ some (
            c',
            ok_word,
            (range_of (changed change stored)).0,
            (range_of (changed change stored)).1,
          ))
        × Reaches r laws c' virtual_fd stored (log_row (log_of change) ∷ [])
        × OnlyNode virtual_fd c c'
  unfolding log_on
  log_on_lem change {c} {virtual_fd} {stored} f text h =
      let low : Bytes = (range_of (changed change stored)).0 in
      let high : Bytes = (range_of (changed change stored)).1 in
      let old : Bytes = drop (length (reply_to r laws change stored)) c.receive_buff in
      let (c', e, g, only, answer) = logged_lem r laws change f h in
      (
        c',
        rw
            (
              e,
              answer,
              get_string-receive ok_word _ c.receive_buff ok_text (reply_short r laws change f),
              append_assoc (str_bytes low) (str_bytes high) old,
              get_string-str_bytes low (str_bytes high ++ old) (omega (arith, f.answer_fits)),
              get_string-str_bytes high old (omega (arith, f.answer_fits)),
              until_nul-NoNul low text.0,
              until_nul-NoNul high text.1,
            )
            refl,
        g,
        only,
      )

  pub bound_meta-renewed :
      (it : Iterator) (m : ControlMeta) (low high : Bytes) (c : ControlImpl Db)
      → meta_at r it ≡ some m
      → length c.receive_buff ≡ max_line
      → meta_size (replaced low high m) ≤ max_line
      → bound_meta r it low high c ≡ some (renewed r laws it (replaced low high m) c)
  unfolding bound_meta
  bound_meta-renewed it m low high c found full fits =
      rw found (store_meta-renewed r laws it (replaced low high m) c full fits)

  -- Both nodes have one entry in their logs, and commit it.
  pub commit_both_lem :
      (one two : Log) {c : ControlImpl Db} {i j : ℕ} {stored_i stored_j : Rows}
      → j ≢ i
      → i ≢ j
      → StoreLog.Codec.IsStorable one
      → StoreLog.Codec.IsStorable two
      → Reaches r laws c i stored_i (log_row one ∷ [])
      → Reaches r laws c j stored_j (log_row two ∷ [])
      → (c' : ControlImpl Db) × (commit_both r i j c ≡ some (c', true))
        × Reaches r laws c' i (apply_rows one.kind one.key one.value stored_i) []
        × Reaches r laws c' j (apply_rows two.kind two.key two.value stored_j) []
        × OnlyNodes i j c c'
  unfolding commit_both talked heard eq_bytes
  commit_both_lem one two {c} {i} {j} ne en a b h k =
      let reply : Bytes = str_bytes ok_word in
      let small : length commit_message ≤ max_line =
        omega (arith, length-str_bytes commit_log_word) in
      let short : length reply ≤ max_line = omega (arith, length-str_bytes ok_word) in
      let len : ℕ = to_int (0 + length commit_log_word + 5) in
      let (node_i, e, g) = step-commit r laws one a h.holds in
      let c1 : ControlImpl Db = talked r laws i commit_message node_i reply c in
      let h1 = talked-Reaches r laws h commit_message reply node_i small short g in
      let k1 = Reaches-other ne (talked-OnlyNode r laws i commit_message reply node_i c) h1 k in
      let (node_j, e', g') = step-commit r laws two b k1.holds in
      let c2 : ControlImpl Db = heard r laws j node_j reply c1 in
      let k2 = heard-Reaches r laws k1 reply node_j short g' in
      (
        c2,
        rw
            (
              insert_str-fits (start_of c.send_buff) commit_log_word 0 (omega arith)
                  (omega (arith, h.send_room)),
              exchange-talked r laws h commit_message reply node_i len
                  (omega (arith, length-str_bytes commit_log_word)) (omega arith) e,
              get_string-receive_all ok_word c.receive_buff ok_text (omega arith),
              exchange-heard r laws k1 commit_message reply node_j len
                  (take-advance commit_message c.send_buff len
                    (omega (arith, length-str_bytes commit_log_word)) (omega arith))
                  e',
              get_string-receive_all ok_word (receive_from reply c.receive_buff) ok_text
                  (omega arith),
            )
            refl,
        Reaches-other en (heard-OnlyNode r laws j reply node_j c1) k2 h1,
        k2,
        OnlyNodes-both (talked-OnlyNode r laws i commit_message reply node_i c)
            (heard-OnlyNode r laws j reply node_j c1),
      )
