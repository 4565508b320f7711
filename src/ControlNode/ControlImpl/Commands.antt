-- ===== src/ControlNode/ControlImpl/Commands.antt =====
-- A put and a del of the control process up to the re-balancing: the log, the metadata, the commit.
use distributed_rocks_db_tes.Prelude.{
  if◌then◌else◌, Bool-cases, inl, inr, ℕ, ◌≡◌, ◌≢◌, refl, ap, ◌∙◌, some, [], ◌∷◌, ◌++◌, ◌>>=◌,
  arith, length, ◌≤◌, length-append, append_assoc, drop,
}
use distributed_rocks_db_tes.Prelude.Bytes.{
  is_empty, min_bytes, max_bytes, lt_bytes_irrefl, Bytes, eq_bytes_refl,
}
use distributed_rocks_db_tes.ConstValues.{ok_word}
use distributed_rocks_db_tes.HandleBuff.{max_line}
use distributed_rocks_db_tes.HandleBuff.Writes.{str_bytes, length-str_bytes}
use distributed_rocks_db_tes.HandleBuff.RoundTrip.{NoNul, until_nul-NoNul, get_string-str_bytes}
use distributed_rocks_db_tes.Rocks.{Rocks, IsRocks}
use distributed_rocks_db_tes.Rocks.Entries.{Rows, insert, erase}
use distributed_rocks_db_tes.Rocks.Extremes.{min_key_of, max_key_of}
use distributed_rocks_db_tes.StoreNode.StoreLog
use distributed_rocks_db_tes.StoreNode.StoreLog.{Log}
use distributed_rocks_db_tes.StoreNode.StoreLog.Codec.{log_size, length-log_bytes}
use distributed_rocks_db_tes.StoreNode.StoreLog.Pending.{put_log, delete_log, log_row}
use distributed_rocks_db_tes.StoreNode.StoreImpl.Commits.{apply_rows}
use distributed_rocks_db_tes.NetConnect.NetFile.{receive_from}
use distributed_rocks_db_tes.StoreNode.StoreImpl.Messages.{pair_bytes, length-pair_bytes}
use distributed_rocks_db_tes.StoreNode.StoreImpl.Ranges.{not-is_empty}
use distributed_rocks_db_tes.StoreNode.StoreImpl.Serves.{log_message, range_of}
use distributed_rocks_db_tes.StoreNode.StoreImpl.LogPhase.{
  Change, insertion, deletion, log_of, changed, IsSendable, step-log,
}
use distributed_rocks_db_tes.ControlNode.ControlMeta.{ControlMeta}
use distributed_rocks_db_tes.ControlNode.ControlMeta.Codec.{meta_bytes, meta_size}
use distributed_rocks_db_tes.ControlNode.ControlImpl.{
  min_bytes, is_empty, max_bytes, ControlImpl, find, meta_at, ask_log, store_meta, commit,
  put_logged, put, node_at, del, del_logged, shrunk,
}
use distributed_rocks_db_tes.ControlNode.ControlImpl.Requests.{
  OnlyNode, Reaches, talked, talked-Reaches, talked-OnlyNode,
}
use distributed_rocks_db_tes.ControlNode.ControlImpl.Questions.{get_string-receive}
use distributed_rocks_db_tes.ControlNode.ControlImpl.Changes.{
  widened, ok_text, meta_rows, length-log_message, ask_log-talked, renewed, store_meta-renewed,
  meta_rows-renewed, renewed-Reaches, commit_lem,
}

-- The smallest key, where it is below `low` and not empty.
abbrev pub least_of : Bytes → Rows → Bytes
least_of low [] = low
least_of low (e ∷ rows) = if is_empty e.key then low else min_bytes low e.key

-- The range of the metadata, with the smallest of these keys and a further key in it.
abbrev pub reaching : Bytes → Rows → ControlMeta → ControlMeta
reaching key rows m = record {
  min_str = least_of m.min_str rows;
  max_str = max_bytes m.max_str key;
  virtual_fd = m.virtual_fd;
}

module _ {Db Iterator : Type 0} (r : Rocks Db Iterator) (laws : IsRocks r) where
  -- What the code makes of the range that the node announces.
  shrunk-reaching :
      (key : Bytes) (rows : Rows) (m : ControlMeta)
      → shrunk r key (min_key_of rows) m ≡ reaching key rows m
  unfolding min_key_of is_empty min_bytes
  shrunk-reaching key [] m = rw (lt_bytes_irrefl m.min_str) refl
  shrunk-reaching key (e ∷ rows) m = elim (Bool-cases (is_empty e.key)) [
    | inl empty ↦ rw (empty, lt_bytes_irrefl m.min_str) refl
    | inr other ↦ rw other refl
  ]

  -- What a command leaves: the node's entries with its log empty, the metadata of the node replaced
  -- by `m`, and the other nodes as they were.
  pub record Settled (it : Iterator) (m : ControlMeta) (virtual_fd : ℕ) (stored : Rows)
      (c c' : ControlImpl Db) : Type 0 where
    pub reaches : Reaches r laws c' virtual_fd stored []
    pub new_meta :
        meta_rows r laws c'
        ≡ insert m.min_str (meta_bytes m) (erase (r.key it) (meta_rows r laws c))
    pub same_others :
        (other : ℕ)
        → other ≢ virtual_fd
        → node_at other c'.virtual_fd_2_net_file ≡ node_at other c.virtual_fd_2_net_file

  Settled-after :
      {it : Iterator} {m : ControlMeta} {virtual_fd : ℕ} {stored : Rows} {c c' c'' : ControlImpl Db}
      → OnlyNode virtual_fd c c'
      → Settled it m virtual_fd stored c' c''
      → Settled it m virtual_fd stored c c''
  Settled-after {it} {m} only s = record {
    reaches = s.reaches;
    new_meta =
        s.new_meta
        ∙ ap (λ d. insert m.min_str (meta_bytes m) (erase (r.key it) (IsRocks.rows laws d.db)))
            only.same_meta;
    same_others = λ other ne. s.same_others other ne ∙ only.same_others other ne;
  }

  -- The answer to the log message of a change.
  abbrev pub reply_to : Change → Rows → Bytes
  reply_to change stored = str_bytes ok_word ++ pair_bytes (range_of (changed change stored))

  pub reply_short :
      (change : Change) {stored : Rows}
      → IsSendable change stored
      → length (reply_to change stored) ≤ max_line
  reply_short change {stored} f = omega (
    arith,
    f.answer_fits,
    length-append {0} (str_bytes ok_word) (pair_bytes (range_of (changed change stored))),
    length-str_bytes ok_word,
    length-pair_bytes (range_of (changed change stored)),
  )

  -- The metadata and the commit, behind the log.
  settle :
      (log : Log) (it : Iterator) (m : ControlMeta) {c : ControlImpl Db} {virtual_fd : ℕ}
      {stored : Rows}
      → StoreLog.Codec.IsStorable log
      → meta_size m ≤ max_line
      → Reaches r laws c virtual_fd stored (log_row log ∷ [])
      → (c' : ControlImpl Db) × ((store_meta r it m c >>= commit r virtual_fd) ≡ some c')
        × Settled it m virtual_fd (apply_rows log.kind log.key log.value stored) c c'
  unfolding renewed
  settle log it m {c} storable fits h =
      let (c', e, g, only) = commit_lem r laws log storable (renewed-Reaches r laws it m fits h) in
      (
        c',
        rw (store_meta-renewed r laws it m c h.receive_room fits) e,
        record {
          reaches = g;
          new_meta =
              ap (λ d. IsRocks.rows laws d.db) only.same_meta ∙ meta_rows-renewed r laws it m c;
          same_others = λ other ne. only.same_others other ne;
        },
      )

  -- The state once a change is logged.
  pub logged_lem :
      (change : Change) {c : ControlImpl Db} {virtual_fd : ℕ} {stored : Rows}
      → IsSendable change stored
      → (h : Reaches r laws c virtual_fd stored [])
      → (c' : ControlImpl Db) × (ask_log r (log_of change) virtual_fd c ≡ some c')
        × Reaches r laws c' virtual_fd stored (log_row (log_of change) ∷ [])
        × OnlyNode virtual_fd c c'
        × (c'.receive_buff ≡ receive_from (reply_to change stored) c.receive_buff)
  unfolding talked
  logged_lem change {c} {virtual_fd} {stored} f h =
      let (node', e, g) = step-log r laws change f h.holds in
      let message : Bytes = log_message (log_of change) in
      let reply : Bytes = reply_to change stored in
      (
        talked r laws virtual_fd message node' reply c,
        ask_log-talked r laws (log_of change) h reply node' f.message_fits e,
        talked-Reaches r laws h message reply node'
            (omega (arith, f.message_fits, length-log_message (log_of change)))
            (reply_short change f) g,
        talked-OnlyNode r laws virtual_fd message reply node' c,
        refl,
      )

  -- A put whose search stops at the metadata `m` of a node with an empty log and no empty key, its
  -- strings with no NUL and every message within the buffers: the node then has the entry,
  -- `m`, widened to the key, replaces the metadata under the iterator, and the other nodes stay.
  pub put-Settled :
      (key value : Bytes) (m : ControlMeta) {c : ControlImpl Db} {stored : Rows}
      → meta_at r (find r key c) ≡ some m
      → Reaches r laws c m.virtual_fd stored []
      → IsSendable (insertion key value) stored
      → meta_size (widened key m) ≤ max_line
      → (c' : ControlImpl Db) × (put r key value c ≡ some c')
        × Settled (find r key c) (widened key m) m.virtual_fd (insert key value stored) c c'
  unfolding put put_logged
  put-Settled key value m {c} {stored} found h f fits =
      let it : Iterator = find r key c in
      let (c1, e1, h1, only, answer) = logged_lem (insertion key value) f h in
      let (c2, e2, s) = settle (put_log key value) it (widened key m) f.storable fits h1 in
      (
        c2,
        rw
            (
              found,
              e1,
              answer,
              get_string-receive ok_word _ c.receive_buff ok_text
                  (reply_short (insertion key value) f),
              eq_bytes_refl ok_word,
            )
            e2,
        Settled-after only s,
      )

  -- A del of a key that is not empty, whose search stops at the metadata `m` of a node with an empty
  -- log, its strings with no NUL and every message within the buffers: the node has then lost the
  -- key, and the other nodes stay. The metadata under the iterator is replaced by a range from the
  -- smaller of the old lower end and the smallest key left, which counts where it is not empty, to the
  -- larger of the old upper end and the deleted key.
  pub del-Settled :
      (key : Bytes) (m : ControlMeta) {c : ControlImpl Db} {stored : Rows}
      → meta_at r (find r key c) ≡ some m
      → Reaches r laws c m.virtual_fd stored []
      → IsSendable (deletion key) stored
      → NoNul (min_key_of (erase key stored))
      → meta_size (reaching key (erase key stored) m) ≤ max_line
      → (c' : ControlImpl Db) × (del r key c ≡ some c')
        × Settled
            (find r key c)
            (reaching key (erase key stored) m)
            m.virtual_fd
            (erase key stored)
            c
            c'
  unfolding del del_logged
  del-Settled key m {c} {stored} found h f low_text fits =
      let it : Iterator = find r key c in
      let low : Bytes = min_key_of (erase key stored) in
      let high : Bytes = max_key_of (erase key stored) in
      let (c1, e1, h1, only, answer) = logged_lem (deletion key) f h in
      let (c2, e2, s) =
        settle (delete_log key) it (reaching key (erase key stored) m) f.storable fits h1 in
      (
        c2,
        rw
            (
              not-is_empty key f.names,
              found,
              e1,
              answer,
              get_string-receive ok_word _ c.receive_buff ok_text (reply_short (deletion key) f),
              eq_bytes_refl ok_word,
              append_assoc (str_bytes low) (str_bytes high)
                  (drop (length (reply_to (deletion key) stored)) c.receive_buff),
              get_string-str_bytes low _ (omega (arith, f.answer_fits)),
              get_string-str_bytes high _ (omega (arith, f.answer_fits)),
              until_nul-NoNul low low_text,
              shrunk-reaching key (erase key stored) m,
            )
            e2,
        Settled-after only s,
      )
