-- ===== src/ControlNode/ControlImpl/Balance.antt =====
-- re_balance of my_code/control_node/control_impl.
--
-- Its two passes differ in the neighbour that an entry moves to, in the key that moves and in the
-- direction in which the neighbour's metadata lies; these are parameters of what they share. The test
-- on doubles is a parameter as well. Of what re_balance prints only the text of show_meta is modelled. The
-- while loops take fuel, one unit for each test of the loop.
use distributed_rocks_db_tes.Prelude.{
  ℕ, zero, suc, ◌+◌, ◌-◌, Bool, true, false, ◌&&◌, Option, none, some, [], ◌∷◌, ◌++◌, if◌then◌else◌,
  ◌>>=◌,
}
use distributed_rocks_db_tes.Prelude.Bytes.{Bytes, codes, eq_bytes, is_empty}
use distributed_rocks_db_tes.ConstValues.{commit_log_word, del_log_word, ok_word}
use distributed_rocks_db_tes.HandleBuff.{
  whole, start_of, to_int, insert_str_to_buff, get_string_from_buff,
}
use distributed_rocks_db_tes.Rocks.{Rocks}
use distributed_rocks_db_tes.StoreNode.StoreLog.{LogKind, Log}
use distributed_rocks_db_tes.ControlNode.ControlMeta.{ControlMeta, int_text, show}
use distributed_rocks_db_tes.ControlNode.ControlImpl.{
  ControlImpl, exchange, get_size, get_store_less_or_equal_one, get_max_store, get_min_store, find,
  meta_at, ask_log, store_meta,
}

-- `s / (total_size + 0.000001) <= 1 / count + 0.01`, of a size, the total size and the count.
abbrev pub Share : Type 0
Share = ℕ → ℕ → ℕ → Bool

-- The metadata with the bounds that are not empty.
abbrev pub replaced : Bytes → Bytes → ControlMeta → ControlMeta
replaced new_min new_max m = record m {
  min_str = if is_empty new_min then m.min_str else new_min;
  max_str = if is_empty new_max then m.max_str else new_max;
}

module _ {Db Iterator : Type 0} (r : Rocks Db Iterator) where
  -- A log message, with the answer and the range that the node announces.
  unfoldable pub log_on : Log → ℕ → ControlImpl Db → Option (ControlImpl Db × Bytes × Bytes × Bytes)
  log_on log virtual_fd c = do
    c' ← ask_log r log virtual_fd c
    (ans, rec) ← get_string_from_buff c'.receive_buff
    (new_min, rec') ← get_string_from_buff rec
    (new_max, rest) ← get_string_from_buff rec'
    some (c', ans, new_min, new_max)

  -- Both nodes are told to drop their logs; their answers are not read.
  unfoldable pub drop_logs : ℕ → ℕ → ControlImpl Db → Option (ControlImpl Db)
  drop_logs i j c = do
    (end, total_size) ← insert_str_to_buff (start_of c.send_buff) del_log_word 0
    c' ← exchange r i total_size (record c { send_buff = whole end })
    exchange r j total_size c'

  unfoldable pub bound_meta : Iterator → Bytes → Bytes → ControlImpl Db → Option (ControlImpl Db)
  bound_meta it new_min new_max c = do
    m ← meta_at r it
    store_meta r it (replaced new_min new_max m) c

  -- The commits, and whether both nodes answer that they made theirs.
  unfoldable pub commit_both : ℕ → ℕ → ControlImpl Db → Option (ControlImpl Db × Bool)
  commit_both i j c = do
    (end, total_size) ← insert_str_to_buff (start_of c.send_buff) commit_log_word 0
    c1 ← exchange r i total_size (record c { send_buff = whole end })
    (ans, rest) ← get_string_from_buff c1.receive_buff
    elim (eq_bytes ans ok_word) [
      | true ↦ do
        c2 ← exchange r j total_size c1
        (ans', rest') ← get_string_from_buff c2.receive_buff
        some (c2, eq_bytes ans' ok_word)
      | false ↦ some (c1, false)
    ]

  -- One entry moves from node `i` to node `j`, whose metadata is the neighbour that `along` steps to.
  unfoldable pub move :
      (Iterator → Iterator)
      → ℕ
      → ℕ
      → Bytes
      → Bytes
      → ControlImpl Db
      → Option (ControlImpl Db × Bool)
  move along i j key value c = do
    (c1, ans_1, new_min_1, new_max_1) ←
        log_on (record { kind = LogKind.delete; key = key; value = [] }) i c
    (c2, ans_2, new_min_2, new_max_2) ←
        log_on (record { kind = LogKind.put; key = key; value = value }) j c1
    let can_commit = eq_bytes ans_1 ok_word && eq_bytes ans_2 ok_word
    c3 ← if can_commit then some c2 else drop_logs i j c2
    let it = find r key c3
    c4 ← bound_meta it new_min_1 new_max_1 c3
    c5 ← bound_meta (along it) new_min_2 new_max_2 c4
    commit_both i j c5

  -- The loop of `show_meta`, with the text that it prints.
  unfoldable pub show_from : ℕ → Iterator → Bytes → ControlImpl Db → Option (ControlImpl Db × Bytes)
  show_from zero it text c = none
  show_from (suc fuel) it text c = elim (r.valid it) [
    | true ↦ do
      m ← meta_at r it
      (c', size) ← get_size r m.virtual_fd c
      show_from fuel (r.next it)
          (text ++ (codes "size == " ++ (int_text size ++ ((10 ∷ []) ++ show m)))) c'
    | false ↦ some (c, text)
  ]

  unfoldable pub show_meta : ℕ → ControlImpl Db → Option (ControlImpl Db × Bytes)
  show_meta fuel c = show_from fuel (r.seek_to_first (r.new_iterator c.meta_db.db)) [] c

  module _ (share : Share) where
    unfoldable pub not_too_much : ℕ → ℕ → ℕ → ControlImpl Db → Option (ControlImpl Db × Bool)
    not_too_much virtual_fd total_size count c = do
      (c', s) ← get_size r virtual_fd c
      elim (share s total_size count) [
        | true ↦ some (c', true)
        | false ↦ get_store_less_or_equal_one r virtual_fd c'
      ]

    -- The while loop on a node; false is a return from within.
    unfoldable pub relieve :
        (ℕ → ControlImpl Db → Option (ControlImpl Db × Bytes × Bytes))
        → (Iterator → Iterator)
        → ℕ
        → ℕ
        → ℕ
        → ℕ
        → ℕ
        → ControlImpl Db
        → Option (ControlImpl Db × Bool)
    relieve pick along zero i j total_size count c = none
    relieve pick along (suc fuel) i j total_size count c = do
      (c1, enough) ← not_too_much i total_size count c
      elim enough [
        | true ↦ some (c1, true)
        | false ↦ do
          (c2, key, value) ← pick i c1
          (c3, committed) ← move along i j key value c2
          elim committed [
            | true ↦ relieve pick along fuel i j total_size count c3
            | false ↦ some (c3, false)
          ]
      ]

    -- for (int i = 0; i < store_node_count - 1; i++), with `left` rounds to go.
    unfoldable pub pass_up : ℕ → ℕ → ℕ → ℕ → ℕ → ControlImpl Db → Option (ControlImpl Db × Bool)
    pass_up zero fuel i total_size count c = some (c, true)
    pass_up (suc left) fuel i total_size count c = do
      (c', on) ← relieve (get_max_store r) r.next fuel i (i + 1) total_size count c
      elim on [ true ↦ pass_up left fuel (i + 1) total_size count c' | false ↦ some (c', false) ]

    -- for (int i = store_node_count - 1; i > 0; i--)
    unfoldable pub pass_down : ℕ → ℕ → ℕ → ℕ → ControlImpl Db → Option (ControlImpl Db × Bool)
    pass_down zero fuel total_size count c = some (c, true)
    pass_down (suc i) fuel total_size count c = do
      (c', on) ← relieve (get_min_store r) r.prev fuel (suc i) i total_size count c
      elim on [ true ↦ pass_down i fuel total_size count c' | false ↦ some (c', false) ]

    -- The sum of the sizes.
    unfoldable pub sum_sizes : ℕ → ℕ → ℕ → ControlImpl Db → Option (ControlImpl Db × ℕ)
    sum_sizes zero i total c = some (c, total)
    sum_sizes (suc left) i total c = do
      (c', size) ← get_size r i c
      sum_sizes left (i + 1) (to_int (total + size)) c'

    unfoldable pub re_balance : ℕ → ℕ → ControlImpl Db → Option (ControlImpl Db)
    re_balance fuel store_node_count c = do
      (c1, total_size) ← sum_sizes store_node_count 0 0 c
      (c2, on) ← pass_up (store_node_count - 1) fuel 0 total_size store_node_count c1
      elim on [
        | true ↦ do
          (c3, done) ← pass_down (store_node_count - 1) fuel total_size store_node_count c2
          elim done [ true ↦ do (c4, text) ← show_meta fuel c3; some c4 | false ↦ some c3 ]
        | false ↦ some c2
      ]
