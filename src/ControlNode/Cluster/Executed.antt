-- ===== src/ControlNode/Cluster/Executed.antt =====
-- One command of the control process, the balancing behind it included, on the map that the processes
-- are together.
use distributed_rocks_db_tes.Prelude.{
  ap, ℕ, suc, ◌+◌, ◌≡◌, ◌≢◌, refl, ◌∙◌, true, false, Option, none, some, List, [], ◌∷◌, length,
  arith, ◌<◌, ◌≤◌, if◌then◌else◌, Bool-cases, inl, inr,
}
use distributed_rocks_db_tes.Prelude.Bytes.{Bytes, eq_bytes, is_empty}
use distributed_rocks_db_tes.HandleBuff.{max_line}
use distributed_rocks_db_tes.Rocks.{Rocks, IsRocks}
use distributed_rocks_db_tes.DbHandle.{value_or_empty}
use distributed_rocks_db_tes.ControlNode.ControlImpl
use distributed_rocks_db_tes.ControlNode.ControlImpl.{ControlImpl, test}
use distributed_rocks_db_tes.ControlNode.ControlImpl.Balance.{Share}
use distributed_rocks_db_tes.ControlNode.ControlImpl.Run.{answer_line}
use distributed_rocks_db_tes.ControlNode.ControlImpl.Inputs.{
  Command, put, get, del, test_with, unknown, IsCommand, execute, quietly,
}
use distributed_rocks_db_tes.ControlNode.ControlImpl.Tested.{test-Reaches}
use distributed_rocks_db_tes.ControlNode.Cluster.{Shard, value_at, IsText, IsCluster}
use distributed_rocks_db_tes.ControlNode.Cluster.Shards.{node_at-here}
use distributed_rocks_db_tes.ControlNode.Cluster.Counts.{entries, IsOneMore}
use distributed_rocks_db_tes.ControlNode.Cluster.Serving.{
  get-IsCluster, put-IsCluster, del-IsCluster,
}
use distributed_rocks_db_tes.ControlNode.Cluster.Sides.{asked-IsCluster}
use distributed_rocks_db_tes.ControlNode.Cluster.Connections.{balance-IsCluster}

-- What a command makes of a map.
abbrev pub change : Command → (Bytes → Option Bytes) → Bytes → Option Bytes
change (put key value) m j = if eq_bytes j key then some value else m j
change (del key) m j = if is_empty key then m j else if eq_bytes j key then none else m j
change (get key) m j = m j
change (test_with text) m j = m j
change (unknown word) m j = m j

-- What it prints on the map, for a get.
abbrev pub replies : Command → (Bytes → Option Bytes) → List Bytes
replies (get key) m = answer_line (value_or_empty (m key)) ∷ []
replies (put key value) m = []
replies (del key) m = []
replies (test_with text) m = []
replies (unknown word) m = []

-- A command with short strings that have no NUL, and a key that is not empty where it puts.
abbrev pub IsTyped : Command → Type 0
IsTyped (put key value) = IsText key × IsText value × (key ≢ [])
IsTyped (get key) = IsText key
IsTyped (del key) = IsText key
IsTyped (test_with text) = length text + 14 ≤ max_line
IsTyped (unknown word) = IsCommand (unknown word)

some_bytes : (key : Bytes) → is_empty key ≡ false → key ≢ []
unfolding is_empty
some_bytes [] h p = absurd cc
some_bytes (x ∷ key) h p = cc

module _ {Db Iterator : Type 0} (r : Rocks Db Iterator) (laws : IsRocks r) where
  -- The processes are the map that `values` says, after a computation that ends and prints these lines.
  pub record Ran (result : Option (ControlImpl Db × List Bytes)) (shards : List Shard)
      (values : Bytes → Option Bytes) (lines : List Bytes) : Type 0 where
    pub state : ControlImpl Db
    pub new_shards : List Shard
    pub ends : result ≡ some (state, lines)
    pub is_cluster : IsCluster r laws new_shards state
    pub one_more : IsOneMore shards new_shards
    pub new_values : (j : Bytes) → value_at j new_shards ≡ values j

  kept :
      {shards : List Shard} {result : Option (ControlImpl Db × List Bytes)} {lines : List Bytes}
      (c' : ControlImpl Db)
      → result ≡ some (c', lines)
      → IsCluster r laws shards c'
      → Ran result shards (λ j. value_at j shards) lines
  kept {shards} c' e g = record {
    state = c';
    new_shards = shards;
    ends = e;
    is_cluster = g;
    one_more = (refl, omega arith);
    new_values = λ j. refl;
  }

  test-Ran :
      (text : Bytes) (shards : List Shard) {c : ControlImpl Db}
      → IsCluster r laws shards c
      → length text + 14 ≤ max_line
      → Ran (quietly (test r text c)) shards (λ j. value_at j shards) []
  test-Ran text [] h short = absurd (h.not_empty refl)
  test-Ran text (s ∷ after) h short =
      let (c', e, g, only) =
        test-Reaches r laws text (h.reached 0 s (node_at-here [] s after)) short in
      kept c' (ap quietly e) (asked-IsCluster r laws [] s after h g only)

  del-nothing :
      (share : Share) (rounds : ℕ) (key : Bytes) (c : ControlImpl Db)
      → is_empty key ≡ true
      → execute r share rounds (del key) c ≡ some (c, [])
  unfolding ControlImpl.del
  del-nothing share rounds key c empty = rw empty refl

  module _ (share : Share) (rounds : ℕ) (shards : List Shard) {c : ControlImpl Db}
      (h : IsCluster r laws shards c) (enough : suc (entries shards) < rounds)
      (enough' : length shards < rounds) where
    put-Ran :
        (key value : Bytes)
        → IsText key
        → IsText value
        → key ≢ []
        → Ran
            (execute r share rounds (put key value) c)
            shards
            (change (put key value) (λ j. value_at j shards))
            []
    put-Ran key value key_text value_text some_key =
        let (c1, shards1, e1, h1, more, values) =
          put-IsCluster r laws h key key_text value value_text some_key in
        let (c2, shards2, e2, h2, same) =
          balance-IsCluster r laws share rounds shards1 h1 (omega (arith, more.1, enough))
            (omega (arith, more.0, enough')) in
        record {
          state = c2;
          new_shards = shards2;
          ends = rw (e1, e2) refl;
          is_cluster = h2;
          one_more = (same.same_count ∙ more.0, omega (arith, same.bounded, more.1));
          new_values = λ j. same.same_values j ∙ values j;
        }

    del-Ran :
        (key : Bytes)
        → IsText key
        → Ran
            (execute r share rounds (del key) c)
            shards
            (change (del key) (λ j. value_at j shards))
            []
    del-Ran key key_text = elim (Bool-cases (is_empty key)) [
      | inl empty ↦ record {
        state = c;
        new_shards = shards;
        ends = del-nothing share rounds key c empty;
        is_cluster = h;
        one_more = (refl, omega arith);
        new_values = λ j. rw empty refl;
      }
      | inr other ↦
          let (c1, shards1, e1, h1, more, values) =
            del-IsCluster r laws h key key_text (some_bytes key other) in
          let (c2, shards2, e2, h2, same) =
            balance-IsCluster r laws share rounds shards1 h1 (omega (arith, more.1, enough))
              (omega (arith, more.0, enough')) in
          record {
            state = c2;
            new_shards = shards2;
            ends = rw (e1, other, e2) refl;
            is_cluster = h2;
            one_more = (same.same_count ∙ more.0, omega (arith, same.bounded, more.1));
            new_values = λ j. rw other (same.same_values j ∙ values j);
          }
    ]

    get-Ran :
        (key : Bytes)
        → IsText key
        → Ran
            (execute r share rounds (get key) c)
            shards
            (λ j. value_at j shards)
            (replies (get key) (λ j. value_at j shards))
    get-Ran key key_text =
        let (c', e, g) = get-IsCluster r laws h key key_text in kept c' (rw e refl) g

    -- Any command that is typed so.
    pub execute-Ran :
        (command : Command)
        → IsTyped command
        → Ran
            (execute r share rounds command c)
            shards
            (change command (λ j. value_at j shards))
            (replies command (λ j. value_at j shards))
    execute-Ran (put key value) t = put-Ran key value t.0 t.1 t.2
    execute-Ran (get key) t = get-Ran key t
    execute-Ran (del key) t = del-Ran key t
    execute-Ran (test_with text) t = test-Ran text shards h t
    execute-Ran (unknown word) t = kept c refl h
