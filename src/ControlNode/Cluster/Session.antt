-- ===== src/ControlNode/Cluster/Session.antt =====
-- What a user types, up to "quit", on the map that the processes are together.
use mathlib.Core.Path.{fun_ext}
use distributed_rocks_db_tes.Prelude.{
  ℕ, ◌+◌, ◌≡◌, refl, ap, ◌∙◌, Option, some, List, [], ◌∷◌, ◌++◌, length, arith, ◌<◌, All,
}
use distributed_rocks_db_tes.Prelude.Bytes.{Bytes}
use distributed_rocks_db_tes.Rocks.{Rocks, IsRocks}
use distributed_rocks_db_tes.ControlNode.ControlImpl.{ControlImpl}
use distributed_rocks_db_tes.ControlNode.ControlImpl.Balance.{Share}
use distributed_rocks_db_tes.ControlNode.ControlImpl.Run.{Wanted, run}
use distributed_rocks_db_tes.ControlNode.ControlImpl.Inputs.{
  Command, put, get, del, test_with, unknown, IsCommand, execute_all, session, run-session,
}
use distributed_rocks_db_tes.ControlNode.Cluster.{Shard, value_at, IsCluster}
use distributed_rocks_db_tes.ControlNode.Cluster.Shards.{All-map}
use distributed_rocks_db_tes.ControlNode.Cluster.Counts.{entries}
use distributed_rocks_db_tes.ControlNode.Cluster.Executed.{replies, change, IsTyped, execute-Ran}

-- The commands one after another, on a map.
abbrev pub replay : List Command → (Bytes → Option Bytes) → Bytes → Option Bytes
replay [] m = m
replay (command ∷ commands) m = replay commands (change command m)

-- What they print.
abbrev pub told : List Command → (Bytes → Option Bytes) → List Bytes
told [] m = []
told (command ∷ commands) m = replies command m ++ told commands (change command m)

typed-IsCommand : (command : Command) → IsTyped command → IsCommand command
typed-IsCommand (put key value) t = tt
typed-IsCommand (get key) t = tt
typed-IsCommand (del key) t = tt
typed-IsCommand (test_with text) t = tt
typed-IsCommand (unknown word) t = t

module _ {Db Iterator : Type 0} (r : Rocks Db Iterator) (laws : IsRocks r) (share : Share)
    (rounds : ℕ) where
  execute_all-IsCluster :
      (commands : List Command) (shards : List Shard) {c : ControlImpl Db}
      → All IsTyped commands
      → IsCluster r laws shards c
      → entries shards + length commands < rounds
      → length shards < rounds
      → (c' : ControlImpl Db) × (shards' : List Shard) × (execute_all r share rounds commands c
          ≡ some (c', told commands (λ k. value_at k shards)))
        × IsCluster r laws shards' c'
        × ((j : Bytes) → value_at j shards' ≡ replay commands (λ k. value_at k shards) j)
  execute_all-IsCluster [] shards {c} t h enough enough' = (c, shards, refl, h, λ j. refl)
  execute_all-IsCluster (command ∷ commands) shards t h enough enough' =
      let ran =
        execute-Ran r laws share rounds shards h (omega (arith, enough)) enough' command t.0 in
      let (c', shards', e, g, values) =
        execute_all-IsCluster commands ran.new_shards t.1 ran.is_cluster
          (omega (arith, enough, ran.one_more.1)) (omega (arith, enough', ran.one_more.0)) in
      (
        c',
        shards',
        rw (ran.ends, e)
            (ap
              (λ (m : Bytes → Option Bytes).
                some (c', replies command (λ k. value_at k shards) ++ told commands m))
              (fun_ext ran.new_values)),
        g,
        λ j.
            values j
            ∙ ap (λ (m : Bytes → Option Bytes). replay commands m j) (fun_ext ran.new_values),
      )

  -- Where the processes are one map, the loop on the words of any commands, ended by "quit", ends: each
  -- get has printed the value that its key has on the map by then, or the empty string, and the processes
  -- are the map that the commands make of it one after another. A put and a del change their key alone;
  -- a del of the empty key, a get, a test and a word that starts no command change nothing. No key or
  -- value has a NUL or more than 20000 bytes, no key that is put is empty, the string of a test has at
  -- most 40946 bytes, and each loop may take more rounds than there are entries and commands together,
  -- and more than there are processes.
  pub session-IsCluster :
      (commands : List Command) (shards : List Shard) {c : ControlImpl Db}
      → All IsTyped commands
      → IsCluster r laws shards c
      → entries shards + length commands < rounds
      → length shards < rounds
      → (c' : ControlImpl Db) × (shards' : List Shard) × (run r share rounds Wanted.command
            (session commands)
            c
          ≡ some (c', told commands (λ k. value_at k shards)))
        × IsCluster r laws shards' c'
        × ((j : Bytes) → value_at j shards' ≡ replay commands (λ k. value_at k shards) j)
  session-IsCluster commands shards {c} t h enough enough' =
      let (c', shards', e, g, values) = execute_all-IsCluster commands shards t h enough enough' in
      (
        c',
        shards',
        run-session r share rounds commands c (All-map typed-IsCommand commands t) ∙ e,
        g,
        values,
      )
