-- ===== src/MainCpp.antt =====
-- The two entry points, my_code/main_cpp, and the input that my_code/test/test1.py prints.
--
-- What lies behind the addresses is a parameter, `at`, as are strtoll, the allocations, and the bounds
-- of the loops that ControlImpl/Start and ControlImpl/Run take.
pub mod Served
pub mod Script
use distributed_rocks_db_tes.Prelude.{ℕ, zero, suc, ◌+◌, Option, List, [], ◌∷◌, ◌++◌, map, ◌>>=◌}
use distributed_rocks_db_tes.Prelude.Bytes.{Bytes, codes}
use distributed_rocks_db_tes.ConstValues.{put_word}
use distributed_rocks_db_tes.HandleBuff.{to_int}
use distributed_rocks_db_tes.Rocks.{Rocks}
use distributed_rocks_db_tes.DbHandle.{to_string}
use distributed_rocks_db_tes.StoreNode.StoreImpl.{StoreImpl, open_store}
use distributed_rocks_db_tes.StoreNode.StoreImpl.Loop
use distributed_rocks_db_tes.StoreNode.StoreImpl.Loop.{Answer}
use distributed_rocks_db_tes.ControlNode.ControlMeta.{int_text}
use distributed_rocks_db_tes.ControlNode.ControlImpl.{ControlImpl, node_at}
use distributed_rocks_db_tes.ControlNode.ControlImpl.Balance.{Share}
use distributed_rocks_db_tes.ControlNode.ControlImpl.Start.{open_control}
use distributed_rocks_db_tes.ControlNode.ControlImpl.Run
use distributed_rocks_db_tes.ControlNode.ControlImpl.Run.{Wanted}

-- The storage processes that the control process connects to.
abbrev pub store_locations : List (Bytes × ℕ)
store_locations =
    (codes "127.0.0.1", 6666) ∷ (codes "127.0.0.1", 6667) ∷ (codes "127.0.0.1", 6668) ∷ []

module _ {Db Iterator : Type 0} (r : Rocks Db Iterator) where
  unfoldable pub control_main :
      Share
      → ℕ
      → (ℕ → ℕ)
      → Bytes × Bytes × Bytes
      → (Bytes × ℕ → StoreImpl Db)
      → List Bytes
      → Option (ControlImpl Db × List Bytes)
  control_main share rounds room buffs at words = do
    c ← open_control r rounds room buffs (codes "control_meta") (map at store_locations)
    Run.run r share rounds Wanted.command words c

  unfoldable pub store_main :
      (Bytes → ℕ)
      → ℕ
      → Bytes × Bytes × Bytes
      → List Bytes
      → List Bytes
      → Option (StoreImpl Db × List Answer)
  store_main strtoll fuel fresh argv messages = do
    text ← node_at 1 argv
    let port = to_int (strtoll text)
    s ← open_store r fuel fresh (codes "data" ++ int_text port) (codes "log" ++ int_text port)
    Loop.run r messages s

-- The words that the script prints, from number `i` on; it prints 999999 lines, from 0 on.
unfoldable pub put_words : ℕ → ℕ → List Bytes
put_words zero i = []
put_words (suc lines) i = put_word ∷ to_string i ∷ to_string 1 ∷ put_words lines (i + 1)
