-- ===== src/ControlNode/ControlImpl/Interface.antt =====
-- The methods that my_code/control_node/control_impl.h declares.
use distributed_rocks_db_tes.Prelude.{ℕ, Bool, Option, List}
use distributed_rocks_db_tes.Prelude.Bytes.{Bytes}
use distributed_rocks_db_tes.Rocks.{Rocks}
use distributed_rocks_db_tes.StoreNode.StoreImpl.{StoreImpl}
use distributed_rocks_db_tes.ControlNode.ControlImpl
use distributed_rocks_db_tes.ControlNode.ControlImpl.{ControlImpl}
use distributed_rocks_db_tes.ControlNode.ControlImpl.Balance
use distributed_rocks_db_tes.ControlNode.ControlImpl.Balance.{Share}
use distributed_rocks_db_tes.ControlNode.ControlImpl.Start
use distributed_rocks_db_tes.ControlNode.ControlImpl.Run
use distributed_rocks_db_tes.ControlNode.ControlImpl.Run.{Wanted}

pub record Control (State Node : Type 0) : Type 0 where
  pub get_size : ℕ → State → Option (State × ℕ)
  pub get_store_less_or_equal_one : ℕ → State → Option (State × Bool)
  -- Of a node, the total size and the number of nodes.
  pub not_too_much : ℕ → ℕ → ℕ → State → Option (State × Bool)
  pub get_max_store : ℕ → State → Option (State × Bytes × Bytes)
  pub get_min_store : ℕ → State → Option (State × Bytes × Bytes)
  -- The loops take fuel.
  pub show_meta : ℕ → State → Option (State × Bytes)
  pub re_balance : ℕ → ℕ → State → Option State
  pub virtual_fd_2_net_file : State → List Node
  pub open_control : ℕ → (ℕ → ℕ) → Bytes × Bytes × Bytes → Bytes → List Node → Option State
  pub run : ℕ → List Bytes → State → Option (State × List Bytes)

module _ {Db Iterator : Type 0} (r : Rocks Db Iterator) (share : Share) where
  abbrev pub control : Control (ControlImpl Db) (StoreImpl Db)
  control = record {
    get_size = ControlImpl.get_size r;
    get_store_less_or_equal_one = ControlImpl.get_store_less_or_equal_one r;
    not_too_much = Balance.not_too_much r share;
    get_max_store = ControlImpl.get_max_store r;
    get_min_store = ControlImpl.get_min_store r;
    show_meta = Balance.show_meta r;
    re_balance = Balance.re_balance r share;
    virtual_fd_2_net_file = λ c. c.virtual_fd_2_net_file;
    open_control = Start.open_control r;
    run = λ rounds. Run.run r share rounds Wanted.command;
  }
