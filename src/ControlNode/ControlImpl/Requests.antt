-- ===== src/ControlNode/ControlImpl/Requests.antt =====
-- What a request of the control process does to the process asked, to the buffers and to the others.
use distributed_rocks_db_tes.Prelude.{
  take, ℕ, zero, suc, ◌+◌, ◌^◌, ◌≡◌, ◌≢◌, refl, ap, ◌∙◌, some, List, [], ◌∷◌, arith, length, ◌≤◌,
  ◌<◌,
}
use distributed_rocks_db_tes.Prelude.Bytes.{Bytes}
use distributed_rocks_db_tes.HandleBuff.{to_size, whole, start_of, max_line, to_int}
use distributed_rocks_db_tes.HandleBuff.Writes.{
  str_bytes, length-str_bytes, advance, insert_str-fits, length-whole-advance,
}
use distributed_rocks_db_tes.Rocks.{Rocks, IsRocks}
use distributed_rocks_db_tes.Rocks.Entries.{Rows}
use distributed_rocks_db_tes.StoreNode.StoreImpl.{StoreImpl}
use distributed_rocks_db_tes.StoreNode.StoreImpl.Loop.{sent, step}
use distributed_rocks_db_tes.NetConnect.NetFile.{receive_from}
use distributed_rocks_db_tes.StoreNode.StoreImpl.Commits.{Holds}
use distributed_rocks_db_tes.StoreNode.StoreImpl.Messages.{take-advance, length-receive_from}
use distributed_rocks_db_tes.ControlNode.ControlImpl.{ControlImpl, node_at, set_node, exchange, ask}

module _ {ℓ} {A : Type ℓ} where
  node_at-set_node :
      (n : ℕ) (x y : A) (xs : List A) → node_at n xs ≡ some x → node_at n (set_node n y xs) ≡ some y
  unfolding node_at set_node
  node_at-set_node n x y [] h = absurd cc
  node_at-set_node zero x y (z ∷ xs) h = refl
  node_at-set_node (suc n) x y (z ∷ xs) h = node_at-set_node n x y xs h

  node_at-set_other :
      (m n : ℕ) (y : A) (xs : List A) → m ≢ n → node_at m (set_node n y xs) ≡ node_at m xs
  unfolding node_at set_node
  node_at-set_other m n y [] h = refl
  node_at-set_other zero zero y (x ∷ xs) h = absurd (h refl)
  node_at-set_other zero (suc n) y (x ∷ xs) h = refl
  node_at-set_other (suc m) zero y (x ∷ xs) h = refl
  node_at-set_other (suc m) (suc n) y (x ∷ xs) h = node_at-set_other m n y xs (λ p. h (ap suc p))

-- Two states of the control process between which at most the process of the number changed, and not
-- the metadata.
pub record OnlyNode {Db : Type 0} (virtual_fd : ℕ) (c c' : ControlImpl Db) : Type 0 where
  pub same_meta : c'.meta_db ≡ c.meta_db
  pub same_others :
      (other : ℕ)
      → other ≢ virtual_fd
      → node_at other c'.virtual_fd_2_net_file ≡ node_at other c.virtual_fd_2_net_file

module _ {Db Iterator : Type 0} (r : Rocks Db Iterator) (laws : IsRocks r) where
  -- The control process has full buffers, and a connection to a node with these entries and this log.
  pub record Reaches (c : ControlImpl Db) (virtual_fd : ℕ) (stored kept : Rows) : Type 0 where
    pub node : StoreImpl Db
    pub has_node : node_at virtual_fd c.virtual_fd_2_net_file ≡ some node
    pub holds : Holds r laws node stored kept
    pub send_room : length c.send_buff ≡ max_line
    pub receive_room : length c.receive_buff ≡ max_line

  -- The state once `bytes` were sent to a node that became `node` and answered `reply`.
  unfoldable pub talked : ℕ → Bytes → StoreImpl Db → Bytes → ControlImpl Db → ControlImpl Db
  talked virtual_fd bytes node reply c = record c {
    send_buff = whole (advance bytes (start_of c.send_buff));
    receive_buff = receive_from reply c.receive_buff;
    virtual_fd_2_net_file = set_node virtual_fd node c.virtual_fd_2_net_file;
  }

  module _ {c : ControlImpl Db} {virtual_fd : ℕ} {stored kept : Rows}
      (h : Reaches c virtual_fd stored kept) (bytes reply : Bytes) (node' : StoreImpl Db) where
    pub exchange-talked :
        (len : ℕ)
        → length bytes ≡ len
        → len < 2 ^ 31
        → step r bytes h.node ≡ some (node', sent reply)
        → exchange r virtual_fd len
            (record c { send_buff = whole (advance bytes (start_of c.send_buff)) })
          ≡ some (talked virtual_fd bytes node' reply c)
    unfolding exchange talked
    exchange-talked len e small answers =
        rw (h.has_node, take-advance bytes c.send_buff len e small, answers) refl

    pub talked-Reaches :
        {stored' kept' : Rows}
        → length bytes ≤ max_line
        → length reply ≤ max_line
        → Holds r laws node' stored' kept'
        → Reaches (talked virtual_fd bytes node' reply c) virtual_fd stored' kept'
    unfolding talked
    talked-Reaches short small g = record {
      node = node';
      has_node = node_at-set_node virtual_fd h.node node' c.virtual_fd_2_net_file h.has_node;
      holds = g;
      send_room =
          length-whole-advance bytes (start_of c.send_buff) (omega (arith, h.send_room))
          ∙ h.send_room;
      receive_room = length-receive_from reply c.receive_buff small h.receive_room;
    }

  pub talked-OnlyNode :
      (virtual_fd : ℕ) (bytes reply : Bytes) (node' : StoreImpl Db) (c : ControlImpl Db)
      → OnlyNode virtual_fd c (talked virtual_fd bytes node' reply c)
  unfolding talked
  talked-OnlyNode virtual_fd bytes reply node' c = record {
    same_meta = refl;
    same_others = λ other. node_at-set_other other virtual_fd node' c.virtual_fd_2_net_file;
  }

  -- The state once what the send buffer starts with was sent to a node, that became `node` and
  -- answered `reply`.
  unfoldable pub heard : ℕ → StoreImpl Db → Bytes → ControlImpl Db → ControlImpl Db
  heard virtual_fd node reply c = record c {
    receive_buff = receive_from reply c.receive_buff;
    virtual_fd_2_net_file = set_node virtual_fd node c.virtual_fd_2_net_file;
  }

  pub exchange-heard :
      {c : ControlImpl Db} {virtual_fd : ℕ} {stored kept : Rows}
      (h : Reaches c virtual_fd stored kept) (bytes reply : Bytes) (node' : StoreImpl Db) (len : ℕ)
      → take (to_size len) c.send_buff ≡ bytes
      → step r bytes h.node ≡ some (node', sent reply)
      → exchange r virtual_fd len c ≡ some (heard virtual_fd node' reply c)
  unfolding exchange heard
  exchange-heard h bytes reply node' len e answers = rw (h.has_node, e, answers) refl

  pub heard-Reaches :
      {c : ControlImpl Db} {virtual_fd : ℕ} {stored kept stored' kept' : Rows}
      (h : Reaches c virtual_fd stored kept) (reply : Bytes) (node' : StoreImpl Db)
      → length reply ≤ max_line
      → Holds r laws node' stored' kept'
      → Reaches (heard virtual_fd node' reply c) virtual_fd stored' kept'
  unfolding heard
  heard-Reaches {c} {virtual_fd} h reply node' small g = record {
    node = node';
    has_node = node_at-set_node virtual_fd h.node node' c.virtual_fd_2_net_file h.has_node;
    holds = g;
    send_room = h.send_room;
    receive_room = length-receive_from reply c.receive_buff small h.receive_room;
  }

  pub heard-OnlyNode :
      (virtual_fd : ℕ) (reply : Bytes) (node' : StoreImpl Db) (c : ControlImpl Db)
      → OnlyNode virtual_fd c (heard virtual_fd node' reply c)
  unfolding heard
  heard-OnlyNode virtual_fd reply node' c = record {
    same_meta = refl;
    same_others = λ other. node_at-set_other other virtual_fd node' c.virtual_fd_2_net_file;
  }

  pub ask-talked :
      (word : Bytes) {c : ControlImpl Db} {virtual_fd : ℕ} {stored kept : Rows}
      (h : Reaches c virtual_fd stored kept) (reply : Bytes) (node' : StoreImpl Db)
      → length word + 5 ≤ max_line
      → step r (str_bytes word) h.node ≡ some (node', sent reply)
      → ask r word virtual_fd c ≡ some (talked virtual_fd (str_bytes word) node' reply c)
  unfolding ask
  ask-talked word {c} h reply node' short answers =
      rw (insert_str-fits (start_of c.send_buff) word 0 (omega arith) (omega (arith, h.send_room)))
        (exchange-talked h (str_bytes word) reply node' (to_int (0 + length word + 5))
          (omega (arith, length-str_bytes word)) (omega arith) answers)
