-- ===== src/ControlNode/ControlImpl.antt =====
-- my_code/control_node/control_impl: the requests to a storage process, and the commands of the
-- control process up to the call of re_balance that ends a put and a del.
--
-- A connection, an element of virtual_fd_2_net_file, is the storage process behind it: what is sent
-- on it is one message of that process, and what is received is its answer. A wait for an answer that
-- never comes is `none`, as is a read of a metadata entry where the iterator is at none. The
-- constructor is in ControlImpl/Start, re_balance in ControlImpl/Balance and the loop of the commands
-- in ControlImpl/Run, with what a get prints. What the others print is not modelled.
pub mod Requests
pub mod Questions
pub mod Ends
pub mod Changes
pub mod Commands
pub mod Balance
pub mod Rounds
pub mod Moves
pub mod Start
pub mod Run
pub mod Tested
pub mod Inputs
pub mod Interface
use distributed_rocks_db_tes.Prelude.{
  ℕ, zero, suc, ◌+◌, ◌-◌, ◌%◌, ◌^◌, Bool, not, Option, none, some, List, [], ◌∷◌, ◌++◌, ◌==◌,
  if◌then◌else◌, length, take, drop, ◌>>=◌, ◌≡◌,
}
use distributed_rocks_db_tes.Prelude.Bytes.{Bytes, eq_bytes, min_bytes, max_bytes, is_empty}
use distributed_rocks_db_tes.ConstValues.{
  get_word, commit_log_word, size_word, log_word, test_word, ok_word, max_key_word, min_key_word,
  less_or_equal_one_word,
}
use distributed_rocks_db_tes.HandleBuff.{
  Cursor, whole, start_of, to_int, to_size, insert_str_to_buff, insert_str_s_to_buff,
  get_string_from_buff, get_int_from_buff,
}
use distributed_rocks_db_tes.Rocks.{Rocks}
use distributed_rocks_db_tes.DbHandle
use distributed_rocks_db_tes.DbHandle.{DbHandle, get_smaller_or_equal_but_as_large_as_possible}
use distributed_rocks_db_tes.StoreNode.StoreLog
use distributed_rocks_db_tes.StoreNode.StoreLog.{LogKind, Log}
use distributed_rocks_db_tes.StoreNode.StoreImpl.{StoreImpl}
use distributed_rocks_db_tes.StoreNode.StoreImpl.Loop.{Answer, quit, silent, sent, step}
use distributed_rocks_db_tes.NetConnect.NetFile.{send_to, receive_from}
use distributed_rocks_db_tes.ControlNode.ControlMeta
use distributed_rocks_db_tes.ControlNode.ControlMeta.{ControlMeta, of_slice}

pub record ControlImpl (Db : Type 0) : Type 0 where
  pub meta_db : DbHandle Db
  pub send_buff : Bytes
  pub receive_buff : Bytes
  pub virtual_fd_2_net_file : List (StoreImpl Db)

module _ {ℓ} {A : Type ℓ} where
  unfoldable pub node_at : ℕ → List A → Option A
  node_at n [] = none
  node_at zero (x ∷ xs) = some x
  node_at (suc n) (x ∷ xs) = node_at n xs

  unfoldable pub set_node : ℕ → A → List A → List A
  set_node n y [] = []
  set_node zero y (x ∷ xs) = y ∷ xs
  set_node (suc n) y (x ∷ xs) = x ∷ set_node n y xs

abbrev reply_of : Answer → Option Bytes
reply_of quit = none
reply_of silent = none
reply_of (sent bytes) = some bytes

module _ {Db Iterator : Type 0} (r : Rocks Db Iterator) where
  -- `send_to(send_buff, len)` and `receive_from(receive_buff)` on a connection.
  unfoldable pub exchange : ℕ → ℕ → ControlImpl Db → Option (ControlImpl Db)
  exchange virtual_fd len c = do
    node ← node_at virtual_fd c.virtual_fd_2_net_file
    (node', answer) ← step r (send_to c.send_buff len) node
    reply ← reply_of answer
    some (record c {
      receive_buff = receive_from reply c.receive_buff;
      virtual_fd_2_net_file = set_node virtual_fd node' c.virtual_fd_2_net_file;
    })

  -- A request of one word, with its answer in the receive buffer.
  unfoldable pub ask : Bytes → ℕ → ControlImpl Db → Option (ControlImpl Db)
  ask word virtual_fd c = do
    (end, ret) ← insert_str_to_buff (start_of c.send_buff) word 0
    exchange virtual_fd ret (record c { send_buff = whole end })

  unfoldable pub get_size : ℕ → ControlImpl Db → Option (ControlImpl Db × ℕ)
  get_size virtual_fd c = do
    c' ← ask size_word virtual_fd c
    (ret, rest) ← get_int_from_buff c'.receive_buff
    some (c', ret)

  unfoldable pub get_store_less_or_equal_one : ℕ → ControlImpl Db → Option (ControlImpl Db × Bool)
  get_store_less_or_equal_one virtual_fd c = do
    c' ← ask less_or_equal_one_word virtual_fd c
    (ret, rest) ← get_int_from_buff c'.receive_buff
    some (c', not (ret == 0))

  unfoldable pub get_max_store : ℕ → ControlImpl Db → Option (ControlImpl Db × Bytes × Bytes)
  get_max_store virtual_fd c = do
    c' ← ask max_key_word virtual_fd c
    (max_key, rec) ← get_string_from_buff c'.receive_buff
    (max_value, rest) ← get_string_from_buff rec
    some (c', max_key, max_value)

  unfoldable pub get_min_store : ℕ → ControlImpl Db → Option (ControlImpl Db × Bytes × Bytes)
  get_min_store virtual_fd c = do
    c' ← ask min_key_word virtual_fd c
    (min_key, rec) ← get_string_from_buff c'.receive_buff
    (value, rest) ← get_string_from_buff rec
    some (c', min_key, value)

  -- The iterator of a command, at the metadata of the node that has the key.
  unfoldable pub find : Bytes → ControlImpl Db → Iterator
  find key c = (get_smaller_or_equal_but_as_large_as_possible r key (r.new_iterator c.meta_db.db)).0

  -- `Control_meta{it->value()}`
  unfoldable pub meta_at : Iterator → Option ControlMeta
  meta_at it = if r.valid it then of_slice (r.value it) else none

  -- A log entry behind the word for it, sent to a node, with the answer in the receive buffer.
  unfoldable pub ask_log : Log → ℕ → ControlImpl Db → Option (ControlImpl Db)
  ask_log log virtual_fd c = do
    (tmp, total_size) ← insert_str_to_buff (start_of c.send_buff) log_word 0
    (end, size) ← StoreLog.to_slice log tmp
    exchange virtual_fd (to_int (total_size + size)) (record c { send_buff = whole end })

  -- The entry under the iterator is deleted, and its new metadata stored under the new minimum.
  unfoldable pub store_meta : Iterator → ControlMeta → ControlImpl Db → Option (ControlImpl Db)
  store_meta it control_meta c =
      let dropped = DbHandle.delete_1 r (r.key it) c.meta_db in
      do
        (end, size) ← ControlMeta.to_slice control_meta (start_of c.receive_buff)
        some (record c {
          meta_db = DbHandle.put r control_meta.min_str (take (to_size size) (whole end)) dropped;
          receive_buff = whole end;
        })

  -- The commit of a command; the answer is only printed.
  unfoldable pub commit : ℕ → ControlImpl Db → Option (ControlImpl Db)
  commit virtual_fd c = do
    c' ← ask commit_log_word virtual_fd c
    (ans, rest) ← get_string_from_buff c'.receive_buff
    some c'

  -- A put once the node has answered that the log is written.
  unfoldable pub put_logged : Bytes → Iterator → ℕ → ControlImpl Db → Option (ControlImpl Db)
  put_logged key it virtual_fd c = do
    m ← meta_at it
    c' ←
        store_meta it
          (record m { min_str = min_bytes m.min_str key; max_str = max_bytes m.max_str key }) c
    commit virtual_fd c'

  unfoldable pub put : Bytes → Bytes → ControlImpl Db → Option (ControlImpl Db)
  put key value c = do
    let it = find key c
    m ← meta_at it
    c' ← ask_log (record { kind = LogKind.put; key = key; value = value }) m.virtual_fd c
    (ans, rest) ← get_string_from_buff c'.receive_buff
    if eq_bytes ans ok_word then put_logged key it m.virtual_fd c' else some c'

  unfoldable pub get : Bytes → ControlImpl Db → Option (ControlImpl Db × Bytes)
  get key c = do
    m ← meta_at (find key c)
    (tmp, send_len) ← insert_str_to_buff (start_of c.send_buff) get_word 0
    (end, send_len') ← insert_str_to_buff tmp key send_len
    c' ← exchange m.virtual_fd send_len' (record c { send_buff = whole end })
    (ans, rest) ← get_string_from_buff c'.receive_buff
    some (c', ans)

  -- The range that a del gives to the metadata: with an empty minimum in the answer the old one.
  abbrev pub shrunk : Bytes → Bytes → ControlMeta → ControlMeta
  shrunk key new_min m =
      let least = if is_empty new_min then m.min_str else new_min in
      record m { min_str = min_bytes m.min_str least; max_str = max_bytes m.max_str key }

  -- A del once the node has answered that the log is written; `rec` is behind that answer.
  unfoldable pub del_logged :
      Bytes → Iterator → ℕ → Bytes → ControlImpl Db → Option (ControlImpl Db)
  del_logged key it virtual_fd rec c = do
    m ← meta_at it
    (new_min, rec') ← get_string_from_buff rec
    (new_max, rest) ← get_string_from_buff rec'
    c' ← store_meta it (shrunk key new_min m) c
    commit virtual_fd c'

  -- An empty key goes back to the start of the loop.
  unfoldable pub del : Bytes → ControlImpl Db → Option (ControlImpl Db)
  del key c = if is_empty key then some c else do
    let it = find key c
    m ← meta_at it
    c' ← ask_log (record { kind = LogKind.delete; key = key; value = [] }) m.virtual_fd c
    (ans, rec) ← get_string_from_buff c'.receive_buff
    if eq_bytes ans ok_word then del_logged key it m.virtual_fd rec c' else some c'

  -- The message of a test, to the first node; no answer is awaited.
  unfoldable pub test : Bytes → ControlImpl Db → Option (ControlImpl Db)
  test test_string c = do
    (end, total_size) ← insert_str_s_to_buff (start_of c.send_buff) (test_word ∷ test_string ∷ []) 0
    node ← node_at 0 c.virtual_fd_2_net_file
    (node', answer) ← step r (send_to (whole end) total_size) node
    some (record c {
      send_buff = whole end;
      virtual_fd_2_net_file = set_node 0 node' c.virtual_fd_2_net_file;
    })
