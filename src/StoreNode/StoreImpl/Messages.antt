-- ===== src/StoreNode/StoreImpl/Messages.antt =====
-- A message as it reaches the loop of a node, and an answer as it leaves the send buffer.
use mathlib.Core.Path.{ap₂}
use distributed_rocks_db_tes.Prelude.{
  ℕ, ◌+◌, ◌^◌, ◌≡◌, ap, ◌∙◌, subst, some, [], ◌++◌, arith, length, drop, ◌≤◌, ◌<◌, append_assoc,
  take, append-nil, length-append, length-drop, take-length_append, take-length,
}
use distributed_rocks_db_tes.Prelude.Bytes.{Bytes}
use distributed_rocks_db_tes.HandleBuff.{to_size, Cursor, whole, start_of, max_line, to_int}
use distributed_rocks_db_tes.HandleBuff.Writes.{
  str_bytes, length-str_bytes, advance, advance-advance, length-advance, insert_str-fits,
  to_size_small, length-whole-advance,
}
use distributed_rocks_db_tes.HandleBuff.RoundTrip.{NoNul, until_nul-NoNul, get_string-str_bytes}
use distributed_rocks_db_tes.Rocks.{Rocks, IsRocks}
use distributed_rocks_db_tes.Rocks.Entries.{Rows}
use distributed_rocks_db_tes.StoreNode.StoreImpl.{StoreImpl, insert_pair}
use distributed_rocks_db_tes.StoreNode.StoreImpl.Loop.{Answer, sent, answer, serve, step}
use distributed_rocks_db_tes.NetConnect.NetFile.{receive_from, send_to}
use distributed_rocks_db_tes.StoreNode.StoreImpl.Commits.{Holds}

-- A message that fits lies at the start of the buffer, before what was there.
pub receive_from-fits :
    (message buff : Bytes)
    → length message ≤ max_line
    → receive_from message buff ≡ message ++ drop (length message) buff
unfolding receive_from
receive_from-fits message buff h = rw (take-length max_line message h)

pub length-receive_from :
    (message buff : Bytes)
    → length message ≤ max_line
    → length buff ≡ max_line
    → length (receive_from message buff) ≡ max_line
length-receive_from message buff h e = rw (receive_from-fits message buff h) (
    omega (
      arith,
      length-append {0} message (drop (length message) buff),
      length-drop {0} (length message) buff,
    ))

-- The bytes written from the start of the buffer.
pub take-advance :
    (bytes buff : Bytes) (len : ℕ)
    → length bytes ≡ len
    → len < 2 ^ 31
    → take (to_size len) (whole (advance bytes (start_of buff))) ≡ bytes
unfolding advance
take-advance bytes buff len e small =
    rw (to_size_small len small, ← e) (take-length_append bytes (drop (length bytes) buff))

-- What is sent of them.
pub send_to-advance :
    (bytes buff : Bytes) (len : ℕ)
    → length bytes ≡ len
    → len < 2 ^ 31
    → sent (send_to (whole (advance bytes (start_of buff))) len) ≡ sent bytes
send_to-advance bytes buff len e small = ap sent (take-advance bytes buff len e small)

abbrev pub pair_bytes : Bytes × Bytes → Bytes
pair_bytes pair = str_bytes pair.0 ++ str_bytes pair.1

abbrev pub pair_size : Bytes × Bytes → ℕ
pair_size pair = length pair.0 + length pair.1 + 10

pub length-pair_bytes : (pair : Bytes × Bytes) → length (pair_bytes pair) ≡ pair_size pair
length-pair_bytes pair = omega (
  arith,
  length-append {0} (str_bytes pair.0) (str_bytes pair.1),
  length-str_bytes pair.0,
  length-str_bytes pair.1,
)

pub insert_pair-fits :
    (c : Cursor) (pair : Bytes × Bytes) (t : ℕ)
    → pair_size pair < 2 ^ 31
    → pair_size pair ≤ length c.ahead
    → insert_pair c pair t ≡ some (advance (pair_bytes pair) c, to_int (t + pair_size pair))
insert_pair-fits c pair t small room =
    let next : Cursor = advance (str_bytes pair.0) c in
    rw (insert_str-fits c pair.0 t (omega arith) (omega arith)) (
      rw
        (insert_str-fits next pair.1 (to_int (t + length pair.0 + 5)) (omega arith)
          (omega (arith, length-advance (str_bytes pair.0) c, length-str_bytes pair.0)))
        (ap₂ (λ (d : Cursor) (n : ℕ). some (d, n))
          (advance-advance (str_bytes pair.0) (str_bytes pair.1) c) (omega arith)))

module _ {Db Iterator : Type 0} (r : Rocks Db Iterator) (laws : IsRocks r) where
  -- The state of a node that has received a message.
  unfoldable pub received : Bytes → StoreImpl Db → StoreImpl Db
  received message s = record s { receive_buff = receive_from message s.receive_buff }

  pub received-Holds :
      (message : Bytes) {s : StoreImpl Db} {stored logged : Rows}
      → length message ≤ max_line
      → Holds r laws s stored logged
      → Holds r laws (received message s) stored logged
  unfolding received
  received-Holds message {s} short h = record {
    has_data = h.has_data;
    has_log = h.has_log;
    log_room = h.log_room;
    receive_room = length-receive_from message s.receive_buff short h.receive_room;
    send_room = h.send_room;
  }

  -- The state of a node that has written an answer over its send buffer, which was `buff`.
  unfoldable pub answered : Bytes → Bytes → StoreImpl Db → StoreImpl Db
  answered bytes buff s = record s { send_buff = whole (advance bytes (start_of buff)) }

  pub answer_lem :
      (bytes buff : Bytes) (len : ℕ) (s : StoreImpl Db)
      → length bytes ≡ len
      → len < 2 ^ 31
      → answer (advance bytes (start_of buff)) len s ≡ (answered bytes buff s, sent bytes)
  unfolding answered
  answer_lem bytes buff len s e small =
      ap (λ (a : Answer). (answered bytes buff s, a)) (send_to-advance bytes buff len e small)

  pub answered-Holds :
      (bytes buff : Bytes) {s : StoreImpl Db} {stored kept : Rows}
      → length bytes ≤ max_line
      → length buff ≡ max_line
      → Holds r laws s stored kept
      → Holds r laws (answered bytes buff s) stored kept
  unfolding answered
  answered-Holds bytes buff {s} short full h = record {
    has_data = h.has_data;
    has_log = h.has_log;
    log_room = h.log_room;
    receive_room = h.receive_room;
    send_room = length-whole-advance bytes (start_of buff) (omega (arith, full)) ∙ full;
  }

  -- The body of the loop reads the command of a message, and hands on what follows it.
  pub step-message :
      (word rest : Bytes) (s : StoreImpl Db)
      → NoNul word
      → length (str_bytes word ++ rest) ≤ max_line
      → step r (str_bytes word ++ rest) s
        ≡ serve r word
            (rest ++ drop (length (str_bytes word ++ rest)) s.receive_buff)
            (received (str_bytes word ++ rest) s)
  unfolding step received
  step-message word rest s text short =
      let message : Bytes = str_bytes word ++ rest in
      let old : Bytes = drop (length message) s.receive_buff in
      let small : length word < max_line =
        omega (arith, length-append {0} (str_bytes word) rest, length-str_bytes word) in
      rw (receive_from-fits message s.receive_buff short) (
        rw (append_assoc (str_bytes word) rest old)
          (rw (get_string-str_bytes word (rest ++ old) small, until_nul-NoNul word text)))

  -- The same for a message that is a command alone.
  pub step-word :
      (word : Bytes) (s : StoreImpl Db)
      → NoNul word
      → length (str_bytes word) ≤ max_line
      → step r (str_bytes word) s
        ≡ serve r word (drop (length (str_bytes word)) s.receive_buff) (received (str_bytes word) s)
  step-word word s text short =
      subst (λ m. step r m s ≡ serve r word (drop (length m) s.receive_buff) (received m s))
        (append-nil (str_bytes word)) (step-message word [] s text (rw append-nil short))
