-- ===== src/ControlNode/ControlImpl/Questions.antt =====
-- The control process asks a node for its size, whether it has at most one entry, and for a value.
use distributed_rocks_db_tes.Prelude.{
  ℕ, ◌+◌, ◌^◌, append_assoc, ◌≡◌, refl, some, ◌++◌, arith, length, leb, ◌≤◌, ◌<◌, length-append,
  drop, Bool, true, false, not, ◌==◌,
}
use distributed_rocks_db_tes.Prelude.Bytes.{Bytes}
use distributed_rocks_db_tes.ConstValues.{get_word, size_word, less_or_equal_one_word}
use distributed_rocks_db_tes.HandleBuff.{
  start_of, max_line, to_int, int_bytes, get_int_from_buff, get_string_from_buff,
}
use distributed_rocks_db_tes.HandleBuff.Writes.{
  str_bytes, length-str_bytes, length-int_bytes, insert_str-fits, advance, advance-advance,
  length-advance,
}
use distributed_rocks_db_tes.HandleBuff.RoundTrip.{
  NoNul, until_nul-NoNul, get_string-str_bytes, get_int-int_bytes,
}
use distributed_rocks_db_tes.Rocks.{Rocks, IsRocks}
use distributed_rocks_db_tes.Rocks.Entries.{Rows, lookup}
use distributed_rocks_db_tes.DbHandle.{value_or_empty}
use distributed_rocks_db_tes.DbHandle.Counts.{bytes_of}
use distributed_rocks_db_tes.StoreNode.StoreData.Size.{IsSized}
use distributed_rocks_db_tes.StoreNode.StoreImpl.Loop.{int_of_bool}
use distributed_rocks_db_tes.NetConnect.NetFile.{receive_from}
use distributed_rocks_db_tes.StoreNode.StoreImpl.Messages.{receive_from-fits}
use distributed_rocks_db_tes.StoreNode.StoreImpl.Queries.{
  get_message, step-get, step-size, step-less_or_equal_one,
}
use distributed_rocks_db_tes.ControlNode.ControlMeta.{ControlMeta}
use distributed_rocks_db_tes.ControlNode.ControlImpl.{
  ControlImpl, get_size, get_store_less_or_equal_one, find, meta_at, get,
}
use distributed_rocks_db_tes.ControlNode.ControlImpl.Requests.{
  OnlyNode, Reaches, talked, exchange-talked, talked-Reaches, talked-OnlyNode, ask-talked,
}

get_int-receive :
    (n : ℕ) (buff : Bytes)
    → n < 2 ^ 32
    → get_int_from_buff (receive_from (int_bytes n) buff)
      ≡ some (n, drop (length (int_bytes n)) buff)
get_int-receive n buff h =
    rw (receive_from-fits (int_bytes n) buff (omega (arith, length-int_bytes n)))
      (get_int-int_bytes n _ h)

pub get_string-receive :
    (s rest buff : Bytes)
    → NoNul s
    → length (str_bytes s ++ rest) ≤ max_line
    → get_string_from_buff (receive_from (str_bytes s ++ rest) buff)
      ≡ some (s, rest ++ drop (length (str_bytes s ++ rest)) buff)
get_string-receive s rest buff text short =
    rw
      (
        receive_from-fits (str_bytes s ++ rest) buff short,
        append_assoc (str_bytes s) rest (drop (length (str_bytes s ++ rest)) buff),
        get_string-str_bytes s (rest ++ drop (length (str_bytes s ++ rest)) buff)
            (omega (arith, length-append {0} (str_bytes s) rest, length-str_bytes s)),
        until_nul-NoNul s text,
      )
      refl

pub get_string-receive_all :
    (s buff : Bytes)
    → NoNul s
    → length s + 5 ≤ max_line
    → get_string_from_buff (receive_from (str_bytes s) buff)
      ≡ some (s, drop (length (str_bytes s)) buff)
get_string-receive_all s buff text short =
    rw
      (
        receive_from-fits (str_bytes s) buff (omega (arith, length-str_bytes s)),
        get_string-str_bytes s (drop (length (str_bytes s)) buff) (omega arith),
        until_nul-NoNul s text,
      )
      refl

int_of_bool_small : (b : Bool) → int_of_bool b < 2 ^ 32
int_of_bool_small true = omega arith
int_of_bool_small false = omega arith

truth_of_int : (b : Bool) → not (int_of_bool b == 0) ≡ b
truth_of_int true = refl
truth_of_int false = refl

module _ {Db Iterator : Type 0} (r : Rocks Db Iterator) (laws : IsRocks r) {c : ControlImpl Db}
    {virtual_fd : ℕ} {stored kept : Rows} (h : Reaches r laws c virtual_fd stored kept) where
  -- The size that the control process gets from a node whose count is exact is that of the node's
  -- entries, as an int; the entries and the log of the node, the metadata and the other nodes stay.
  pub get_size-Reaches :
      IsSized r laws h.node.store_data
      → (c' : ControlImpl Db) × (get_size r virtual_fd c ≡ some (c', to_int (bytes_of stored)))
        × Reaches r laws c' virtual_fd stored kept
        × OnlyNode virtual_fd c c'
  unfolding get_size talked
  get_size-Reaches sized =
      let (node', e, g) = step-size r laws h.holds sized in
      let reply : Bytes = int_bytes (to_int (bytes_of stored)) in
      (
        talked r laws virtual_fd (str_bytes size_word) node' reply c,
        rw (ask-talked r laws size_word h reply node' (omega arith) e)
            (rw (get_int-receive (to_int (bytes_of stored)) c.receive_buff (omega arith)) refl),
        talked-Reaches r laws h (str_bytes size_word) reply node'
            (omega (arith, length-str_bytes size_word))
            (omega (arith, length-int_bytes (to_int (bytes_of stored)))) g,
        talked-OnlyNode r laws virtual_fd (str_bytes size_word) reply node' c,
      )

  -- The control process learns whether a node has at most one entry; the entries and the log of the
  -- node, the metadata and the other nodes stay.
  pub get_store_less_or_equal_one-Reaches :
      (c' : ControlImpl Db) × (get_store_less_or_equal_one r virtual_fd c
        ≡ some (c', leb (length stored) 1))
      × Reaches r laws c' virtual_fd stored kept
      × OnlyNode virtual_fd c c'
  unfolding get_store_less_or_equal_one talked
  get_store_less_or_equal_one-Reaches =
      let (node', e, g) = step-less_or_equal_one r laws h.holds in
      let word : Bytes = less_or_equal_one_word in
      let few : Bool = leb (length stored) 1 in
      let reply : Bytes = int_bytes (int_of_bool few) in
      (
        talked r laws virtual_fd (str_bytes word) node' reply c,
        rw (ask-talked r laws word h reply node' (omega arith) e) (
            rw (get_int-receive (int_of_bool few) c.receive_buff (int_of_bool_small few))
              (rw (truth_of_int few) refl)),
        talked-Reaches r laws h (str_bytes word) reply node' (omega (arith, length-str_bytes word))
            (omega (arith, length-int_bytes (int_of_bool few))) g,
        talked-OnlyNode r laws virtual_fd (str_bytes word) reply node' c,
      )

-- The control process gets the value that the node has for a key, or the empty string if it has
-- none, where the search of the metadata stops at that node; the entries and the log of the node, the
-- metadata and the other nodes stay.
pub get-Reaches :
    {Db Iterator : Type 0} (r : Rocks Db Iterator) (laws : IsRocks r) (key : Bytes)
    (m : ControlMeta) {c : ControlImpl Db} {stored kept : Rows}
    → meta_at r (find r key c) ≡ some m
    → Reaches r laws c m.virtual_fd stored kept
    → NoNul key
    → NoNul (value_or_empty (lookup key stored))
    → length key + 13 ≤ max_line
    → length (value_or_empty (lookup key stored)) + 5 ≤ max_line
    → (c' : ControlImpl Db) × (get r key c ≡ some (c', value_or_empty (lookup key stored)))
      × Reaches r laws c' m.virtual_fd stored kept
      × OnlyNode m.virtual_fd c c'
unfolding get talked
get-Reaches {Db} r laws key m {c} {stored} found h text value_text short fits =
    let (node', e, g) = step-get r laws h.holds key text short fits in
    let value : Bytes = value_or_empty (lookup key stored) in
    let message : Bytes = get_message key in
    let reply : Bytes = str_bytes value in
    let size : length message ≡ length key + 13 = omega (
      arith,
      length-append {0} (str_bytes get_word) (str_bytes key),
      length-str_bytes get_word,
      length-str_bytes key,
    ) in
    let c' : ControlImpl Db = talked r laws m.virtual_fd message node' reply c in
    (
      c',
      rw found (
          rw
            (
              insert_str-fits (start_of c.send_buff) get_word 0 (omega arith)
                  (omega (arith, h.send_room)),
              insert_str-fits (advance (str_bytes get_word) (start_of c.send_buff)) key
                  (to_int (0 + length get_word + 5)) (omega arith)
                  (omega (
                    arith,
                    h.send_room,
                    length-str_bytes get_word,
                    length-advance (str_bytes get_word) (start_of c.send_buff),
                  )),
              advance-advance (str_bytes get_word) (str_bytes key) (start_of c.send_buff),
              exchange-talked r laws h message reply node'
                  (to_int (to_int (0 + length get_word + 5) + length key + 5)) (omega (arith, size))
                  (omega arith) e,
            )
            (rw (get_string-receive_all value c.receive_buff value_text fits) refl)),
      talked-Reaches r laws h message reply node' (omega (arith, size))
          (omega (arith, length-str_bytes value)) g,
      talked-OnlyNode r laws m.virtual_fd message reply node' c,
    )
