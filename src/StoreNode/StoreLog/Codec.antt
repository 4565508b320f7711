-- ===== src/StoreNode/StoreLog/Codec.antt =====
-- A log entry read back from its bytes, from a buffer or from the key of the log's database.
use distributed_rocks_db_tes.Prelude.{
  ℕ, ◌+◌, ◌^◌, ◌<◌, ◌≤◌, ◌≡◌, refl, ◌∙◌, some, [], ◌++◌, length, drop, arith, append_assoc,
  append-nil, length-append, take-length_append,
}
use mathlib.Core.Path.{ap₂}
use distributed_rocks_db_tes.Prelude.Bytes.{Bytes}
use distributed_rocks_db_tes.HandleBuff.{Cursor, whole, to_int, int_bytes, max_line}
use distributed_rocks_db_tes.HandleBuff.Writes.{
  str_bytes, advance, advance-advance, length-str_bytes, length-advance, insert_int-fits,
  insert_str-fits, to_size_small, length-int_bytes,
}
use distributed_rocks_db_tes.HandleBuff.RoundTrip.{
  until_nul-NoNul, NoNul, get_int-int_bytes, get_string-str_bytes, drop-advance,
}
use distributed_rocks_db_tes.StoreNode.StoreLog.{
  LogKind, put, delete, error, unnamed, int_of_kind, kind_of_int, Log, to_slice, slice_bytes,
  log_of_buff, log_of_slice,
}

-- The bytes of an entry.
unfoldable pub log_bytes : Log → Bytes
log_bytes log = int_bytes (int_of_kind log.kind) ++ (str_bytes log.key ++ str_bytes log.value)

-- A kind that has a name.
abbrev pub IsNamed : LogKind → Type 0
IsNamed (unnamed n) = ⊥
IsNamed kind = Unit {0}

-- An entry that is read back as it was written: a named kind, and strings with no NUL that a read
-- buffer holds.
pub record IsStorable (log : Log) : Type 0 where
  pub named : IsNamed log.kind
  pub key_text : NoNul log.key
  pub value_text : NoNul log.value
  pub key_short : length log.key < max_line
  pub value_short : length log.value < max_line

kind_of_int-int_of_kind : (kind : LogKind) → IsNamed kind → kind_of_int (int_of_kind kind) ≡ kind
unfolding kind_of_int int_of_kind
kind_of_int-int_of_kind put h = refl
kind_of_int-int_of_kind delete h = refl
kind_of_int-int_of_kind error h = refl
kind_of_int-int_of_kind (unnamed n) h = absurd h

int_of_kind_small : (kind : LogKind) → IsNamed kind → int_of_kind kind < 2 ^ 32
unfolding int_of_kind
int_of_kind_small put h = omega arith
int_of_kind_small delete h = omega arith
int_of_kind_small error h = omega arith
int_of_kind_small (unnamed n) h = absurd h

pub log_of_slice-eq : (bytes : Bytes) → log_of_slice bytes ≡ log_of_buff bytes
unfolding log_of_slice log_of_buff
log_of_slice-eq bytes = refl

pub log_of_buff-log_bytes :
    (log : Log) (rest : Bytes) → IsStorable log → log_of_buff (log_bytes log ++ rest) ≡ some log
unfolding log_of_buff log_bytes
log_of_buff-log_bytes log rest h =
    let kind : Bytes = int_bytes (int_of_kind log.kind) in
    let key : Bytes = str_bytes log.key in
    let value : Bytes = str_bytes log.value in
    rw (append_assoc kind (key ++ value) rest, append_assoc key value rest)
      (rw
        (get_int-int_bytes (int_of_kind log.kind) (key ++ (value ++ rest))
          (int_of_kind_small log.kind h.named))
        (rw (get_string-str_bytes log.key (value ++ rest) h.key_short) (
          rw (get_string-str_bytes log.value rest h.value_short) (
            rw (
              until_nul-NoNul log.key h.key_text,
              until_nul-NoNul log.value h.value_text,
              kind_of_int-int_of_kind log.kind h.named,
            )))))

abbrev pub log_size : Log → ℕ
log_size log = length log.key + length log.value + 14

pub length-log_bytes : (log : Log) → length (log_bytes log) ≡ log_size log
unfolding log_bytes int_bytes
length-log_bytes log = omega (
  arith,
  length-append {0} (str_bytes log.key) (str_bytes log.value),
  length-str_bytes log.key,
  length-str_bytes log.value,
)

module _ (log : Log) (c : Cursor) (small : log_size log < 2 ^ 31)
    (room : log_size log ≤ length c.ahead) where
  pub to_slice-fits : to_slice log c ≡ some (advance (log_bytes log) c, log_size log)
  unfolding to_slice log_bytes
  to_slice-fits =
      let kind : Bytes = int_bytes (int_of_kind log.kind) in
      let one : Cursor = advance kind c in
      let two : Cursor = advance (str_bytes log.key) one in
      let room_one : length log.key + length log.value + 10 ≤ length one.ahead =
        omega (arith, length-advance kind c, length-int_bytes (int_of_kind log.kind)) in
      let room_two : length log.value + 5 ≤ length two.ahead =
        omega (arith, room_one, length-advance (str_bytes log.key) one, length-str_bytes log.key) in
      rw (insert_int-fits c (int_of_kind log.kind) 0 (omega arith)) (
        rw (insert_str-fits one log.key (to_int 4) (omega arith) (omega (arith, room_one))) (
          rw
            (insert_str-fits two log.value (to_int (to_int 4 + length log.key + 5)) (omega arith)
              room_two)
            (ap₂ (λ (d : Cursor) (n : ℕ). some (d, n))
              (advance-advance (str_bytes log.key) (str_bytes log.value) one
                ∙ advance-advance kind _ c)
              (omega arith))))

  pub slice_bytes-advance : slice_bytes c (advance (log_bytes log) c) (log_size log) ≡ log_bytes log
  slice_bytes-advance =
      rw
        (drop-advance (log_bytes log) c, to_size_small (log_size log) small, ← length-log_bytes log)
        (take-length_append (log_bytes log) _)

-- An entry with a named kind and strings with no NUL below MAXLINE bytes, written where it fits, is
-- read back from there, and from the slice that `to_slice` returns.
pub log_of_buff-to_slice :
    (log : Log) (c : Cursor)
    → IsStorable log
    → log_size log ≤ length c.ahead
    → (end : Cursor) × (to_slice log c ≡ some (end, log_size log))
      × (log_of_buff (drop (length c.past) (whole end)) ≡ some log)
      × (log_of_slice (slice_bytes c end (log_size log)) ≡ some log)
log_of_buff-to_slice log c h room =
    let small : log_size log < 2 ^ 31 = omega (arith, h.key_short, h.value_short) in
    (
      advance (log_bytes log) c,
      to_slice-fits log c small room,
      rw (drop-advance (log_bytes log) c) (log_of_buff-log_bytes log _ h),
      rw (slice_bytes-advance log c small room, log_of_slice-eq (log_bytes log))
          (rw append-nil at (log_of_buff-log_bytes log [] h)),
    )
