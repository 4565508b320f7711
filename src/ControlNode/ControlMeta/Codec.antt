-- ===== src/ControlNode/ControlMeta/Codec.antt =====
-- The metadata of a storage process read back from its bytes.
use mathlib.Core.Path.{ap₂}
use distributed_rocks_db_tes.Prelude.{
  ℕ, ◌+◌, ◌^◌, ◌<◌, ◌≤◌, ◌≡◌, ◌∙◌, some, [], ◌++◌, length, arith, append_assoc, append-nil,
  length-append, take-length_append,
}
use distributed_rocks_db_tes.Prelude.Bytes.{Bytes}
use distributed_rocks_db_tes.HandleBuff.{Cursor, to_int, int_bytes, max_line}
use distributed_rocks_db_tes.HandleBuff.Writes.{
  str_bytes, advance, advance-advance, length-str_bytes, length-int_bytes, length-advance,
  insert_int-fits, insert_str-fits, to_size_small,
}
use distributed_rocks_db_tes.HandleBuff.RoundTrip.{
  NoNul, until_nul-NoNul, get_int-int_bytes, get_string-str_bytes, drop-advance,
}
use distributed_rocks_db_tes.StoreNode.StoreLog.{slice_bytes}
use distributed_rocks_db_tes.ControlNode.ControlMeta.{ControlMeta, to_slice, of_slice}

unfoldable pub meta_bytes : ControlMeta → Bytes
meta_bytes m = str_bytes m.min_str ++ (str_bytes m.max_str ++ int_bytes m.virtual_fd)

abbrev pub meta_size : ControlMeta → ℕ
meta_size m = length m.min_str + length m.max_str + 14

-- Strings with no NUL that a read buffer holds, and a 32-bit number.
pub record IsStorable (m : ControlMeta) : Type 0 where
  pub min_text : NoNul m.min_str
  pub max_text : NoNul m.max_str
  pub min_short : length m.min_str < max_line
  pub max_short : length m.max_str < max_line
  pub fd_int : m.virtual_fd < 2 ^ 32

pub length-meta_bytes : (m : ControlMeta) → length (meta_bytes m) ≡ meta_size m
unfolding meta_bytes
length-meta_bytes m = omega (
  arith,
  length-append {0} (str_bytes m.min_str) (str_bytes m.max_str ++ int_bytes m.virtual_fd),
  length-append {0} (str_bytes m.max_str) (int_bytes m.virtual_fd),
  length-str_bytes m.min_str,
  length-str_bytes m.max_str,
  length-int_bytes m.virtual_fd,
)

pub of_slice-meta_bytes :
    (m : ControlMeta) (rest : Bytes) → IsStorable m → of_slice (meta_bytes m ++ rest) ≡ some m
unfolding of_slice meta_bytes
of_slice-meta_bytes m rest h =
    let low : Bytes = str_bytes m.min_str in
    let high : Bytes = str_bytes m.max_str in
    let fd : Bytes = int_bytes m.virtual_fd in
    rw (append_assoc low (high ++ fd) rest, append_assoc high fd rest)
      (rw (get_string-str_bytes m.min_str (high ++ (fd ++ rest)) h.min_short) (
        rw (get_string-str_bytes m.max_str (fd ++ rest) h.max_short) (
          rw (get_int-int_bytes m.virtual_fd rest h.fd_int)
            (rw (until_nul-NoNul m.min_str h.min_text, until_nul-NoNul m.max_str h.max_text)))))

pub to_slice-fits :
    (m : ControlMeta) (c : Cursor)
    → meta_size m < 2 ^ 31
    → meta_size m ≤ length c.ahead
    → to_slice m c ≡ some (advance (meta_bytes m) c, meta_size m)
unfolding to_slice meta_bytes
to_slice-fits m c small room =
    let low : Bytes = str_bytes m.min_str in
    let high : Bytes = str_bytes m.max_str in
    let one : Cursor = advance low c in
    let two : Cursor = advance high one in
    let room_one : length m.max_str + 9 ≤ length one.ahead =
      omega (arith, length-advance low c, length-str_bytes m.min_str) in
    let room_two : 4 ≤ length two.ahead =
      omega (arith, room_one, length-advance high one, length-str_bytes m.max_str) in
    rw (insert_str-fits c m.min_str 0 (omega arith) (omega arith)) (
      rw
        (insert_str-fits one m.max_str (to_int (0 + length m.min_str + 5)) (omega arith)
          (omega (arith, room_one)))
        (rw (insert_int-fits two m.virtual_fd _ room_two) (
          ap₂ (λ (d : Cursor) (n : ℕ). some (d, n))
            (advance-advance high (int_bytes m.virtual_fd) one ∙ advance-advance low _ c)
            (omega arith))))

-- Metadata with strings that have no NUL and are below MAXLINE bytes, written where it fits, is read
-- back as it was from the slice that `to_slice` returns.
pub of_slice-to_slice :
    (m : ControlMeta) (c : Cursor)
    → IsStorable m
    → meta_size m ≤ length c.ahead
    → (end : Cursor) × (to_slice m c ≡ some (end, meta_size m))
      × (of_slice (slice_bytes c end (meta_size m)) ≡ some m)
of_slice-to_slice m c h room =
    let small : meta_size m < 2 ^ 31 = omega (arith, h.min_short, h.max_short) in
    (
      advance (meta_bytes m) c,
      to_slice-fits m c small room,
      rw (drop-advance (meta_bytes m) c, to_size_small (meta_size m) small, ← length-meta_bytes m)
          (rw (take-length_append (meta_bytes m) (advance (meta_bytes m) c).ahead)
            (rw append-nil at (of_slice-meta_bytes m [] h))),
    )
