-- ===== src/HandleBuff/Overflow.antt =====
-- Where the buffers of my_code/handle_buff are too small: the source writes or copies past their end.
use distributed_rocks_db_tes.Prelude.{
  ℕ, ◌+◌, ◌^◌, ◌≤◌, ◌<◌, ◌≡◌, false, [], ◌∷◌, ◌++◌, none, leb, length, length-append, append_assoc,
  arith, inl, inr, Bool-cases, leb→le,
}
use distributed_rocks_db_tes.Prelude.Bytes.{Bytes}
use distributed_rocks_db_tes.HandleBuff.{
  Cursor, max_line, int_bytes, write, get_string_from_buff, insert_str_to_buff,
}
use distributed_rocks_db_tes.HandleBuff.Writes.{
  str_bytes, advance, length-advance, length-int_bytes, to_int_small, to_size_small, copy_all,
  write-fits,
}
use distributed_rocks_db_tes.HandleBuff.RoundTrip.{get_int-int_bytes}

lt→leb : (a b : ℕ) → a < b → leb b a ≡ false
lt→leb a b h = ground arith

write-none : (bytes : Bytes) (c : Cursor) → length c.ahead < length bytes → write bytes c ≡ none
unfolding write
write-none bytes c h = rw (lt→leb _ _ h)

-- A string whose frame does not fit behind the pointer is written past the end of the buffer: the
-- writer makes no check.
pub insert_str-overflow :
    (c : Cursor) (s : Bytes) (t : ℕ)
    → length s + 1 < 2 ^ 31
    → length c.ahead < length s + 5
    → insert_str_to_buff c s t ≡ none
unfolding insert_str_to_buff
insert_str-overflow c s t small full =
    let framed : Bytes = s ++ (0 ∷ []) in
    let size : length framed ≡ length s + 1 = length-append s (0 ∷ []) in
    let len : Bytes = int_bytes (length s + 1) in
    elim (Bool-cases (leb 4 (length c.ahead))) [
      | inl some_room ↦ rw (
        to_int_small _ small,
        to_size_small _ small,
        write-fits len c
            (leb→le (length len) (length c.ahead) (rw (length-int_bytes (length s + 1)) some_room)),
        copy_all framed (length s + 1) size,
        write-none framed (advance len c)
            (omega (arith, size, length-advance len c, length-int_bytes (length s + 1))),
      )
      | inr no_room ↦ rw (
        to_int_small _ small,
        write-none len c (rw (length-int_bytes (length s + 1)) (ground arith)),
      )
    ]

-- A string of MAXLINE bytes or more, in a buffer, is copied past the end of the reader's array.
pub get_string-overflow :
    (s rest : Bytes)
    → length s + 1 < 2 ^ 31
    → max_line ≤ length s
    → get_string_from_buff (str_bytes s ++ rest) ≡ none
unfolding get_string_from_buff str_bytes
get_string-overflow s rest small long =
    rw (append_assoc (int_bytes (length s + 1)) (s ++ (0 ∷ [])) rest) (
      rw (get_int-int_bytes (length s + 1) ((s ++ (0 ∷ [])) ++ rest) (omega arith))
        (rw (to_size_small (length s + 1) small, lt→leb max_line (length s + 1) (omega arith))))
