-- ===== src/Tests/Buffers.antt =====
-- Examples for HandleBuff and the codecs.
use distributed_rocks_db_tes.Prelude.{
  ◌+◌, ◌≡◌, none, some, [], ◌∷◌, ◌++◌, length, drop, arith, refl,
}
use distributed_rocks_db_tes.Prelude.Bytes.{codes}
use distributed_rocks_db_tes.HandleBuff
use distributed_rocks_db_tes.HandleBuff.{
  Cursor, whole, to_int, get_string_from_buff, get_int_from_buff, insert_str_to_buff,
  insert_int_to_buff, insert_str_s_to_buff, max_line,
}
use distributed_rocks_db_tes.HandleBuff.Writes.{advance, strs_bytes, str_bytes, insert_str_s-frames}
use distributed_rocks_db_tes.HandleBuff.RoundTrip.{until_nul, get_string-insert_str}
use distributed_rocks_db_tes.HandleBuff.Overflow.{insert_str-overflow, get_string-overflow}
use distributed_rocks_db_tes.Tests.Samples.{small_cursor, zeros, length-zeros}

get_string-insert_str_example :
    (c' : Cursor) × (insert_str_to_buff small_cursor (codes "key") 7 ≡ some (c', to_int 15))
    × (get_string_from_buff (drop 2 (whole c')) ≡ some (until_nul (codes "key"), c'.ahead))
get_string-insert_str_example =
    get_string-insert_str small_cursor 7 (codes "key") (omega arith) (omega arith)

insert_str_s-frames_example :
    insert_str_s_to_buff small_cursor (codes "a" ∷ []) 3
    ≡ some (
      advance (strs_bytes (codes "a" ∷ [])) small_cursor,
      to_int (3 + length (strs_bytes (codes "a" ∷ []))),
    )
insert_str_s-frames_example = insert_str_s-frames small_cursor (codes "a" ∷ []) 3 (omega arith)

insert_str-overflow_example : insert_str_to_buff small_cursor (codes "longer") 0 ≡ none
insert_str-overflow_example =
    insert_str-overflow small_cursor (codes "longer") 0 (omega arith) (omega arith)

get_string-overflow_example : get_string_from_buff (str_bytes (zeros max_line) ++ []) ≡ none
get_string-overflow_example =
    get_string-overflow (zeros max_line) [] (omega (arith, length-zeros max_line))
      (omega (arith, length-zeros max_line))

-- The writer and the reader run.
key_frame :
    insert_str_to_buff small_cursor (codes "key") 7
    ≡ some
        (record { past = 1 ∷ 2 ∷ 4 ∷ 0 ∷ 0 ∷ 0 ∷ 107 ∷ 101 ∷ 121 ∷ 0 ∷ []; ahead = 9 ∷ 9 ∷ [] }, 15)
unfolding insert_str_to_buff HandleBuff.write HandleBuff.to_size HandleBuff.int_bytes
    HandleBuff.copy
key_frame = refl
