-- ===== src/HandleBuff/Interface.antt =====
-- What my_code/handle_buff/handle_buff.h declares of the writers and the readers, and what it says of
-- them: a string lies in a buffer as its length and its bytes, objects lie one behind another, the
-- pointer that is returned is that of the next one, and the total grows by what was written.
use distributed_rocks_db_tes.Prelude.{
  ℕ, ◌+◌, ◌^◌, List, Option, some, length, drop, ◌≡◌, ◌<◌, ◌≤◌, ◌∙◌, ap,
}
use distributed_rocks_db_tes.Prelude.Bytes.{Bytes}
use distributed_rocks_db_tes.HandleBuff
use distributed_rocks_db_tes.HandleBuff.{Cursor, whole, to_int, max_line}
use distributed_rocks_db_tes.HandleBuff.RoundTrip.{
  NoNul, until_nul-NoNul, get_string-insert_str, get_int-insert_int,
}

pub record Framing : Type 0 where
  pub get_string_from_buff : Bytes → Option (Bytes × Bytes)
  pub insert_str_to_buff : Cursor → Bytes → ℕ → Option (Cursor × ℕ)
  pub insert_int_to_buff : Cursor → ℕ → ℕ → Option (Cursor × ℕ)
  pub get_int_from_buff : Bytes → Option (ℕ × Bytes)
  pub insert_str_s_to_buff : Cursor → List Bytes → ℕ → Option (Cursor × ℕ)

-- The bytes of the allocation from where a pointer stood before it was moved.
abbrev pub behind : Cursor → Cursor → Bytes
behind start end = drop (length start.past) (whole end)

pub record IsFraming (f : Framing) : Type 0 where
  pub string_lem :
      (c : Cursor) (t : ℕ) (s : Bytes)
      → NoNul s
      → length s < max_line
      → length s + 5 ≤ length c.ahead
      → (c' : Cursor) × (f.insert_str_to_buff c s t ≡ some (c', to_int (t + length s + 5)))
        × (f.get_string_from_buff (behind c c') ≡ some (s, c'.ahead))
  pub int_lem :
      (c : Cursor) (t a : ℕ)
      → a < 2 ^ 32
      → 4 ≤ length c.ahead
      → (c' : Cursor) × (f.insert_int_to_buff c a t ≡ some (c', to_int (t + 4)))
        × (f.get_int_from_buff (behind c c') ≡ some (a, c'.ahead))

abbrev pub framing : Framing
framing = record {
  get_string_from_buff = HandleBuff.get_string_from_buff;
  insert_str_to_buff = HandleBuff.insert_str_to_buff;
  insert_int_to_buff = HandleBuff.insert_int_to_buff;
  get_int_from_buff = HandleBuff.get_int_from_buff;
  insert_str_s_to_buff = HandleBuff.insert_str_s_to_buff;
}

-- Strings with no NUL and ints are read back as they were written, with the pointer to the next object.
pub framing-IsFraming : IsFraming framing
framing-IsFraming = record {
  string_lem = λ c t s text small room.
      let (c', e, g) = get_string-insert_str c t s small room in
      (c', e, g ∙ ap (λ (text' : Bytes). some (text', c'.ahead)) (until_nul-NoNul s text));
  int_lem = get_int-insert_int;
}
