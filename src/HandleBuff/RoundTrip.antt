-- ===== src/HandleBuff/RoundTrip.antt =====
-- What the readers of my_code/handle_buff find where the writers have written.
use distributed_rocks_db_tes.Prelude.{
  ℕ, zero, suc, ◌+◌, ◌^◌, ◌≤◌, ◌<◌, ◌≡◌, refl, ap, [], ◌∷◌, ◌++◌, some, length, drop, length-append,
  All, drop-length_append, append_assoc, le→leb, arith, ◌≢◌,
}
use distributed_rocks_db_tes.Prelude.Bytes.{Bytes}
use distributed_rocks_db_tes.HandleBuff.{
  Cursor, whole, max_line, to_int, int_bytes, c_string, get_int_from_buff, get_string_from_buff,
  insert_str_to_buff, insert_int_to_buff,
}
use distributed_rocks_db_tes.HandleBuff.Writes.{
  str_bytes, advance, to_size_small, copy-fits, insert_str-fits, insert_int-fits,
}

-- The text before the first NUL: what a char array keeps of a string.
unfoldable pub until_nul : Bytes → Bytes
until_nul [] = []
until_nul (zero ∷ s) = []
until_nul (suc c ∷ s) = suc c ∷ until_nul s

abbrev pub NoNul : Bytes → Type 0
NoNul = All (λ c. c ≢ 0)

pub until_nul-NoNul : (s : Bytes) → NoNul s → until_nul s ≡ s
unfolding until_nul
until_nul-NoNul [] h = refl
until_nul-NoNul (zero ∷ s) h = absurd (h.0 refl)
until_nul-NoNul (suc c ∷ s) h = rw (until_nul-NoNul s h.1)

c_string-nul : (s : Bytes) → c_string (s ++ (0 ∷ [])) ≡ some (until_nul s)
unfolding c_string until_nul
c_string-nul [] = refl
c_string-nul (zero ∷ s) = refl
c_string-nul (suc c ∷ s) = rw (c_string-nul s)

pub get_int-int_bytes :
    (n : ℕ) (rest : Bytes) → n < 2 ^ 32 → get_int_from_buff (int_bytes n ++ rest) ≡ some (n, rest)
unfolding get_int_from_buff int_bytes
get_int-int_bytes n rest h = ap (λ (x : ℕ). some (x, rest)) (omega arith)

pub get_string-str_bytes :
    (s rest : Bytes)
    → length s < max_line
    → get_string_from_buff (str_bytes s ++ rest) ≡ some (until_nul s, rest)
unfolding get_string_from_buff str_bytes
get_string-str_bytes s rest h =
    let framed : Bytes = s ++ (0 ∷ []) in
    let size : length framed ≡ length s + 1 = length-append s (0 ∷ []) in
    rw (append_assoc (int_bytes (length s + 1)) framed rest) (
      rw (get_int-int_bytes (length s + 1) (framed ++ rest) (omega arith)) (
        rw
          (
            to_size_small (length s + 1) (omega arith),
            le→leb (length s + 1) max_line (omega arith),
            copy-fits framed rest (length s + 1) size,
            c_string-nul s,
          )
          (ap (λ (b : Bytes). some (until_nul s, b))
            (rw (← size) (drop-length_append framed rest)))))

pub drop-advance :
    (bytes : Bytes) (c : Cursor)
    → drop (length c.past) (whole (advance bytes c)) ≡ bytes ++ (advance bytes c).ahead
unfolding advance
drop-advance bytes c =
    rw (append_assoc c.past bytes (drop (length bytes) c.ahead)) (drop-length_append c.past _)

module _ (c : Cursor) (t : ℕ) where
  -- A string below MAXLINE bytes that fits the buffer is written, and a read from where the write
  -- began gives the string up to its first NUL and a pointer to just behind what was written. The
  -- count grows by the length and 5, modulo 2 ^ 32.
  pub get_string-insert_str :
      (s : Bytes)
      → length s < max_line
      → length s + 5 ≤ length c.ahead
      → (c' : Cursor) × (insert_str_to_buff c s t ≡ some (c', to_int (t + length s + 5)))
        × (get_string_from_buff (drop (length c.past) (whole c')) ≡ some (until_nul s, c'.ahead))
  get_string-insert_str s small room = (
    advance (str_bytes s) c,
    insert_str-fits c s t (omega arith) room,
    rw (drop-advance (str_bytes s) c) (get_string-str_bytes s _ small),
  )

  -- A 32-bit int that fits the buffer is written as four bytes, and is read back from where the
  -- write began, with a pointer to just behind it.
  pub get_int-insert_int :
      (a : ℕ)
      → a < 2 ^ 32
      → 4 ≤ length c.ahead
      → (c' : Cursor) × (insert_int_to_buff c a t ≡ some (c', to_int (t + 4)))
        × (get_int_from_buff (drop (length c.past) (whole c')) ≡ some (a, c'.ahead))
  get_int-insert_int a small room = (
    advance (int_bytes a) c,
    insert_int-fits c a t room,
    rw (drop-advance (int_bytes a) c) (get_int-int_bytes a _ small),
  )
