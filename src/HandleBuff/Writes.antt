-- ===== src/HandleBuff/Writes.antt =====
-- What the writers of my_code/handle_buff put into the buffer, and how far they move the pointer.
use distributed_rocks_db_tes.Prelude.{
  ℕ, ◌+◌, ◌-◌, ◌^◌, ◌≤◌, ◌<◌, ◌≡◌, refl, sym, ap, subst, List, [], ◌∷◌, ◌++◌, some, length, drop,
  length-append, length-drop, take-length_append, drop-drop, append_assoc, append-nil, le→leb,
  lt→ltb, arith,
}
use mathlib.Core.Path.{ap₂}
use distributed_rocks_db_tes.Prelude.Bytes.{Bytes}
use distributed_rocks_db_tes.HandleBuff.{
  Cursor, whole, write, to_int, to_size, int_bytes, copy, insert_str_to_buff, insert_int_to_buff,
  insert_each, insert_str_s_to_buff,
}

-- A string in a buffer: the length with the final NUL, the bytes, the NUL.
unfoldable pub str_bytes : Bytes → Bytes
unfolding int_bytes
str_bytes s = int_bytes (length s + 1) ++ (s ++ (0 ∷ []))

unfoldable pub strs_bytes : List Bytes → Bytes
strs_bytes [] = []
strs_bytes (s ∷ r) = str_bytes s ++ strs_bytes r

-- The cursor moved over `bytes`, which are written.
unfoldable pub advance : Bytes → Cursor → Cursor
advance bytes c = record { past = c.past ++ bytes; ahead = drop (length bytes) c.ahead }

pub length-str_bytes : (s : Bytes) → length (str_bytes s) ≡ length s + 5
unfolding str_bytes
length-str_bytes s = omega (arith, length-append {0} s (0 ∷ []))

pub length-int_bytes : (n : ℕ) → length (int_bytes n) ≡ 4
unfolding int_bytes
length-int_bytes n = refl

pub write-fits :
    (bytes : Bytes) (c : Cursor)
    → length bytes ≤ length c.ahead
    → write bytes c ≡ some (advance bytes c)
unfolding write advance
write-fits bytes c h = rw (le→leb _ _ h)

advance-nil : (c : Cursor) → advance [] c ≡ c
unfolding advance
advance-nil c = ap (λ (p : Bytes). record c { past = p }) (append-nil c.past)

pub advance-advance : (a b : Bytes) (c : Cursor) → advance b (advance a c) ≡ advance (a ++ b) c
unfolding advance
advance-advance a b c = simp (append_assoc, drop-drop, length-append)

pub to_int_small : (n : ℕ) → n < 2 ^ 31 → to_int n ≡ n
to_int_small n h = omega arith

pub to_size_small : (n : ℕ) → n < 2 ^ 31 → to_size n ≡ n
unfolding to_size
to_size_small n h = rw (lt→ltb n (2 ^ 31) h)

pub copy-fits :
    (src rest : Bytes) (size : ℕ) → length src ≡ size → copy (src ++ rest) size ≡ some src
unfolding copy
copy-fits src rest size e = rw (← e) (
    rw (
      le→leb (length src) (length (src ++ rest)) (omega (arith, length-append {0} src rest)),
      take-length_append src rest,
    ))

pub copy_all : (src : Bytes) (size : ℕ) → length src ≡ size → copy src size ≡ some src
copy_all src size e =
    rw (ap (λ (x : Bytes). copy x size) (append-nil src)) at (copy-fits src [] size e)

advance_room :
    (a : Bytes) (c : Cursor) (n : ℕ)
    → length a + n ≤ length c.ahead
    → n ≤ length (advance a c).ahead
unfolding advance
advance_room a c n h = omega (arith, length-drop {0} (length a) c.ahead)

module _ (c : Cursor) (s : Bytes) (t : ℕ) where
  -- Where the string and its frame fit, the writer stores the length, the bytes and a NUL, and moves
  -- the pointer and the count over them.
  pub insert_str-fits :
      length s + 1 < 2 ^ 31
      → length s + 5 ≤ length c.ahead
      → insert_str_to_buff c s t ≡ some (advance (str_bytes s) c, to_int (t + length s + 5))
  unfolding insert_str_to_buff
  insert_str-fits small room =
      let framed : Bytes = s ++ (0 ∷ []) in
      let size : length framed ≡ length s + 1 = length-append s (0 ∷ []) in
      let len : Bytes = int_bytes (length s + 1) in
      let first : write len c ≡ some (advance len c) =
        write-fits len c (unfold int_bytes in omega arith) in
      let second : write framed (advance len c) ≡ some (advance framed (advance len c)) =
        write-fits framed (advance len c)
          (advance_room len c _ (unfold int_bytes in omega (arith, size))) in
      rw
        (
          to_int_small _ small,
          to_size_small _ small,
          first,
          copy_all framed (length s + 1) size,
          second,
        )
        (rw (advance-advance len framed c)
          (unfold str_bytes in ap (λ (n : ℕ). some (advance (len ++ framed) c, n)) (omega arith)))

pub insert_int-fits :
    (c : Cursor) (a t : ℕ)
    → 4 ≤ length c.ahead
    → insert_int_to_buff c a t ≡ some (advance (int_bytes a) c, to_int (t + 4))
unfolding insert_int_to_buff
insert_int-fits c a t room = rw (write-fits (int_bytes a) c (unfold int_bytes in room))

-- The strings fit their ints and the buffer.
abbrev pub Fits : List Bytes → ℕ → Type 0
Fits [] room = Unit {0}
Fits (s ∷ r) room = (length s + 1 < 2 ^ 31) × (length s + 5 ≤ room) × Fits r (room - (length s + 5))

pub length-advance :
    (bytes : Bytes) (c : Cursor) → length (advance bytes c).ahead ≡ length c.ahead - length bytes
unfolding advance
length-advance bytes c = length-drop (length bytes) c.ahead

pub length-whole-advance :
    (bytes : Bytes) (c : Cursor)
    → length bytes ≤ length c.ahead
    → length (whole (advance bytes c)) ≡ length (whole c)
unfolding advance
length-whole-advance bytes c h = omega (
  arith,
  length-append {0} (c.past ++ bytes) (drop (length bytes) c.ahead),
  length-append {0} c.past bytes,
  length-append {0} c.past c.ahead,
  length-drop {0} (length bytes) c.ahead,
)

pub insert_each-advance :
    (c : Cursor) (strs : List Bytes) (t : ℕ)
    → t < 2 ^ 32
    → Fits strs (length c.ahead)
    → insert_each c strs t
      ≡ some (advance (strs_bytes strs) c, to_int (t + length (strs_bytes strs)))
unfolding insert_each strs_bytes
insert_each-advance c [] t small h =
    ap₂ (λ (d : Cursor) (n : ℕ). some (d, n)) (sym (advance-nil c)) (omega arith)
insert_each-advance c (s ∷ r) t small h = rw (insert_str-fits c s t h.0 h.1) (
    rw
      (
        insert_each-advance (advance (str_bytes s) c) r (to_int (t + length s + 5)) (omega arith)
            (subst (Fits r) (rw length-advance (rw (length-str_bytes s))) h.2),
        advance-advance (str_bytes s) (strs_bytes r) c,
      )
      (ap (λ (n : ℕ). some (advance (str_bytes s ++ strs_bytes r) c, n))
        (omega (arith, length-append {0} (str_bytes s) (strs_bytes r), length-str_bytes s))))

-- Where the strings fit, `insert_str_s_to_buff` writes their frames one after another, moves the
-- pointer over them and adds their whole length to the count, modulo 2 ^ 32.
pub insert_str_s-frames :
    (c : Cursor) (strs : List Bytes) (t : ℕ)
    → Fits strs (length c.ahead)
    → insert_str_s_to_buff c strs t
      ≡ some (advance (strs_bytes strs) c, to_int (t + length (strs_bytes strs)))
unfolding insert_str_s_to_buff
insert_str_s-frames c strs t h =
    rw (insert_each-advance c strs 0 (omega arith) h)
      (ap (λ (n : ℕ). some (advance (strs_bytes strs) c, n)) (omega arith))
