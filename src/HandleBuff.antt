-- ===== src/HandleBuff.antt =====
-- my_code/handle_buff: strings and ints in a message buffer.
--
-- A pointer that is written through is a cursor into its allocation: the bytes before it and those
-- from it on. A pointer that is only read is the list of the bytes from it on. A write or a read
-- past the end, and a read of uninitialised bytes, is undefined in the source and is `none` here.
-- An int is its 32-bit pattern, stored least significant byte first.
pub mod RoundTrip
pub mod Writes
pub mod Overflow
pub mod Interface
use distributed_rocks_db_tes.Prelude.{
  ℕ, zero, suc, ◌+◌, ◌-◌, ◌*◌, ◌/◌, ◌%◌, ◌^◌, List, [], ◌∷◌, ◌++◌, Option, none, some, ltb, leb,
  if◌then◌else◌, length, take, drop, ◌>>=◌,
}
use distributed_rocks_db_tes.Prelude.Bytes.{Bytes}

-- The size of every message buffer (MAXLINE).
abbrev pub max_line : ℕ
max_line = 40960

pub record Cursor : Type 0 where
  pub past : Bytes
  pub ahead : Bytes

-- The allocation that a cursor points into.
abbrev pub whole : Cursor → Bytes
whole c = c.past ++ c.ahead

-- A pointer to the start of an allocation.
abbrev pub start_of : Bytes → Cursor
start_of buff = record { past = []; ahead = buff }

unfoldable pub write : Bytes → Cursor → Option Cursor
write bytes c =
    if leb (length bytes) (length c.ahead)
    then some (record { past = c.past ++ bytes; ahead = drop (length bytes) c.ahead })
    else none

abbrev pub to_int : ℕ → ℕ
to_int n = n % 2 ^ 32

-- An int that is passed as a size_t: the negative ones become huge.
unfoldable pub to_size : ℕ → ℕ
to_size n = if ltb n (2 ^ 31) then n else n + (2 ^ 64 - 2 ^ 32)

unfoldable pub int_bytes : ℕ → Bytes
int_bytes n = (n % 256) ∷ (n / 256 % 256) ∷ (n / 65536 % 256) ∷ (n / 16777216 % 256) ∷ []

-- memcpy of `size` bytes of `src`.
unfoldable pub copy : Bytes → ℕ → Option Bytes
copy src size = if leb size (length src) then some (take size src) else none

-- The text of a char array up to its first NUL. With no NUL the source reads on into bytes that
-- were never written.
unfoldable pub c_string : Bytes → Option Bytes
c_string [] = none
c_string (zero ∷ rest) = some []
c_string (suc c ∷ rest) = do text ← c_string rest; some (suc c ∷ text)

unfoldable pub get_int_from_buff : Bytes → Option (ℕ × Bytes)
get_int_from_buff (a ∷ b ∷ c ∷ d ∷ rest) = some (a + 256 * b + 65536 * c + 16777216 * d, rest)
get_int_from_buff _ = none

-- `char tmp[MAXLINE]` takes the copied bytes.
unfoldable pub get_string_from_buff : Bytes → Option (Bytes × Bytes)
get_string_from_buff buff = do
  (len, new_buff) ← get_int_from_buff buff
  tmp ← if leb (to_size len) max_line then copy new_buff (to_size len) else none
  ans ← c_string tmp
  some (ans, drop (to_size len) new_buff)

unfoldable pub insert_str_to_buff : Cursor → Bytes → ℕ → Option (Cursor × ℕ)
insert_str_to_buff start_address str total_len = do
  let len = to_int (length str + 1)
  ret ← write (int_bytes len) start_address
  src ← copy (str ++ (0 ∷ [])) (to_size len)
  end ← write src ret
  some (end, to_int (total_len + len + 4))

unfoldable pub insert_int_to_buff : Cursor → ℕ → ℕ → Option (Cursor × ℕ)
insert_int_to_buff start_address a total_len = do
  end ← write (int_bytes a) start_address
  some (end, to_int (total_len + 4))

-- The loop over the strings, with the local `total_size_t`.
unfoldable pub insert_each : Cursor → List Bytes → ℕ → Option (Cursor × ℕ)
insert_each start_address [] total_size_t = some (start_address, total_size_t)
insert_each start_address (str ∷ str_s) total_size_t = do
  (next, size) ← insert_str_to_buff start_address str total_size_t
  insert_each next str_s size

unfoldable pub insert_str_s_to_buff : Cursor → List Bytes → ℕ → Option (Cursor × ℕ)
insert_str_s_to_buff start_address str_s total_size = do
  (end, total_size_t) ← insert_each start_address str_s 0
  some (end, to_int (total_size + total_size_t))
