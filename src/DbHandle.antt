-- ===== src/DbHandle.antt =====
-- my_code/db_handle: the program's handle on a RocksDB database.
--
-- Every write is made with the default options, which the constructors set. The other options are not
-- modelled. Each loop over an iterator takes fuel;
-- one round more than the database has entries is enough (DbHandle/Counts.antt).
pub mod Counts
pub mod Floor
pub mod Rows
pub mod Interface
use distributed_rocks_db_tes.Prelude.{
  ℕ, zero, suc, ◌+◌, ◌/◌, ◌%◌, ◌≡◌, Bool, true, false, not, ◌&&◌, Option, none, some, List, [], ◌∷◌,
  ◌++◌, leb, ◌==◌, if◌then◌else◌, length, ◌>>=◌,
}
use distributed_rocks_db_tes.Prelude.Bytes.{Bytes, eq_bytes}
use distributed_rocks_db_tes.HandleBuff.{to_int, to_size, copy}
use distributed_rocks_db_tes.Rocks.{Rocks}
use distributed_rocks_db_tes.Rocks.Calls.{default_write_options}

pub record DbHandle (Db : Type 0) : Type 0 where
  pub db : Db

-- std::to_string of an unsigned int, which has ten digits at most.
abbrev pub digits : ℕ → ℕ → Bytes → Bytes
digits zero n text = text
digits (suc more) n text =
    let longer = (48 + n % 10) ∷ text in
    let rest = digits more (n / 10) longer in if n / 10 == 0 then longer else rest

abbrev pub to_string : ℕ → Bytes
to_string n = digits 10 n []

-- What a call of memcpy returns, its destination, read as a truth value.
abbrev memcpy_result : Bool
memcpy_result = true

-- The string that `get` returns, which stays empty where nothing is found.
abbrev pub value_or_empty : Option Bytes → Bytes
value_or_empty none = []
value_or_empty (some value) = value

-- The two additions of the loop of `get_size`.
abbrev pub add_entry_size : ℕ → Bytes → Bytes → ℕ
add_entry_size ret key value = to_int (to_int (ret + length value + 1) + length key + 1)

-- The default constructor leaves the database null.
abbrev pub null_handle : {Db : Type 0} → DbHandle (Option Db)
null_handle = record { db = none }

unfoldable pub get_db : {Db : Type 0} → DbHandle Db → Db
get_db h = h.db

module _ {Db Iterator : Type 0} (r : Rocks Db Iterator) where
  -- `assert(status.ok())`
  unfoldable pub open_handle : Bytes → Option (DbHandle Db)
  open_handle db_location = do db ← r.open_db db_location; some (record { db = db })

  unfoldable pub put : Bytes → Bytes → DbHandle Db → DbHandle Db
  put key value h = record h { db = r.put default_write_options key value h.db }

  -- The overloads over two strings, a slice and a string, and a string and a slice; each string is
  -- passed on as a slice of its bytes.
  unfoldable pub put_strings : Bytes → Bytes → DbHandle Db → DbHandle Db
  put_strings key value h = record h { db = r.put default_write_options key value h.db }

  unfoldable pub put_slice_string : Bytes → Bytes → DbHandle Db → DbHandle Db
  put_slice_string key value h = record h { db = r.put default_write_options key value h.db }

  unfoldable pub put_string_slice : Bytes → Bytes → DbHandle Db → DbHandle Db
  put_string_slice key value h = record h { db = r.put default_write_options key value h.db }

  -- The overloads over a pointer and a length.
  unfoldable pub put_key_buf : Bytes → ℕ → Bytes → DbHandle Db → Option (DbHandle Db)
  put_key_buf key_buf key_len value h = do
    key ← copy key_buf (to_size key_len)
    some (record h { db = r.put default_write_options key value h.db })

  unfoldable pub put_bufs : Bytes → ℕ → Bytes → ℕ → DbHandle Db → Option (DbHandle Db)
  put_bufs key_buf key_len value_buf value_len h = do
    key ← copy key_buf (to_size key_len)
    value ← copy value_buf (to_size value_len)
    some (record h { db = r.put default_write_options key value h.db })

  unfoldable pub put_num : ℕ → Bytes → DbHandle Db → DbHandle Db
  put_num num value h = record h { db = r.put default_write_options (to_string num) value h.db }

  unfoldable pub delete_1 : Bytes → DbHandle Db → DbHandle Db
  delete_1 slice h = record h { db = r.delete default_write_options slice h.db }

  -- The status is dropped: a key that is not found leaves `ret` empty.
  unfoldable pub get : Bytes → DbHandle Db → Bytes
  get key h = value_or_empty (r.get key h.db)

  -- The overload over a buffer, with the iterator that it creates. Its test calls memcpy onto the
  -- iterator's key, where there is one; a key that is shorter than what is copied is written past its
  -- end.
  unfoldable pub get_iterator : Bytes → ℕ → DbHandle Db → Option (Iterator × Bool)
  get_iterator key_buf key_len h = do
    key ← copy key_buf (to_size key_len)
    let iterator = r.seek key (r.new_iterator h.db)
    elim (r.valid iterator) [
      | true ↦
          if leb (length key) (length (r.key iterator))
          then some (r.overwrite_key key iterator, not memcpy_result)
          else none
      | false ↦ some (iterator, false)
    ]

  -- The overload over a string: its bytes and the final NUL.
  unfoldable pub get_iterator_str : Bytes → DbHandle Db → Option (Iterator × Bool)
  get_iterator_str key h = get_iterator (key ++ (0 ∷ [])) (to_int (length key + 1)) h

  -- `while (it->Valid()) { body; it->Next(); }`
  unfoldable pub scan {ℓ} : {A : Type ℓ} → ℕ → (A → Iterator → A) → Iterator → A → Option A
  scan zero body it ret = none
  scan (suc fuel) body it ret = elim (r.valid it) [
    | true ↦ scan fuel body (r.next it) (body ret it)
    | false ↦ some ret
  ]

  unfoldable pub get_num : ℕ → DbHandle Db → Option ℕ
  get_num fuel h = scan fuel (λ ret it. to_int (ret + 1)) (r.seek_to_first (r.new_iterator h.db)) 0

  unfoldable pub get_size : ℕ → DbHandle Db → Option ℕ
  get_size fuel h =
      scan fuel (λ ret it. add_entry_size ret (r.key it) (r.value it))
        (r.seek_to_first (r.new_iterator h.db)) 0

  -- The loop that stops at the second entry.
  unfoldable pub up_to_one : ℕ → Iterator → ℕ → Option Bool
  up_to_one zero it ret = none
  up_to_one (suc fuel) it ret = elim (r.valid it) [
    | true ↦
        let rest = up_to_one fuel (r.next it) (ret + 1) in
        if leb 2 (ret + 1) then some false else rest
    | false ↦ some true
  ]

  -- The test is made in at most three rounds.
  unfoldable pub store_less_or_equal_one : DbHandle Db → Option Bool
  store_less_or_equal_one h = up_to_one 3 (r.seek_to_first (r.new_iterator h.db)) 0

  unfoldable pub get_smaller_or_equal_but_as_large_as_possible : Bytes → Iterator → Iterator × Bool
  get_smaller_or_equal_but_as_large_as_possible key iterator =
      let sought = r.seek (key ++ (0 ∷ [])) iterator in
      let before = r.prev sought in
      if not (r.valid sought)
      then (r.seek_to_last sought, true)
      else if eq_bytes (r.key sought) key
      then (sought, true)
      else if not (r.valid before)
      then (r.seek_to_first before, false)
      else (before, true)
