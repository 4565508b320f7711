-- ===== src/ControlNode/ControlMeta.antt =====
-- my_code/control_node/control_meta: what the control process keeps of one storage process, the range
-- of its keys and its number, and its bytes as a value of the metadata database.
pub mod Codec
use distributed_rocks_db_tes.Prelude.{
  ℕ, ◌-◌, ◌^◌, Option, none, some, [], ◌∷◌, ◌++◌, ltb, if◌then◌else◌, ◌>>=◌,
}
use distributed_rocks_db_tes.Prelude.Bytes.{Bytes, codes}
use distributed_rocks_db_tes.DbHandle.{to_string}
use distributed_rocks_db_tes.HandleBuff.{
  Cursor, insert_str_to_buff, insert_int_to_buff, get_string_from_buff, get_int_from_buff,
}

pub record ControlMeta : Type 0 where
  pub min_str : Bytes
  pub max_str : Bytes
  pub virtual_fd : ℕ

abbrev pub meta_of_parts : Bytes → Bytes → ℕ → ControlMeta
meta_of_parts min_str max_str virtual_fd = record {
  min_str = min_str;
  max_str = max_str;
  virtual_fd = virtual_fd;
}

-- An int as a stream prints it, a negative one with its sign.
unfoldable pub int_text : ℕ → Bytes
int_text n = if ltb n (2 ^ 31) then to_string n else 45 ∷ to_string (2 ^ 32 - n)

-- What `show` prints.
unfoldable pub show : ControlMeta → Bytes
show m =
    codes "min_str = "
    ++ (m.min_str
        ++ (codes " max_str = "
            ++ (m.max_str ++ (codes " virtual_fd = " ++ (int_text m.virtual_fd ++ (10 ∷ []))))))

-- The bytes written from a cursor on, with the cursor behind them and the length of the slice.
unfoldable pub to_slice : ControlMeta → Cursor → Option (Cursor × ℕ)
to_slice m buff = do
  (tmp, total_len) ← insert_str_to_buff buff m.min_str 0
  (tmp', total_len') ← insert_str_to_buff tmp m.max_str total_len
  insert_int_to_buff tmp' m.virtual_fd total_len'

unfoldable pub of_slice : Bytes → Option ControlMeta
of_slice slice = do
  (min_str, buff) ← get_string_from_buff slice
  (max_str, buff') ← get_string_from_buff buff
  (virtual_fd, buff'') ← get_int_from_buff buff'
  some (record { min_str = min_str; max_str = max_str; virtual_fd = virtual_fd })
