-- ===== src/DbHandle/Rows.antt =====
-- What the operations of my_code/db_handle do, told by the entries of the database.
use distributed_rocks_db_tes.Prelude.{◌≡◌, ap, refl, some, length, ◌<◌, ◌^◌, ◌++◌}
use distributed_rocks_db_tes.Prelude.Bytes.{Bytes}
use distributed_rocks_db_tes.HandleBuff.Writes.{to_size_small, copy-fits}
use distributed_rocks_db_tes.Rocks.Calls.{default_write_options}
use distributed_rocks_db_tes.Rocks.{Rocks, IsRocks}
use distributed_rocks_db_tes.Rocks.Entries.{insert, erase, lookup}
use distributed_rocks_db_tes.DbHandle.{
  DbHandle, put, put_key_buf, put_bufs, delete_1, get, value_or_empty,
}

module _ {Db Iterator : Type 0} (r : Rocks Db Iterator) (laws : IsRocks r) where
  open laws use {rows}

  pub rows-put_handle :
      (k v : Bytes) (h : DbHandle Db) → rows (put r k v h).db ≡ insert k v (rows h.db)
  unfolding put
  rows-put_handle k v h = laws.rows-put k v h.db

  pub rows-delete_handle :
      (k : Bytes) (h : DbHandle Db) → rows (delete_1 r k h).db ≡ erase k (rows h.db)
  unfolding delete_1
  rows-delete_handle k h = laws.rows-delete k h.db

  pub get_handle : (k : Bytes) (h : DbHandle Db) → get r k h ≡ value_or_empty (lookup k (rows h.db))
  unfolding get
  get_handle k h = ap value_or_empty (laws.get_lem k h.db)

  pub put_key_buf-rows :
      (k behind v : Bytes) (h : DbHandle Db)
      → length k < 2 ^ 31
      → (h' : DbHandle Db) × (put_key_buf r (k ++ behind) (length k) v h ≡ some h')
        × (rows h'.db ≡ insert k v (rows h.db))
  unfolding put_key_buf
  put_key_buf-rows k behind v h small = (
    record { db = r.put default_write_options k v h.db },
    rw (to_size_small (length k) small, copy-fits k behind (length k) refl) refl,
    laws.rows-put k v h.db,
  )

  pub put_bufs-rows :
      (k behind v behind' : Bytes) (h : DbHandle Db)
      → length k < 2 ^ 31
      → length v < 2 ^ 31
      → (h' : DbHandle Db) × (put_bufs r (k ++ behind) (length k) (v ++ behind') (length v) h
          ≡ some h')
        × (rows h'.db ≡ insert k v (rows h.db))
  unfolding put_bufs
  put_bufs-rows k behind v behind' h small small' = (
    record { db = r.put default_write_options k v h.db },
    rw
        (
          to_size_small (length k) small,
          copy-fits k behind (length k) refl,
          to_size_small (length v) small',
          copy-fits v behind' (length v) refl,
        )
        refl,
    laws.rows-put k v h.db,
  )
