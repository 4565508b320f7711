-- ===== src/StoreNode/StoreImpl/Opened.antt =====
-- The constructor of store_impl over the databases that it opens.
use distributed_rocks_db_tes.Prelude.{ap, ℕ, ◌≡◌, refl, some, length, ◌<◌}
use distributed_rocks_db_tes.Prelude.Bytes.{Bytes}
use distributed_rocks_db_tes.HandleBuff.{max_line}
use distributed_rocks_db_tes.Rocks.{Rocks, IsRocks}
use distributed_rocks_db_tes.DbHandle.{open_handle}
use distributed_rocks_db_tes.StoreNode.StoreLog.{open_log}
use distributed_rocks_db_tes.StoreNode.StoreData.Size.{IsFilled, IsSized, open_data-IsSized}
use distributed_rocks_db_tes.StoreNode.StoreImpl.{StoreImpl, open_store}
use distributed_rocks_db_tes.StoreNode.StoreImpl.Commits.{Holds}

module _ {Db Iterator : Type 0} (r : Rocks Db Iterator) (laws : IsRocks r) where
  open laws use {rows}

  -- Where both databases open, that of the data has no empty value, there is more fuel than it has
  -- entries and the buffers are full, a storage process starts with the entries of its data and of its
  -- log, and with the exact count.
  pub open_store-Holds :
      (fuel : ℕ) (log_buff receive_buff send_buff data_path log_path : Bytes) (data_db log_db : Db)
      → r.open_db data_path ≡ some data_db
      → r.open_db log_path ≡ some log_db
      → IsFilled (rows data_db)
      → length (rows data_db) < fuel
      → length log_buff ≡ max_line
      → length receive_buff ≡ max_line
      → length send_buff ≡ max_line
      → (s : StoreImpl Db) × (open_store r fuel
            (log_buff, receive_buff, send_buff)
            data_path
            log_path
          ≡ some s)
        × Holds r laws s (rows data_db) (rows log_db)
        × IsSized r laws s.store_data
  unfolding open_store open_log open_handle
  open_store-Holds fuel log_buff receive_buff send_buff data_path log_path data_db log_db o o'
        filled enough full full2 full3 =
      let (d, e, same, sized) = open_data-IsSized r laws fuel data_path data_db o filled enough in
      (
        record {
          store_data = d;
          store_log = record { db_handle = record { db = log_db }; buff = log_buff };
          receive_buff = receive_buff;
          send_buff = send_buff;
        },
        rw (e, o') refl,
        record {
          has_data = ap rows same;
          has_log = refl;
          log_room = full;
          receive_room = full2;
          send_room = full3;
        },
        sized,
      )
