-- ===== src/StoreNode/StoreData/Interface.antt =====
-- The methods that my_code/store_node/store_data.h declares, and what they promise: a map whose bytes are
-- counted exactly as long as no value is empty.
use distributed_rocks_db_tes.Prelude.{ℕ, Option, length, ◌≡◌, ◌<◌, ◌⊎◌, []}
use distributed_rocks_db_tes.Prelude.Bytes.{Bytes}
use distributed_rocks_db_tes.HandleBuff.{to_int}
use distributed_rocks_db_tes.Rocks.{Rocks, IsRocks}
use distributed_rocks_db_tes.Rocks.Entries.{Rows, insert, erase, lookup}
use distributed_rocks_db_tes.DbHandle.{DbHandle, value_or_empty}
use distributed_rocks_db_tes.DbHandle.Counts.{bytes_of}
use distributed_rocks_db_tes.DbHandle.Rows.{rows-put_handle, rows-delete_handle, get_handle}
use distributed_rocks_db_tes.StoreNode.StoreData
use distributed_rocks_db_tes.StoreNode.StoreData.{Data, StoreData}
use distributed_rocks_db_tes.StoreNode.StoreData.Size.{IsSized, put-IsSized, delete_1-IsSized}
use distributed_rocks_db_tes.StoreNode.StoreData.Contents.{
  IsMaxEntry, IsMinEntry, get_max_key_lem, get_min_key_lem,
}

pub record DataStore (Null State Handle : Type 0) : Type 0 where
  pub get_db : State → Handle
  pub null_data : Null
  pub get_size : State → ℕ
  -- Opening reads the whole database, with fuel.
  pub open_data : ℕ → Bytes → Option State
  pub put : Data → State → State
  pub get : Bytes → State → Bytes
  pub delete_1 : Bytes → State → State
  pub get_max_key : Bytes → Bytes → State → Bytes × Bytes
  pub get_min_key : Bytes → Bytes → State → Bytes × Bytes

-- What the methods do to the map `rows` of a state, where `Counted` says that the count is exact.
pub record IsCountedMap {Null State Handle : Type 0} (m : DataStore Null State Handle)
    (rows : State → Rows) (Counted : State → Type 0) : Type 0 where
  pub rows-put : (d : Data) (s : State) → rows (m.put d s) ≡ insert d.key d.value (rows s)
  pub rows-delete_1 : (k : Bytes) (s : State) → rows (m.delete_1 k s) ≡ erase k (rows s)
  pub get_lem : (k : Bytes) (s : State) → m.get k s ≡ value_or_empty (lookup k (rows s))
  pub put-Counted : (d : Data) {s : State} → 0 < length d.value → Counted s → Counted (m.put d s)
  pub delete_1-Counted : (k : Bytes) {s : State} → Counted s → Counted (m.delete_1 k s)
  pub size_lem : {s : State} → Counted s → m.get_size s ≡ to_int (bytes_of (rows s))
  pub max_lem :
      (key value : Bytes) (s : State)
      → ((rows s ≡ []) × (m.get_max_key key value s ≡ (key, value)))
        ⊎ IsMaxEntry (rows s) (m.get_max_key key value s)
  pub min_lem :
      (key value : Bytes) (s : State)
      → ((rows s ≡ []) × (m.get_min_key key value s ≡ (key, value)))
        ⊎ IsMinEntry (rows s) (m.get_min_key key value s)

module _ {Db Iterator : Type 0} (r : Rocks Db Iterator) where
  abbrev pub data_store : DataStore (StoreData (Option Db)) (StoreData Db) (DbHandle Db)
  data_store = record {
    get_db = StoreData.get_db;
    null_data = StoreData.null_data;
    get_size = StoreData.get_size r;
    open_data = StoreData.open_data r;
    put = StoreData.put r;
    get = StoreData.get r;
    delete_1 = StoreData.delete_1 r;
    get_max_key = StoreData.get_max_key r;
    get_min_key = StoreData.get_min_key r;
  }

  -- A node's data is a map: a put inserts, a delete erases, a get looks up, the largest and the
  -- smallest entry are found, and the count of bytes, where it is exact, is what get_size returns and
  -- stays exact under a delete and under a put of a value that is not empty.
  pub data_store-IsCountedMap :
      (laws : IsRocks r)
      → IsCountedMap data_store (λ d. IsRocks.rows laws d.db_handle.db) (IsSized r laws)
  unfolding StoreData.put StoreData.delete_1 StoreData.get StoreData.get_size
  data_store-IsCountedMap laws = record {
    rows-put = λ d s. rows-put_handle r laws d.key d.value s.db_handle;
    rows-delete_1 = λ k s. rows-delete_handle r laws k s.db_handle;
    get_lem = λ k s. get_handle r laws k s.db_handle;
    put-Counted = λ d filled h. put-IsSized r laws d filled h;
    delete_1-Counted = λ k h. delete_1-IsSized r laws k h;
    size_lem = λ h. h.counted;
    max_lem = get_max_key_lem r laws;
    min_lem = get_min_key_lem r laws;
  }
