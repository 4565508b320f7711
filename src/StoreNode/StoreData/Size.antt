-- ===== src/StoreNode/StoreData/Size.antt =====
-- The running count of bytes: exact as long as no stored value is empty.
use distributed_rocks_db_tes.Prelude.{
  ℕ, ◌+◌, ◌-◌, ◌<◌, ◌≤◌, ◌≡◌, refl, ap, ◌∙◌, Option, none, some, [], ◌∷◌, length, All, arith, inl,
  inr, Bool-cases,
}
use distributed_rocks_db_tes.Prelude.Bytes.{Bytes, eq_bytes_iff, lt_bytes}
use distributed_rocks_db_tes.HandleBuff.{to_int}
use distributed_rocks_db_tes.Rocks.{Rocks, IsRocks}
use distributed_rocks_db_tes.Rocks.Entries.{
  Entry, Rows, IsSorted, insert, erase, lookup, lookup-Above, Above-trans,
}
use distributed_rocks_db_tes.DbHandle
use distributed_rocks_db_tes.DbHandle.{DbHandle, open_handle}
use distributed_rocks_db_tes.DbHandle.Counts.{bytes_of, get_size_lem}
use distributed_rocks_db_tes.DbHandle.{value_or_empty}
use distributed_rocks_db_tes.DbHandle.Rows.{rows-put_handle, rows-delete_handle, get_handle}
use distributed_rocks_db_tes.StoreNode.StoreData.{Data, StoreData, open_data, forget, put, delete_1}

-- The bytes that an entry of `key` takes, 0 if there is none.
abbrev entry_bytes : Bytes → Option Bytes → ℕ
entry_bytes key none = 0
entry_bytes key (some value) = length key + 1 + (length value + 1)

bytes_of-insert :
    (k v : Bytes) (rows : Rows)
    → IsSorted rows
    → bytes_of (insert k v rows) + entry_bytes k (lookup k rows)
      ≡ bytes_of rows + (length k + 1 + (length v + 1))
unfolding bytes_of insert lookup
bytes_of-insert k v [] h = omega arith
bytes_of-insert k v (e ∷ rows) h = elim (Bool-cases (lt_bytes k e.key)) [
  | inl below ↦
      rw (below, lookup-Above k (e ∷ rows) (below, Above-trans k e.key rows below h.0))
        (omega arith)
  | inr above ↦ ground (arith, bytes_of-insert k v rows, eq_bytes_iff k e.key)
]

bytes_of-erase :
    (k : Bytes) (rows : Rows)
    → bytes_of (erase k rows) + entry_bytes k (lookup k rows) ≡ bytes_of rows
unfolding bytes_of erase lookup
bytes_of-erase k [] = omega arith
bytes_of-erase k (e ∷ rows) = ground (arith, bytes_of-erase k rows, eq_bytes_iff k e.key)

-- Every value has a byte.
abbrev pub IsFilled : Rows → Type 0
IsFilled = All (λ (e : Entry). 0 < length e.value)

lookup-IsFilled :
    (k v : Bytes) (rows : Rows) → IsFilled rows → lookup k rows ≡ some v → 0 < length v
unfolding lookup
lookup-IsFilled k v [] h e = cc
lookup-IsFilled k v (e ∷ rows) h p = ground (arith, lookup-IsFilled k v rows h.1)

insert-IsFilled :
    (k v : Bytes) (rows : Rows) → 0 < length v → IsFilled rows → IsFilled (insert k v rows)
unfolding insert
insert-IsFilled k v [] p h = (p, tt)
insert-IsFilled k v (e ∷ rows) p h = ground (arith, insert-IsFilled k v rows p)

erase-IsFilled : (k : Bytes) (rows : Rows) → IsFilled rows → IsFilled (erase k rows)
unfolding erase
erase-IsFilled k [] h = tt
erase-IsFilled k (e ∷ rows) h = ground (arith, erase-IsFilled k rows)

forget_lem :
    (k : Bytes) (found : Option Bytes) (size total : ℕ)
    → ((v : Bytes) → found ≡ some v → 0 < length v)
    → entry_bytes k found ≤ total
    → size ≡ to_int total
    → forget k (value_or_empty found) size ≡ to_int (total - entry_bytes k found)
unfolding forget
forget_lem k none size total f h e = e ∙ omega arith
forget_lem k (some v) size total f h e = ground (arith, f v refl)

module _ {Db Iterator : Type 0} (r : Rocks Db Iterator) (laws : IsRocks r) where
  open laws use {rows}

  -- The count is the bytes of the entries, as an int, and no stored value is empty.
  pub record IsSized (d : StoreData Db) : Type 0 where
    pub counted : d.size ≡ to_int (bytes_of (rows d.db_handle.db))
    pub filled : IsFilled (rows d.db_handle.db)

  module _ (k : Bytes) (d : StoreData Db) (h : IsSized d) where
    abbrev old : Option Bytes
    old = lookup k (rows d.db_handle.db)

    -- After the first subtraction, what is counted is the entries of the other keys.
    forget-old :
        forget k (DbHandle.get r k d.db_handle) d.size
        ≡ to_int (bytes_of (rows d.db_handle.db) - entry_bytes k old)
    forget-old = rw (get_handle r laws k d.db_handle) (
        forget_lem k old d.size (bytes_of (rows d.db_handle.db))
          (λ v. lookup-IsFilled k v (rows d.db_handle.db) h.filled)
          (omega (arith, bytes_of-erase k (rows d.db_handle.db))) h.counted)

  -- Putting a value that is not empty keeps the count exact.
  pub put-IsSized :
      (item : Data) {d : StoreData Db} → 0 < length item.value → IsSized d → IsSized (put r item d)
  unfolding put
  put-IsSized item {d} p h = record {
    counted =
        rw (rows-put_handle r laws item.key item.value d.db_handle, forget-old item.key d h)
          (omega (
            arith,
            bytes_of-insert item.key item.value (rows d.db_handle.db)
                (laws.rows-IsSorted d.db_handle.db),
            bytes_of-erase item.key (rows d.db_handle.db),
          ));
    filled =
        rw (rows-put_handle r laws item.key item.value d.db_handle)
          (insert-IsFilled item.key item.value (rows d.db_handle.db) p h.filled);
  }

  -- Deleting a key, stored or not, keeps the count exact.
  pub delete_1-IsSized : (k : Bytes) {d : StoreData Db} → IsSized d → IsSized (delete_1 r k d)
  unfolding delete_1
  delete_1-IsSized k {d} h = record {
    counted =
        rw (rows-delete_handle r laws k d.db_handle, forget-old k d h)
          (ap to_int (omega (arith, bytes_of-erase k (rows d.db_handle.db))));
    filled =
        rw (rows-delete_handle r laws k d.db_handle)
          (erase-IsFilled k (rows d.db_handle.db) h.filled);
  }

  -- A node that opens a database with no empty value, with more fuel than entries, starts with the
  -- exact count.
  pub open_data-IsSized :
      (fuel : ℕ) (location : Bytes) (db : Db)
      → r.open_db location ≡ some db
      → IsFilled (rows db)
      → length (rows db) < fuel
      → (d : StoreData Db) × (open_data r fuel location ≡ some d)
        × (d.db_handle.db ≡ db)
        × IsSized d
  unfolding open_data open_handle
  open_data-IsSized fuel location db o f enough = (
    record { db_handle = record { db = db }; size = to_int (bytes_of (rows db)) },
    rw (o, get_size_lem r laws (record { db = db }) fuel enough),
    refl,
    record { counted = refl; filled = f },
  )
