-- ===== src/ControlNode/ControlImpl/Ends.antt =====
-- The control process asks a node for its largest and its smallest entry, and for its size
-- where the count may be wrong.
use distributed_rocks_db_tes.Prelude.{
  ℕ, ◌+◌, ◌≡◌, refl, ◌∙◌, some, [], ◌∷◌, ◌++◌, arith, length, ◌≤◌, drop,
}
use distributed_rocks_db_tes.Prelude.Bytes.{Bytes}
use distributed_rocks_db_tes.ConstValues.{min_key_word, max_key_word, size_word}
use distributed_rocks_db_tes.HandleBuff.{
  get_string_from_buff, max_line, int_bytes, get_int_from_buff,
}
use distributed_rocks_db_tes.HandleBuff.Writes.{str_bytes, length-str_bytes, length-int_bytes}
use distributed_rocks_db_tes.HandleBuff.RoundTrip.{NoNul, until_nul-NoNul, get_string-str_bytes}
use distributed_rocks_db_tes.Rocks.{Rocks, IsRocks}
use distributed_rocks_db_tes.Rocks.Entries.{Entry, Rows}
use distributed_rocks_db_tes.StoreNode.StoreImpl.Messages.{pair_bytes, length-pair_bytes}
use distributed_rocks_db_tes.StoreNode.StoreData
use distributed_rocks_db_tes.StoreNode.StoreImpl.{StoreImpl}
use distributed_rocks_db_tes.StoreNode.StoreImpl.Loop.{sent, step}
use distributed_rocks_db_tes.StoreNode.StoreImpl.Messages.{
  received, received-Holds, step-word, receive_from-fits,
}
use distributed_rocks_db_tes.StoreNode.StoreImpl.Commits.{Holds}
use distributed_rocks_db_tes.StoreNode.StoreImpl.Queries.{serve-size, serve_int-Holds}
use distributed_rocks_db_tes.StoreNode.StoreImpl.Ends.{step-max, step-min}
use distributed_rocks_db_tes.ControlNode.ControlImpl.{
  ask, get_min_store, ControlImpl, get_max_store, get_size,
}
use distributed_rocks_db_tes.ControlNode.ControlImpl.Requests.{
  OnlyNode, Reaches, talked, talked-Reaches, talked-OnlyNode, ask-talked,
}
use distributed_rocks_db_tes.ControlNode.ControlImpl.Questions.{get_string-receive}

module _ {Db Iterator : Type 0} (r : Rocks Db Iterator) (laws : IsRocks r) where
  -- A question of one word that is answered by an entry, read back as its two strings.
  asked_entry :
      (word : Bytes) (e : Entry) {c : ControlImpl Db} {virtual_fd : ℕ} {stored kept : Rows}
      (h : Reaches r laws c virtual_fd stored kept) (node' : StoreImpl Db)
      → length word + 5 ≤ max_line
      → NoNul e.key
      → NoNul e.value
      → length e.key + length e.value + 10 ≤ max_line
      → step r (str_bytes word) h.node ≡ some (node', sent (pair_bytes (e.key, e.value)))
      → Holds r laws node' stored kept
      → (c' : ControlImpl Db) × (behind : Bytes) × (rest : Bytes) × (ask r word virtual_fd c
          ≡ some c')
        × (get_string_from_buff c'.receive_buff ≡ some (e.key, behind))
        × (get_string_from_buff behind ≡ some (e.value, rest))
        × Reaches r laws c' virtual_fd stored kept
        × OnlyNode virtual_fd c c'
  unfolding talked
  asked_entry word e {c} {virtual_fd} h node' small key_text value_text fits p g =
      let reply : Bytes = pair_bytes (e.key, e.value) in
      let old : Bytes = drop (length reply) c.receive_buff in
      let short : length reply ≤ max_line =
        omega (arith, fits, length-pair_bytes (e.key, e.value)) in
      (
        talked r laws virtual_fd (str_bytes word) node' reply c,
        str_bytes e.value ++ old,
        old,
        ask-talked r laws word h reply node' small p,
        get_string-receive e.key (str_bytes e.value) c.receive_buff key_text short,
        rw
            (
              get_string-str_bytes e.value old (omega (arith, fits)),
              until_nul-NoNul e.value value_text,
            )
            refl,
        talked-Reaches r laws h (str_bytes word) reply node'
            (omega (arith, small, length-str_bytes word)) short g,
        talked-OnlyNode r laws virtual_fd (str_bytes word) reply node' c,
      )

  -- The control process gets the last entry of a node, where neither string has a NUL and both fit
  -- the buffers; the entries and the log of the node, the metadata and the other nodes stay.
  pub get_max_store-Reaches :
      (xs : Rows) (e : Entry) {c : ControlImpl Db} {virtual_fd : ℕ} {stored kept : Rows}
      → Reaches r laws c virtual_fd stored kept
      → stored ≡ xs ++ (e ∷ [])
      → NoNul e.key
      → NoNul e.value
      → length e.key + length e.value + 10 ≤ max_line
      → (c' : ControlImpl Db) × (get_max_store r virtual_fd c ≡ some (c', e.key, e.value))
        × Reaches r laws c' virtual_fd stored kept
        × OnlyNode virtual_fd c c'
  unfolding get_max_store
  get_max_store-Reaches xs e h split key_text value_text fits =
      let (node', p, g) = step-max r laws xs e split fits h.holds in
      let (c', behind, rest, e1, e2, e3, k, only) =
        asked_entry max_key_word e h node' (omega arith) key_text value_text fits p g in
      (c', rw (e1, e2, e3) refl, k, only)

  -- The same of the first entry.
  pub get_min_store-Reaches :
      (e : Entry) (xs : Rows) {c : ControlImpl Db} {virtual_fd : ℕ} {stored kept : Rows}
      → Reaches r laws c virtual_fd stored kept
      → stored ≡ e ∷ xs
      → NoNul e.key
      → NoNul e.value
      → length e.key + length e.value + 10 ≤ max_line
      → (c' : ControlImpl Db) × (get_min_store r virtual_fd c ≡ some (c', e.key, e.value))
        × Reaches r laws c' virtual_fd stored kept
        × OnlyNode virtual_fd c c'
  unfolding get_min_store
  get_min_store-Reaches e xs h split key_text value_text fits =
      let (node', p, g) = step-min r laws e xs split fits h.holds in
      let (c', behind, rest, e1, e2, e3, k, only) =
        asked_entry min_key_word e h node' (omega arith) key_text value_text fits p g in
      (c', rw (e1, e2, e3) refl, k, only)

-- An int is always read back, as some number.
get_int_lem :
    (n : ℕ) (rest : Bytes) → (m : ℕ) × (get_int_from_buff (int_bytes n ++ rest) ≡ some (m, rest))
unfolding get_int_from_buff int_bytes
get_int_lem n rest = (_, refl)

module _ {Db Iterator : Type 0} (r : Rocks Db Iterator) (laws : IsRocks r) where
  step-any_size :
      {s : StoreImpl Db} {stored kept : Rows}
      → Holds r laws s stored kept
      → (n : ℕ) × (s' : StoreImpl Db) × (step r (str_bytes size_word) s
          ≡ some (s', sent (int_bytes n)))
        × Holds r laws s' stored kept
  step-any_size {s} h =
      let word : Bytes = size_word in
      let short : length (str_bytes word) ≤ max_line = omega (arith, length-str_bytes word) in
      let got : StoreImpl Db = received r laws (str_bytes word) s in
      let n : ℕ = StoreData.get_size r got.store_data in
      let (s', e, k) = serve_int-Holds r laws n (received-Holds r laws (str_bytes word) short h) in
      (n, s', step-word r laws word s (omega arith) short ∙ serve-size r laws _ got ∙ e, k)

  -- A node answers a question for its size, with whatever count it has.
  pub get_size_any :
      {c : ControlImpl Db} {virtual_fd : ℕ} {stored kept : Rows}
      → Reaches r laws c virtual_fd stored kept
      → (c' : ControlImpl Db) × (n : ℕ) × (get_size r virtual_fd c ≡ some (c', n))
        × Reaches r laws c' virtual_fd stored kept
        × OnlyNode virtual_fd c c'
  unfolding get_size talked
  get_size_any {c} {virtual_fd} h =
      let word : Bytes = size_word in
      let (n, node', p, g) = step-any_size h.holds in
      let reply : Bytes = int_bytes n in
      let short : length reply ≤ max_line = omega (arith, length-int_bytes n) in
      let (m, q) = get_int_lem n (drop (length reply) c.receive_buff) in
      (
        talked r laws virtual_fd (str_bytes word) node' reply c,
        m,
        rw (ask-talked r laws word h reply node' (omega arith) p)
            (rw (receive_from-fits reply c.receive_buff short, q) refl),
        talked-Reaches r laws h (str_bytes word) reply node' (omega (arith, length-str_bytes word))
            short g,
        talked-OnlyNode r laws virtual_fd (str_bytes word) reply node' c,
      )
