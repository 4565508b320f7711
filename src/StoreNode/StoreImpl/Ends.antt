-- ===== src/StoreNode/StoreImpl/Ends.antt =====
-- The messages that ask a node for its largest and for its smallest entry.
use distributed_rocks_db_tes.Prelude.{
  ◌+◌, ◌≡◌, refl, ap, ◌∙◌, some, [], ◌∷◌, ◌++◌, arith, length, ◌≤◌,
}
use distributed_rocks_db_tes.Prelude.Bytes.{Bytes, eq_bytes}
use distributed_rocks_db_tes.ConstValues.{min_key_word, max_key_word}
use distributed_rocks_db_tes.HandleBuff.{start_of, max_line, to_int}
use distributed_rocks_db_tes.HandleBuff.Writes.{str_bytes, length-str_bytes}
use distributed_rocks_db_tes.HandleBuff.RoundTrip.{NoNul}
use distributed_rocks_db_tes.Rocks.{Rocks, IsRocks}
use distributed_rocks_db_tes.Rocks.Entries.{first, Entry, Rows, on, last, last_from, is_on}
use distributed_rocks_db_tes.StoreNode.StoreData.{get_min_key, StoreData, get_max_key, entry_at}
use distributed_rocks_db_tes.StoreNode.StoreImpl.{StoreImpl}
use distributed_rocks_db_tes.StoreNode.StoreImpl.Loop.{sent, serve, step, serve_pair}
use distributed_rocks_db_tes.StoreNode.StoreImpl.Commits.{Holds}
use distributed_rocks_db_tes.StoreNode.StoreImpl.Messages.{
  received, received-Holds, answered, answered-Holds, answer_lem, step-word, pair_bytes, pair_size,
  length-pair_bytes, insert_pair-fits,
}

last_from-append :
    (b : Rows) (y : Entry) (xs : Rows) (e : Entry)
    → (b' : Rows) × (last_from b y (xs ++ (e ∷ [])) ≡ on b' e [])
unfolding last_from
last_from-append b y [] e = (y ∷ b, refl)
last_from-append b y (x ∷ xs) e = last_from-append (y ∷ b) x xs e

last-append : (xs : Rows) (e : Entry) → (b : Rows) × (last (xs ++ (e ∷ [])) ≡ on b e [])
unfolding last last_from
last-append [] e = ([], refl)
last-append (x ∷ xs) e = last_from-append [] x xs e

module _ {Db Iterator : Type 0} (r : Rocks Db Iterator) (laws : IsRocks r) where
  get_max_key-append :
      (xs : Rows) (e : Entry) (d : StoreData Db)
      → laws.rows d.db_handle.db ≡ xs ++ (e ∷ [])
      → get_max_key r [] [] d ≡ (e.key, e.value)
  unfolding get_max_key entry_at is_on
  get_max_key-append xs e d h =
      let (b, p) = last-append xs e in
      let it : Iterator = r.seek_to_last (r.new_iterator d.db_handle.db) in
      let place : laws.position it ≡ on b e [] =
        laws.position-seek_to_last _ ∙ ap last (laws.rows_of-new_iterator d.db_handle.db ∙ h) ∙ p in
      rw
        (
          laws.valid_lem it ∙ ap is_on place,
          laws.key_lem it b e [] place,
          laws.value_lem it b e [] place,
        )
        refl

  serve-max :
      (tmp : Bytes) (s : StoreImpl Db)
      → serve r max_key_word tmp s ≡ serve_pair r (get_max_key r [] [] s.store_data) s
  unfolding serve eq_bytes
  serve-max tmp s = refl

  get_min_key-cons :
      (e : Entry) (xs : Rows) (d : StoreData Db)
      → laws.rows d.db_handle.db ≡ e ∷ xs
      → get_min_key r [] [] d ≡ (e.key, e.value)
  unfolding get_min_key entry_at is_on first
  get_min_key-cons e xs d h =
      let it : Iterator = r.seek_to_first (r.new_iterator d.db_handle.db) in
      let place : laws.position it ≡ on [] e xs =
        laws.position-seek_to_first _ ∙ ap first (laws.rows_of-new_iterator d.db_handle.db ∙ h) in
      rw
        (
          laws.valid_lem it ∙ ap is_on place,
          laws.key_lem it [] e xs place,
          laws.value_lem it [] e xs place,
        )
        refl

  serve-min :
      (tmp : Bytes) (s : StoreImpl Db)
      → serve r min_key_word tmp s ≡ serve_pair r (get_min_key r [] [] s.store_data) s
  unfolding serve eq_bytes
  serve-min tmp s = refl

  serve_pair-Holds :
      (pair : Bytes × Bytes) {s : StoreImpl Db} {stored kept : Rows}
      → pair_size pair ≤ max_line
      → Holds r laws s stored kept
      → (s' : StoreImpl Db) × (serve_pair r pair s ≡ some (s', sent (pair_bytes pair)))
        × Holds r laws s' stored kept
  unfolding serve_pair
  serve_pair-Holds pair {s} fits h = (
    answered r laws (pair_bytes pair) s.send_buff s,
    rw
        (insert_pair-fits (start_of s.send_buff) pair 0 (omega (arith, fits))
          (omega (arith, fits, h.send_room)))
        (ap some (
          answer_lem r laws (pair_bytes pair) s.send_buff (to_int (0 + pair_size pair)) s
            (omega (arith, fits, length-pair_bytes pair)) (omega (arith)))),
    answered-Holds r laws (pair_bytes pair) s.send_buff
        (omega (arith, fits, length-pair_bytes pair)) h.send_room h,
  )

  -- A question that is answered by a pair of strings; the entries and the log stay.
  step-pair :
      (word : Bytes) (pair : Bytes × Bytes) {s : StoreImpl Db} {stored kept : Rows}
      → NoNul word
      → length word + 5 ≤ max_line
      → pair_size pair ≤ max_line
      → ((tmp : Bytes) (got : StoreImpl Db)
          → Holds r laws got stored kept
          → serve r word tmp got ≡ serve_pair r pair got)
      → Holds r laws s stored kept
      → (s' : StoreImpl Db) × (step r (str_bytes word) s ≡ some (s', sent (pair_bytes pair)))
        × Holds r laws s' stored kept
  step-pair word pair {s} text small fits serves h =
      let short : length (str_bytes word) ≤ max_line =
        omega (arith, small, length-str_bytes word) in
      let g = received-Holds r laws (str_bytes word) short h in
      let got : StoreImpl Db = received r laws (str_bytes word) s in
      let (s', p, k) = serve_pair-Holds pair fits g in
      (s', step-word r laws word s text short ∙ serves _ got g ∙ p, k)

  -- A question for the largest entry is answered by its key and its value; the entries and the log
  -- stay.
  pub step-max :
      (xs : Rows) (e : Entry) {s : StoreImpl Db} {stored kept : Rows}
      → stored ≡ xs ++ (e ∷ [])
      → pair_size (e.key, e.value) ≤ max_line
      → Holds r laws s stored kept
      → (s' : StoreImpl Db) × (step r (str_bytes max_key_word) s
          ≡ some (s', sent (pair_bytes (e.key, e.value))))
        × Holds r laws s' stored kept
  step-max xs e split fits h =
      step-pair max_key_word (e.key, e.value) (omega arith) (omega arith) fits
        (λ tmp got g.
          serve-max tmp got
          ∙ ap (λ (pair : Bytes × Bytes). serve_pair r pair got)
              (get_max_key-append xs e got.store_data (g.has_data ∙ split)))
        h

  -- The same for the smallest entry.
  pub step-min :
      (e : Entry) (xs : Rows) {s : StoreImpl Db} {stored kept : Rows}
      → stored ≡ e ∷ xs
      → pair_size (e.key, e.value) ≤ max_line
      → Holds r laws s stored kept
      → (s' : StoreImpl Db) × (step r (str_bytes min_key_word) s
          ≡ some (s', sent (pair_bytes (e.key, e.value))))
        × Holds r laws s' stored kept
  step-min e xs split fits h =
      step-pair min_key_word (e.key, e.value) (omega arith) (omega arith) fits
        (λ tmp got g.
          serve-min tmp got
          ∙ ap (λ (pair : Bytes × Bytes). serve_pair r pair got)
              (get_min_key-cons e xs got.store_data (g.has_data ∙ split)))
        h
