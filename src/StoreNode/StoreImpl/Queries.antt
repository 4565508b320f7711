-- ===== src/StoreNode/StoreImpl/Queries.antt =====
-- The messages that ask a node for a value, for its size and whether it has at most one entry.
use distributed_rocks_db_tes.Prelude.{
  ℕ, ◌+◌, ◌≡◌, refl, ap, ◌∙◌, some, ◌++◌, arith, length, leb, ◌≤◌, length-append, drop,
}
use distributed_rocks_db_tes.Prelude.Bytes.{Bytes, eq_bytes}
use distributed_rocks_db_tes.ConstValues.{get_word, size_word, less_or_equal_one_word}
use distributed_rocks_db_tes.HandleBuff.{start_of, max_line, to_int, int_bytes}
use distributed_rocks_db_tes.HandleBuff.Writes.{
  str_bytes, length-str_bytes, length-int_bytes, insert_str-fits, insert_int-fits,
}
use distributed_rocks_db_tes.HandleBuff.RoundTrip.{NoNul, until_nul-NoNul, get_string-str_bytes}
use distributed_rocks_db_tes.Rocks.{Rocks, IsRocks}
use distributed_rocks_db_tes.Rocks.Entries.{Rows, lookup}
use distributed_rocks_db_tes.DbHandle.{value_or_empty}
use distributed_rocks_db_tes.DbHandle.Rows.{get_handle}
use distributed_rocks_db_tes.DbHandle.Counts.{bytes_of, store_less_or_equal_one_lem}
use distributed_rocks_db_tes.StoreNode.StoreData
use distributed_rocks_db_tes.StoreNode.StoreData.Size.{IsSized}
use distributed_rocks_db_tes.StoreNode.StoreImpl
use distributed_rocks_db_tes.StoreNode.StoreImpl.{StoreImpl}
use distributed_rocks_db_tes.StoreNode.StoreImpl.Loop.{
  sent, serve, step, serve_get, serve_int, serve_less_or_equal_one, int_of_bool,
}
use distributed_rocks_db_tes.StoreNode.StoreImpl.Commits.{Holds}
use distributed_rocks_db_tes.StoreNode.StoreImpl.Messages.{
  received, received-Holds, answered, answered-Holds, answer_lem, step-word, step-message,
}

abbrev pub get_message : Bytes → Bytes
get_message key = str_bytes get_word ++ str_bytes key

module _ {Db Iterator : Type 0} (r : Rocks Db Iterator) (laws : IsRocks r) where
  serve-get : (tmp : Bytes) (s : StoreImpl Db) → serve r get_word tmp s ≡ serve_get r tmp s
  unfolding serve eq_bytes
  serve-get tmp s = refl

  pub serve-size :
      (tmp : Bytes) (s : StoreImpl Db)
      → serve r size_word tmp s ≡ serve_int r (StoreData.get_size r s.store_data) s
  unfolding serve eq_bytes
  serve-size tmp s = refl

  serve-less_or_equal_one :
      (tmp : Bytes) (s : StoreImpl Db)
      → serve r less_or_equal_one_word tmp s ≡ serve_less_or_equal_one r s
  unfolding serve eq_bytes
  serve-less_or_equal_one tmp s = refl

  pub serve_int-Holds :
      (n : ℕ) {s : StoreImpl Db} {stored kept : Rows}
      → Holds r laws s stored kept
      → (s' : StoreImpl Db) × (serve_int r n s ≡ some (s', sent (int_bytes n)))
        × Holds r laws s' stored kept
  unfolding serve_int
  serve_int-Holds n {s} h = (
    answered r laws (int_bytes n) s.send_buff s,
    rw (insert_int-fits (start_of s.send_buff) n 0 (omega (arith, h.send_room))) (
        ap some
          (answer_lem r laws (int_bytes n) s.send_buff 4 s (length-int_bytes n) (omega arith))),
    answered-Holds r laws (int_bytes n) s.send_buff (omega (arith, length-int_bytes n)) h.send_room
        h,
  )

  module _ {s : StoreImpl Db} {stored kept : Rows} (h : Holds r laws s stored kept) where
    -- A question for the size is answered by the bytes of the stored entries, as an int, where the
    -- count of the node is exact; the entries and the log stay.
    pub step-size :
        IsSized r laws s.store_data
        → (s' : StoreImpl Db) × (step r (str_bytes size_word) s
            ≡ some (s', sent (int_bytes (to_int (bytes_of stored)))))
          × Holds r laws s' stored kept
    unfolding StoreData.get_size received
    step-size sized =
        let short : length (str_bytes size_word) ≤ max_line =
          omega (arith, length-str_bytes size_word) in
        let g = received-Holds r laws (str_bytes size_word) short h in
        let got : StoreImpl Db = received r laws (str_bytes size_word) s in
        let n : ℕ = to_int (bytes_of stored) in
        let (s', e, k) = serve_int-Holds n g in
        (
          s',
          step-word r laws size_word s (omega arith) short
              ∙ serve-size _ got
              ∙ ap (λ (x : ℕ). serve_int r x got)
                  (sized.counted ∙ ap (λ (l : Rows). to_int (bytes_of l)) h.has_data)
              ∙ e,
          k,
        )

    -- A question whether the node has at most one entry is answered by 1 or 0; the entries and the log
    -- stay.
    pub step-less_or_equal_one :
        (s' : StoreImpl Db) × (step r (str_bytes less_or_equal_one_word) s
          ≡ some (s', sent (int_bytes (int_of_bool (leb (length stored) 1)))))
        × Holds r laws s' stored kept
    unfolding serve_less_or_equal_one
    step-less_or_equal_one =
        let word : Bytes = less_or_equal_one_word in
        let short : length (str_bytes word) ≤ max_line = omega (arith, length-str_bytes word) in
        let g = received-Holds r laws (str_bytes word) short h in
        let got : StoreImpl Db = received r laws (str_bytes word) s in
        let (s', e, k) = serve_int-Holds (int_of_bool (leb (length stored) 1)) g in
        (
          s',
          step-word r laws word s (omega arith) short
              ∙ serve-less_or_equal_one _ got
              ∙ rw (store_less_or_equal_one_lem r laws got.store_data.db_handle, g.has_data) e,
          k,
        )

    -- A question for a key is answered by its value, or by the empty string if it is not stored; the
    -- entries and the log stay.
    pub step-get :
        (key : Bytes)
        → NoNul key
        → length key + 13 ≤ max_line
        → length (value_or_empty (lookup key stored)) + 5 ≤ max_line
        → (s' : StoreImpl Db) × (step r (get_message key) s
            ≡ some (s', sent (str_bytes (value_or_empty (lookup key stored)))))
          × Holds r laws s' stored kept
    unfolding serve_get StoreImpl.get StoreData.get
    step-get key text short fits =
        let message : Bytes = get_message key in
        let small : length message ≤ max_line = omega (
          arith,
          length-append {0} (str_bytes get_word) (str_bytes key),
          length-str_bytes get_word,
          length-str_bytes key,
        ) in
        let g = received-Holds r laws message small h in
        let got : StoreImpl Db = received r laws message s in
        let value : Bytes = value_or_empty (lookup key stored) in
        let bytes : Bytes = str_bytes value in
        let old : Bytes = drop (length message) s.receive_buff in
        (
          answered r laws bytes got.send_buff got,
          step-message r laws get_word (str_bytes key) s (omega arith) small
              ∙ serve-get (str_bytes key ++ old) got
              ∙ rw
                  (
                    get_string-str_bytes key old (omega arith),
                    until_nul-NoNul key text,
                    get_handle r laws key got.store_data.db_handle,
                    g.has_data,
                  )
                  (rw
                    (insert_str-fits (start_of got.send_buff) value 0 (omega arith)
                      (omega (arith, g.send_room)))
                    (ap some (
                      answer_lem r laws bytes got.send_buff (to_int (0 + length value + 5)) got
                        (omega (arith, length-str_bytes value)) (omega arith)))),
          answered-Holds r laws bytes got.send_buff (omega (arith, length-str_bytes value))
              g.send_room g,
        )
