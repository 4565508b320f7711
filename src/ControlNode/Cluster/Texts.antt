-- ===== src/ControlNode/Cluster/Texts.antt =====
-- Changes of the entries of a process whose strings are short: what it then has, and its messages.
use distributed_rocks_db_tes.Prelude.{
  refl, ◌≡◌, ◌≢◌, false, [], ◌∷◌, length, All, arith, Bool-cases, inl, inr, ◌+◌, ◌≤◌,
}
use distributed_rocks_db_tes.Prelude.Bytes.{
  Bytes, eq_bytes, lt_bytes, min_bytes, max_bytes, is_empty, lt_bytes_irrefl, lt_bytes_trans,
}
use distributed_rocks_db_tes.HandleBuff.{max_line}
use distributed_rocks_db_tes.Rocks.Entries.{Entry, Rows, insert, erase, lookup}
use distributed_rocks_db_tes.Rocks.Extremes.{min_key_of, max_key_of, max_from}
use distributed_rocks_db_tes.DbHandle.{value_or_empty}
use distributed_rocks_db_tes.StoreNode.StoreImpl.LogPhase.{insertion, deletion, IsSendable}
use distributed_rocks_db_tes.ControlNode.ControlImpl.Commands.{least_of}
use distributed_rocks_db_tes.ControlNode.Cluster.{Shard, IsText, IsHeld, IsAtMost, IsShard}
use distributed_rocks_db_tes.ControlNode.Cluster.Shards.{All-map}

module _ {κ} (P : Entry → Type κ) where
  pub All-insert :
      (k v : Bytes) (rows : Rows)
      → P (record { key = k; value = v })
      → All P rows
      → All P (insert k v rows)
  unfolding insert
  All-insert k v [] p h = (p, tt)
  All-insert k v (e ∷ rows) p h = elim (Bool-cases (lt_bytes k e.key)) [
    | inl below ↦ rw below (p, h)
    | inr above ↦ elim (Bool-cases (eq_bytes k e.key)) [
      | inl same ↦ rw (above, same) (p, h.1)
      | inr other ↦ rw (above, other) (h.0, All-insert k v rows p h.1)
    ]
  ]

  pub All-erase : (k : Bytes) (rows : Rows) → All P rows → All P (erase k rows)
  unfolding erase
  All-erase k [] h = tt
  All-erase k (e ∷ rows) h = elim (Bool-cases (eq_bytes k e.key)) [
    | inl same ↦ rw same h.1
    | inr other ↦ rw other (h.0, All-erase k rows h.1)
  ]

module _ {κ} (P : Bytes → Type κ) where
  pub min_key_of-All :
      (rows : Rows) → P [] → All (λ (e : Entry). P e.key) rows → P (min_key_of rows)
  unfolding min_key_of
  min_key_of-All [] p h = p
  min_key_of-All (e ∷ rows) p h = h.0

  max_from-All :
      (k : Bytes) (rows : Rows) → P k → All (λ (e : Entry). P e.key) rows → P (max_from k rows)
  max_from-All k [] p h = p
  max_from-All k (e ∷ rows) p h = max_from-All e.key rows h.0 h.1

  pub max_key_of-All :
      (rows : Rows) → P [] → All (λ (e : Entry). P e.key) rows → P (max_key_of rows)
  unfolding max_key_of
  max_key_of-All rows p h = max_from-All [] rows p h

  pub lookup-All :
      (k : Bytes) (rows : Rows)
      → P []
      → All (λ (e : Entry). P e.value) rows
      → P (value_or_empty (lookup k rows))
  unfolding lookup
  lookup-All k [] p h = p
  lookup-All k (e ∷ rows) p h = elim (Bool-cases (eq_bytes k e.key)) [
    | inl same ↦ rw same h.0
    | inr other ↦ rw other (lookup-All k rows p h.1)
  ]

  pub min_bytes-either : (a b : Bytes) → P a → P b → P (min_bytes a b)
  unfolding min_bytes
  min_bytes-either a b p q = elim (Bool-cases (lt_bytes b a)) [
    | inl below ↦ rw below q
    | inr above ↦ rw above p
  ]

  pub max_bytes-either : (a b : Bytes) → P a → P b → P (max_bytes a b)
  unfolding max_bytes
  max_bytes-either a b p q = elim (Bool-cases (lt_bytes a b)) [
    | inl below ↦ rw below q
    | inr above ↦ rw above p
  ]

pub no-IsText : IsText []
no-IsText = (tt, omega arith)

pub held-IsText :
    (low : Bytes) (rows : Rows) → All (IsHeld low) rows → All (λ (e : Entry). IsText e.key) rows
held-IsText low rows h = All-map (λ (e : Entry) (p : IsHeld low e). p.0) rows h

module _ (low : Bytes) (rows : Rows) (held : All (IsHeld low) rows) where
  pub min_key-IsText : IsText (min_key_of rows)
  min_key-IsText = min_key_of-All IsText rows no-IsText (held-IsText low rows held)

  pub max_key-IsText : IsText (max_key_of rows)
  max_key-IsText = max_key_of-All IsText rows no-IsText (held-IsText low rows held)

  range_fits : length (min_key_of rows) + length (max_key_of rows) + 17 ≤ max_line
  range_fits = omega (arith, min_key-IsText.1, max_key-IsText.1)

-- A put and a del with such strings can be sent.
pub put-IsSendable :
    (key value low : Bytes) (stored : Rows)
    → IsText key
    → IsText value
    → All (IsHeld low) (insert key value stored)
    → All (λ (e : Entry). e.key ≢ []) stored
    → IsSendable (insertion key value) stored
put-IsSendable key value low stored key_text value_text held names = record {
  storable = record {
    named = tt;
    key_text = key_text.0;
    value_text = value_text.0;
    key_short = omega (arith, key_text.1);
    value_short = omega (arith, value_text.1);
  };
  message_fits = omega (arith, key_text.1, value_text.1);
  answer_fits = omega (arith, range_fits low (insert key value stored) held);
  names = names;
}

pub del-IsSendable :
    (key low : Bytes) (stored : Rows)
    → IsText key
    → key ≢ []
    → All (IsHeld low) (erase key stored)
    → IsSendable (deletion key) stored
del-IsSendable key low stored key_text some_key held = record {
  storable = record {
    named = tt;
    key_text = key_text.0;
    value_text = tt;
    key_short = omega (arith, key_text.1);
    value_short = omega arith;
  };
  message_fits = omega (arith, key_text.1);
  answer_fits = omega (arith, range_fits low (erase key stored) held);
  names = some_key;
}

-- The process once it has the entry, and once it has lost the key.
abbrev pub with_entry : Bytes → Bytes → Shard → Shard
with_entry key value s = record {
  low = min_bytes s.low key;
  high = max_bytes s.high key;
  stored = insert key value s.stored;
}

abbrev pub without_key : Bytes → Shard → Shard
without_key key s = record { low = s.low; high = max_bytes s.high key; stored = erase key s.stored }

-- A key at most `a` is at most the larger of `a` and another, which is at most that itself.
lt_bytes-max : (k a b : Bytes) → lt_bytes a k ≡ false → lt_bytes (max_bytes a b) k ≡ false
unfolding max_bytes
lt_bytes-max k a b h = ground (arith, lt_bytes_trans a b k)

lt_bytes-max_right : (a b : Bytes) → lt_bytes (max_bytes a b) b ≡ false
unfolding max_bytes
lt_bytes-max_right a b = ground (arith, lt_bytes_irrefl b)

lt_bytes-min : (k a b : Bytes) → lt_bytes k a ≡ false → lt_bytes k (min_bytes a b) ≡ false
unfolding min_bytes
lt_bytes-min k a b h = ground (arith, lt_bytes_trans k b a)

lt_bytes-min_right : (a b : Bytes) → lt_bytes b (min_bytes a b) ≡ false
unfolding min_bytes
lt_bytes-min_right a b = ground (arith, lt_bytes_irrefl b)

pub with_entry-IsShard :
    (key value : Bytes) (s : Shard)
    → IsText key
    → IsText value
    → key ≢ []
    → IsShard s
    → IsShard (with_entry key value s)
with_entry-IsShard key value s key_text value_text some_key h = record {
  low_text = min_bytes-either IsText s.low key h.low_text key_text;
  high_text = max_bytes-either IsText s.high key h.high_text key_text;
  held =
      All-insert (IsHeld (min_bytes s.low key)) key value s.stored
        (key_text, value_text, some_key, lt_bytes-min_right s.low key)
        (All-map
          (λ (e : Entry) (p : IsHeld s.low e). (p.0, p.1, p.2, lt_bytes-min e.key s.low key p.3))
          s.stored h.held);
  capped =
      All-insert (IsAtMost (max_bytes s.high key)) key value s.stored
        (lt_bytes-max_right s.high key)
        (All-map (λ (e : Entry) (p : IsAtMost s.high e). lt_bytes-max e.key s.high key p) s.stored
          h.capped);
}

pub without_key-IsShard :
    (key : Bytes) (s : Shard) → IsText key → IsShard s → IsShard (without_key key s)
without_key-IsShard key s key_text h = record {
  low_text = h.low_text;
  high_text = max_bytes-either IsText s.high key h.high_text key_text;
  held = All-erase (IsHeld s.low) key s.stored h.held;
  capped = All-erase (IsAtMost (max_bytes s.high key)) key s.stored (
      All-map (λ (e : Entry) (p : IsAtMost s.high e). lt_bytes-max e.key s.high key p) s.stored
        h.capped);
}

-- The smallest key that is left is not below the range.
pub least_lem : (low : Bytes) (rows : Rows) → All (IsHeld low) rows → least_of low rows ≡ low
unfolding min_bytes
least_lem low [] h = refl
least_lem low (e ∷ rows) h = elim (Bool-cases (is_empty e.key)) [
  | inl empty ↦ rw empty refl
  | inr full ↦ rw (full, h.0.3) refl
]
