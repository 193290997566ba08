-- ===== src/Gateway/Traffic/Counting.antt =====
-- The permits of the gateway count its open connections.
use lab_stream_gate.Common.{
  ℕ, zero, suc, ◌+◌, ◌-◌, ◌≤◌, ◌<◌, ◌≡◌, refl, sym, ap, subst, ◌∙◌, ◌⊎◌, inl, inr, true, false,
  Option, none, some, List, [], ◌∷◌, arith, leb, ◌==◌, if◌then◌else◌, length, ok, err, Bool-cases,
}
use lab_stream_gate.Common.Text.{Text, same}
use lab_stream_gate.Common.Dict.{
  Dict, lookup, insert, remove, IsDict, lookup-insert, lookup-remove, insert-IsDict, remove-IsDict,
}
use lab_stream_gate.Http.{http_error, too_many_requests}
use lab_stream_gate.Gateway.{Counts}
use lab_stream_gate.Gateway.Traffic.{or_zero, acquire, release, sum_values, tunnel_limit_message}

-- How often the key occurs in the list of open connections.
unfoldable pub occurrences : Text → List Text → ℕ
occurrences k [] = 0
occurrences k (j ∷ open_keys) =
    if same j k then suc (occurrences k open_keys) else occurrences k open_keys

-- The list without one connection of the key.
unfoldable pub close_one : Text → List Text → List Text
close_one k [] = []
close_one k (j ∷ open_keys) = if same j k then open_keys else j ∷ close_one k open_keys

abbrev pub positive : ℕ → Option ℕ
positive zero = none
positive (suc n) = some (suc n)

sum_values-insert :
    (k : Text) (n : ℕ) (m : Dict ℕ)
    → sum_values (insert k n m) + or_zero (lookup k m) ≡ sum_values m + n
unfolding sum_values insert lookup
sum_values-insert k n [] = omega arith
sum_values-insert k n ((j, w) ∷ m) = ground (arith, sum_values-insert k n m)

sum_values-remove :
    (k : Text) (m : Dict ℕ) → sum_values (remove k m) + or_zero (lookup k m) ≡ sum_values m
unfolding sum_values remove lookup
sum_values-remove k [] = omega arith
sum_values-remove k ((j, w) ∷ m) = ground (arith, sum_values-remove k m)

occurrences-close_one :
    (k j : Text) (open_keys : List Text)
    → occurrences j (close_one k open_keys)
      ≡ (if same k j then occurrences j open_keys - 1 else occurrences j open_keys)
unfolding occurrences close_one
occurrences-close_one k j [] = ground arith
occurrences-close_one k j (i ∷ open_keys) = ground (arith, occurrences-close_one k j open_keys)

pub length-close_one :
    (k : Text) (open_keys : List Text)
    → 0 < occurrences k open_keys
    → length (close_one k open_keys) + 1 ≡ length open_keys
unfolding occurrences close_one
length-close_one k [] h = absurd (omega arith)
length-close_one k (i ∷ open_keys) h = ground (arith, length-close_one k open_keys)

-- The counter of each key is the number of its open connections, and a key without one has no
-- entry; the entries add up to the number of open connections.
pub record IsCount (limit : ℕ) (c : Counts) (open_keys : List Text) : Type 0 where
  pub healthy : c.poisoned ≡ false
  pub one_entry : IsDict c.counts
  pub exact : (k : Text) → lookup k c.counts ≡ positive (occurrences k open_keys)
  pub bounded : (k : Text) → occurrences k open_keys ≤ limit
  pub total : sum_values c.counts ≡ length open_keys

or_zero-positive : (n : ℕ) → or_zero (positive n) ≡ n
or_zero-positive zero = refl
or_zero-positive (suc n) = refl

-- Setting the counter of one key to what it should be.
insert-IsCount :
    (k : Text) (n limit : ℕ) (c : Counts) (before after : List Text)
    → IsCount limit c before
    → ((j : Text) → occurrences j after ≡ (if same k j then n else occurrences j before))
    → 0 < n
    → n ≤ limit
    → length after + occurrences k before ≡ length before + n
    → IsCount limit (record c { counts = insert k n c.counts }) after
insert-IsCount k n limit c before after v keys pos le total = record {
  healthy = v.healthy;
  one_entry = insert-IsDict k n c.counts v.one_entry;
  exact = λ j. lookup-insert k j n c.counts ∙ entry j;
  bounded = λ j. ground (arith, keys j, v.bounded j);
  total = ground (
    arith,
    sum_values-insert k n c.counts,
    ap or_zero (v.exact k),
    or_zero-positive (occurrences k before),
    v.total,
  );
}
  where
    positive_pos : (m : ℕ) → 0 < m → some m ≡ positive m
    positive_pos zero h = absurd (omega arith)
    positive_pos (suc m) h = refl

    entry :
        (j : Text)
        → (if same k j then some n else lookup j c.counts) ≡ positive (occurrences j after)
    entry j = elim (Bool-cases (same k j)) [
      | inl y ↦ rw (y, keys j, y) (positive_pos n pos)
      | inr f ↦ rw (f, keys j, f) (v.exact j)
    ]

-- `acquire` counts one more connection of the key if that is below the limit; otherwise it refuses
-- and the counters still count the same connections.
pub acquire-IsCount :
    (k : Text) (limit : ℕ) (c : Counts) (open_keys : List Text)
    → 0 < limit
    → IsCount limit c open_keys
    → ((occurrences k open_keys < limit)
        × ((acquire k limit c).1 ≡ ok tt)
        × IsCount limit (acquire k limit c).0 (k ∷ open_keys))
      ⊎ ((occurrences k open_keys ≡ limit)
          × ((acquire k limit c).1 ≡ err (http_error too_many_requests tunnel_limit_message))
          × IsCount limit (acquire k limit c).0 open_keys)
acquire-IsCount k limit c open_keys pos v =
    elim (Bool-cases (leb limit (occurrences k open_keys))) [
      | inr less ↦ inl (
        ground arith,
        ap (λ p. p.1) (acquired less),
        subst (λ p. IsCount limit p.0 (k ∷ open_keys)) (sym (acquired less))
            (insert-IsCount k (occurrences k open_keys + 1) limit c open_keys (k ∷ open_keys) v keys
              (omega arith) (ground arith) (omega arith)),
      )
      | inl full ↦ inr (
        ground (arith, v.bounded k),
        ap (λ p. p.1) (denied full),
        subst (λ p. IsCount limit p.0 open_keys) (sym (denied full))
            (insert-IsCount k (occurrences k open_keys) limit c open_keys open_keys v
              (λ j. ground arith) (ground arith) (v.bounded k) refl),
      )
    ]
  where
    count : or_zero (lookup k c.counts) ≡ occurrences k open_keys
    count = ap or_zero (v.exact k) ∙ or_zero-positive (occurrences k open_keys)

    keys :
        (j : Text)
        → occurrences j (k ∷ open_keys)
          ≡ (if same k j then occurrences k open_keys + 1 else occurrences j open_keys)
    keys j = unfold occurrences in ground arith

    acquired :
        leb limit (occurrences k open_keys) ≡ false
        → acquire k limit c
          ≡ (record c { counts = insert k (occurrences k open_keys + 1) c.counts }, ok tt)
    acquired less = unfold acquire in ground (arith, count, v.healthy)

    denied :
        leb limit (occurrences k open_keys) ≡ true
        → acquire k limit c ≡ (
          record c { counts = insert k (occurrences k open_keys) c.counts },
          err (http_error too_many_requests tunnel_limit_message),
        )
    denied full = unfold acquire in ground (arith, count, v.healthy)

remove-IsCount :
    (k : Text) (limit : ℕ) (c : Counts) (before after : List Text)
    → IsCount limit c before
    → ((j : Text) → occurrences j after ≡ (if same k j then 0 else occurrences j before))
    → length after + occurrences k before ≡ length before
    → IsCount limit (record c { counts = remove k c.counts }) after
remove-IsCount k limit c before after v keys total = record {
  healthy = v.healthy;
  one_entry = remove-IsDict k c.counts v.one_entry;
  exact = λ j. lookup-remove k j c.counts v.one_entry ∙ entry j;
  bounded = λ j. ground (arith, keys j, v.bounded j);
  total = ground (
    arith,
    sum_values-remove k c.counts,
    ap or_zero (v.exact k),
    or_zero-positive (occurrences k before),
    v.total,
  );
}
  where
    entry :
        (j : Text) → (if same k j then none else lookup j c.counts) ≡ positive (occurrences j after)
    entry j = elim (Bool-cases (same k j)) [
      | inl y ↦ rw (y, keys j, y)
      | inr f ↦ rw (f, keys j, f) (v.exact j)
    ]

-- `release` of an open connection counts one less.
pub release-IsCount :
    (k : Text) (limit : ℕ) (c : Counts) (open_keys : List Text)
    → IsCount limit c open_keys
    → 0 < occurrences k open_keys
    → IsCount limit (release k c) (close_one k open_keys)
release-IsCount k limit c open_keys v h = elim (Bool-cases (occurrences k open_keys == 1)) [
  | inl one ↦
      subst (λ d. IsCount limit d (close_one k open_keys)) (sym (last one))
        (remove-IsCount k limit c open_keys (close_one k open_keys) v
          (λ j. ground (arith, occurrences-close_one k j open_keys))
          (ground (arith, length-close_one k open_keys)))
  | inr more ↦
      subst (λ d. IsCount limit d (close_one k open_keys)) (sym (lower more))
        (insert-IsCount k (occurrences k open_keys - 1) limit c open_keys (close_one k open_keys) v
          (λ j. ground (arith, occurrences-close_one k j open_keys)) (ground arith)
          (ground (arith, v.bounded k)) (ground (arith, length-close_one k open_keys)))
]
  where
    count : (n : ℕ) → occurrences k open_keys ≡ n → lookup k c.counts ≡ positive n
    count n e = v.exact k ∙ ap positive e

    found : (n : ℕ) → 0 < n → positive n ≡ some n
    found zero p = absurd (omega arith)
    found (suc n) p = refl

    entry : lookup k c.counts ≡ some (occurrences k open_keys)
    entry = v.exact k ∙ found (occurrences k open_keys) h

    last :
        (occurrences k open_keys == 1) ≡ true
        → release k c ≡ record c { counts = remove k c.counts }
    last one = unfold release in ground (arith, entry, v.healthy)

    lower :
        (occurrences k open_keys == 1) ≡ false
        → release k c ≡ record c { counts = insert k (occurrences k open_keys - 1) c.counts }
    lower more = unfold release in ground (arith, entry, v.healthy)
