-- ===== src/Common/Dict.antt =====
-- `HashMap<String, V>` as an association list with one entry a key; the order of entries is not
-- part of its meaning, which is `lookup`.
use Prim.Native.Nat.{◌≤◌}
use mathlib.Core.Path.{◌≡◌, refl}
use mathlib.Core.Logic.{◌≢◌}
use mathlib.Core.Bool.{Bool}
use mathlib.Core.Option.{Option, none, some}
use mathlib.Core.List.{List, [], ◌∷◌}
use native.Mathlib.Omega.{arith}
use lab_stream_gate.Common.Tests.{if◌then◌else◌}
use lab_stream_gate.Common.Lists.{length}
use lab_stream_gate.Common.Text.{Text, same}

abbrev pub Dict {ℓ} : Type ℓ → Type ℓ
Dict V = List (Text × V)

module _ {ℓ} {V : Type ℓ} where
  unfoldable pub lookup : Text → Dict V → Option V
  lookup k [] = none
  lookup k ((j, v) ∷ m) = if same j k then some v else lookup k m

  unfoldable pub insert : Text → V → Dict V → Dict V
  insert k v [] = (k, v) ∷ []
  insert k v ((j, w) ∷ m) = if same j k then (k, v) ∷ m else (j, w) ∷ insert k v m

  unfoldable pub remove : Text → Dict V → Dict V
  remove k [] = []
  remove k ((j, w) ∷ m) = if same j k then m else (j, w) ∷ remove k m

  -- `HashMap::retain`, by a test on the values.
  unfoldable pub retain_values : (V → Bool) → Dict V → Dict V
  retain_values p [] = []
  retain_values p ((j, w) ∷ m) = if p w then (j, w) ∷ retain_values p m else retain_values p m

  -- No entry has the key.
  abbrev pub Lacks : Text → Dict V → Type 0
  Lacks k [] = Unit {0}
  Lacks k ((j, w) ∷ m) = (j ≢ k) × Lacks k m

  -- Each key has one entry.
  abbrev pub IsDict : Dict V → Type 0
  IsDict [] = Unit {0}
  IsDict ((j, w) ∷ m) = Lacks j m × IsDict m

  abbrev pub option_keep : (V → Bool) → Option V → Option V
  option_keep p none = none
  option_keep p (some v) = if p v then some v else none

  pub lookup-insert :
      (k j : Text) (v : V) (m : Dict V)
      → lookup j (insert k v m) ≡ (if same k j then some v else lookup j m)
  unfolding lookup insert
  lookup-insert k j v [] = refl
  lookup-insert k j v ((i, w) ∷ m) = ground (arith, lookup-insert k j v m)

  pub lookup_of_Lacks : (k : Text) (m : Dict V) → Lacks k m → lookup k m ≡ none
  unfolding lookup
  lookup_of_Lacks k [] h = refl
  lookup_of_Lacks k ((i, w) ∷ m) h = ground (arith, lookup_of_Lacks k m h.1)

  Lacks-of_lookup : (k : Text) (m : Dict V) → lookup k m ≡ none → Lacks k m
  unfolding lookup
  Lacks-of_lookup k [] h = tt
  Lacks-of_lookup k ((i, w) ∷ m) h = ground (arith, Lacks-of_lookup k m)

  pub lookup-remove :
      (k j : Text) (m : Dict V)
      → IsDict m
      → lookup j (remove k m) ≡ (if same k j then none else lookup j m)
  unfolding lookup remove
  lookup-remove k j [] h = ground arith
  lookup-remove k j ((i, w) ∷ m) h =
      ground (arith, lookup-remove k j m h.1, lookup_of_Lacks i m h.0)

  pub lookup-retain_values :
      (p : V → Bool) (j : Text) (m : Dict V)
      → IsDict m
      → lookup j (retain_values p m) ≡ option_keep p (lookup j m)
  unfolding lookup retain_values
  lookup-retain_values p j [] h = refl
  lookup-retain_values p j ((i, w) ∷ m) h =
      ground (arith, lookup-retain_values p j m h.1, lookup_of_Lacks i m h.0)

  Lacks-insert : (k j : Text) (v : V) (m : Dict V) → j ≢ k → Lacks k m → Lacks k (insert j v m)
  unfolding insert
  Lacks-insert k j v [] n h = (n, tt)
  Lacks-insert k j v ((i, w) ∷ m) n h = ground (arith, Lacks-insert k j v m n h.1)

  pub insert-IsDict : (k : Text) (v : V) (m : Dict V) → IsDict m → IsDict (insert k v m)
  unfolding insert
  insert-IsDict k v [] h = (tt, tt)
  insert-IsDict k v ((i, w) ∷ m) h =
      ground (arith, insert-IsDict k v m h.1, λ (n : k ≢ i). Lacks-insert i k v m n h.0)

  Lacks-remove : (k j : Text) (m : Dict V) → Lacks k m → Lacks k (remove j m)
  unfolding remove
  Lacks-remove k j [] h = tt
  Lacks-remove k j ((i, w) ∷ m) h = ground (arith, Lacks-remove k j m h.1)

  pub remove-IsDict : (k : Text) (m : Dict V) → IsDict m → IsDict (remove k m)
  unfolding remove
  remove-IsDict k [] h = tt
  remove-IsDict k ((i, w) ∷ m) h = ground (arith, remove-IsDict k m h.1, Lacks-remove i k m h.0)

  Lacks-retain_values :
      (p : V → Bool) (k : Text) (m : Dict V) → Lacks k m → Lacks k (retain_values p m)
  unfolding retain_values
  Lacks-retain_values p k [] h = tt
  Lacks-retain_values p k ((i, w) ∷ m) h = ground (arith, Lacks-retain_values p k m h.1)

  pub retain_values-IsDict : (p : V → Bool) (m : Dict V) → IsDict m → IsDict (retain_values p m)
  unfolding retain_values
  retain_values-IsDict p [] h = tt
  retain_values-IsDict p ((i, w) ∷ m) h =
      ground (arith, retain_values-IsDict p m h.1, Lacks-retain_values p i m h.0)

  -- A map of the same size after `retain` is the same map.
  length-retain_values-le : (p : V → Bool) (m : Dict V) → length (retain_values p m) ≤ length m
  unfolding retain_values
  length-retain_values-le p [] = omega arith
  length-retain_values-le p ((i, w) ∷ m) = ground (arith, length-retain_values-le p m)

  pub retain_values-eq_of_length :
      (p : V → Bool) (m : Dict V) → length (retain_values p m) ≡ length m → retain_values p m ≡ m
  unfolding retain_values
  retain_values-eq_of_length p [] h = refl
  retain_values-eq_of_length p ((i, w) ∷ m) h =
      ground (arith, retain_values-eq_of_length p m, length-retain_values-le p m)
