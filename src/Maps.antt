-- ===== src/Maps.antt =====
-- Go's `map[string]V` as an association list, read through `lookup`.
use yuzu_agent_webrtc_toy.Prelude.{
  ℕ, ◌+◌, ◌≤◌, ◌&&◌, length, ◌==◌, ◌≡◌, refl, List, [], ◌∷◌, Option, none, some, arith,
  if◌then◌else◌,
}
use yuzu_agent_webrtc_toy.Text.{Str, str_eq, str_eq_iff, str_eq_refl}

abbrev pub Map {ℓ} : Type ℓ → Type ℓ
Map V = List (Str × V)

module _ {ℓ} {V : Type ℓ} where
  -- `m[k]`, with `none` for a missing key.
  unfoldable pub lookup : Str → Map V → Option V
  lookup k [] = none
  lookup k ((j, v) ∷ m) = if str_eq j k then some v else lookup k m

  -- `m[k] = v`
  unfoldable pub insert : Str → V → Map V → Map V
  insert k v [] = (k, v) ∷ []
  insert k v ((j, w) ∷ m) = if str_eq j k then (k, v) ∷ m else (j, w) ∷ insert k v m

  -- `delete(m, k)`
  unfoldable pub delete : Str → Map V → Map V
  delete k [] = []
  delete k ((j, w) ∷ m) = if str_eq j k then delete k m else (j, w) ∷ delete k m

  pub lookup-insert :
      (k j : Str) (v : V) (m : Map V)
      → lookup j (insert k v m) ≡ (if str_eq k j then some v else lookup j m)
  unfolding lookup insert
  lookup-insert k j v [] = refl
  lookup-insert k j v ((i, w) ∷ m) =
      ground (arith, str_eq_iff k j, str_eq_iff i k, str_eq_iff i j, lookup-insert k j v m)

  pub lookup-delete :
      (k j : Str) (m : Map V) → lookup j (delete k m) ≡ (if str_eq k j then none else lookup j m)
  unfolding lookup delete
  lookup-delete k j [] = ground arith
  lookup-delete k j ((i, w) ∷ m) =
      ground (arith, str_eq_iff k j, str_eq_iff i k, str_eq_iff i j, lookup-delete k j m)

  pub lookup-insert_self : (k : Str) (v : V) (m : Map V) → lookup k (insert k v m) ≡ some v
  lookup-insert_self k v m = rw (lookup-insert k k v m, str_eq_refl k)

  -- How often a key stands in an association list; a map of Go has it at most once.
  unfoldable pub occurrences : Str → Map V → ℕ
  occurrences k [] = 0
  occurrences k ((j, v) ∷ m) = (if str_eq j k then 1 else 0) + occurrences k m

  abbrev pub IsMap : Map V → Type 0
  IsMap m = (k : Str) → occurrences k m ≤ 1

  pub occurrences-insert :
      (k j : Str) (v : V) (m : Map V)
      → occurrences k (insert j v m)
        ≡ (if str_eq j k && (occurrences j m == 0) then 1 else occurrences k m)
  unfolding occurrences insert
  occurrences-insert k j v [] = ground arith
  occurrences-insert k j v ((i, w) ∷ m) =
      ground (arith, str_eq_iff j k, str_eq_iff i j, str_eq_iff i k, occurrences-insert k j v m)

  pub occurrences-delete :
      (k j : Str) (m : Map V)
      → occurrences k (delete j m) ≡ (if str_eq j k then 0 else occurrences k m)
  unfolding occurrences delete
  occurrences-delete k j [] = ground arith
  occurrences-delete k j ((i, w) ∷ m) =
      ground (arith, str_eq_iff j k, str_eq_iff i j, str_eq_iff i k, occurrences-delete k j m)

  pub insert-IsMap : (j : Str) (v : V) (m : Map V) → IsMap m → IsMap (insert j v m)
  insert-IsMap j v m h k = ground (arith, occurrences-insert k j v m, h k)

  pub delete-IsMap : (j : Str) (m : Map V) → IsMap m → IsMap (delete j m)
  delete-IsMap j m h k = ground (arith, occurrences-delete k j m, h k)

  pub lookup-absent : (k : Str) (m : Map V) → occurrences k m ≡ 0 → lookup k m ≡ none
  unfolding occurrences lookup
  lookup-absent k [] h = refl
  lookup-absent k ((j, v) ∷ m) h = ground (arith, lookup-absent k m)

  pub length-insert_new :
      (k : Str) (v : V) (m : Map V) → lookup k m ≡ none → length (insert k v m) ≡ length m + 1
  unfolding lookup insert
  length-insert_new k v [] h = refl
  length-insert_new k v ((j, w) ∷ m) h = ground (arith, length-insert_new k v m, h)

  pub length-delete : (k : Str) (m : Map V) → length (delete k m) + occurrences k m ≡ length m
  unfolding occurrences delete
  length-delete k [] = refl
  length-delete k ((j, w) ∷ m) = ground (arith, length-delete k m)
