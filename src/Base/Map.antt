-- ===== src/Base/Map.antt =====
-- Go maps with string keys, as association lists.
use mathlib.Core.Path.{◌≡◌, refl}
use mathlib.Core.Logic.{◌≢◌, ◌⊎◌, inl, inr}
use mathlib.Core.List.{List, [], ◌∷◌}
use mathlib.Core.Option.{Option, none, some}
use native.Mathlib.Omega.{arith}
use loxtu_go.Base.Tests.{if◌then◌else◌, Bool-cases}
use loxtu_go.Base.Text.{Str, str_eq, str_eq_iff, str_eq_refl}

abbrev pub Map {ℓ} : Type ℓ → Type ℓ
Map V = List (Str × V)

module _ {ℓ} {V : Type ℓ} where
  unfoldable pub lookup : Str → Map V → Option V
  lookup k [] = none
  lookup k ((j, v) ∷ m) = if str_eq j k then some v else lookup k m

  unfoldable pub insert : Str → V → Map V → Map V
  insert k v [] = (k, v) ∷ []
  insert k v ((j, w) ∷ m) = if str_eq j k then (k, v) ∷ m else (j, w) ∷ insert k v m

  unfoldable pub delete : Str → Map V → Map V
  delete k [] = []
  delete k ((j, w) ∷ m) = let rest = delete k m in if str_eq j k then rest else (j, w) ∷ rest

  pub lookup-insert :
      (k j : Str) (v : V) (m : Map V)
      → lookup j (insert k v m) ≡ (if str_eq k j then some v else lookup j m)
  unfolding lookup insert
  lookup-insert k j v [] = refl
  lookup-insert k j v ((i, w) ∷ m) =
      ground (arith, str_eq_iff k j, str_eq_iff i k, str_eq_iff i j, lookup-insert k j v m)

  pub lookup-delete :
      (k j : Str) (m : Map V) → lookup j (delete k m) ≡ (if str_eq k j then none else lookup j m)
  unfolding lookup delete
  lookup-delete k j [] = ground arith
  lookup-delete k j ((i, w) ∷ m) =
      ground (arith, str_eq_iff k j, str_eq_iff i k, str_eq_iff i j, lookup-delete k j m)

  pub lookup-insert_self : (k : Str) (v : V) (m : Map V) → lookup k (insert k v m) ≡ some v
  lookup-insert_self k v m = rw (lookup-insert k k v m, str_eq_refl k)

  pub lookup-delete_self : (k : Str) (m : Map V) → lookup k (delete k m) ≡ none
  lookup-delete_self k m = rw (lookup-delete k k m, str_eq_refl k)

  pub lookup-insert_ne :
      (k j : Str) (v : V) (m : Map V) → k ≢ j → lookup j (insert k v m) ≡ lookup j m
  lookup-insert_ne k j v m ne = ground (arith, lookup-insert k j v m, str_eq_iff k j)

  pub lookup-delete_ne : (k j : Str) (m : Map V) → k ≢ j → lookup j (delete k m) ≡ lookup j m
  lookup-delete_ne k j m ne = ground (arith, lookup-delete k j m, str_eq_iff k j)

  -- What is found after an insertion was inserted, or was there before.
  pub lookup-insert_cases :
      (k j : Str) (v x : V) (m : Map V)
      → lookup j (insert k v m) ≡ some x
      → ((k ≡ j) × (v ≡ x)) ⊎ (lookup j m ≡ some x)
  lookup-insert_cases k j v x m e = elim (Bool-cases (str_eq k j)) [
    | inl t ↦ inl ((str_eq_iff k j).0 t, cc (rw (lookup-insert k j v m, t) at e))
    | inr f ↦ inr (rw (lookup-insert k j v m, f) at e)
  ]

  -- What is found after a deletion was there before.
  pub lookup-delete_some :
      (k j : Str) (x : V) (m : Map V) → lookup j (delete k m) ≡ some x → lookup j m ≡ some x
  lookup-delete_some k j x m e = elim (Bool-cases (str_eq k j)) [
    | inl t ↦ absurd (cc (rw (lookup-delete k j m, t) at e))
    | inr f ↦ rw (lookup-delete k j m, f) at e
  ]

  pub lookup-delete_none :
      (k j : Str) (m : Map V) → lookup j m ≡ none → lookup j (delete k m) ≡ none
  lookup-delete_none k j m e = ground (arith, lookup-delete k j m)
