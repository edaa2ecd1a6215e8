-- ===== src/Base/Dict.antt =====
-- A Go map with text keys: an association list whose keys are distinct. A write to a key that is
-- there replaces its value.
use Prim.Native.String.{String}
use mathlib.Core.Path.{◌≡◌, refl, ap}
use shortener.Base.Tests.{Bool-cases, if◌then◌else◌}
use mathlib.Core.Logic.{◌≢◌, inl, inr}
use mathlib.Core.Option.{Option, none, some}
use mathlib.Core.List.{List, [], ◌∷◌, Memᴰ}
use native.Mathlib.Omega.{arith}
use text.Mathlib.Text.{◌==◌}
use text.Mathlib.TextEquality.{eq_iff}
use text.Mathlib.TextPositions.{eq_refl}

abbrev pub Dict {ℓ} : Type ℓ → Type ℓ
Dict V = List (String × V)

pair_path {ℓ} :
    {V : Type ℓ} {k j : String} {v w : V} → k ≡ j → v ≡ w → ◌≡◌ {A = String × V} (k, v) (j, w)
pair_path p q = λ i. (p i, q i)

module _ {ℓ} {V : Type ℓ} where
  unfoldable pub lookup : String → Dict V → Option V
  lookup k [] = none
  lookup k ((j, v) ∷ d) = if j == k then some v else lookup k d

  unfoldable pub insert : String → V → Dict V → Dict V
  insert k v [] = (k, v) ∷ []
  insert k v ((j, w) ∷ d) = if j == k then (k, v) ∷ d else (j, w) ∷ insert k v d

  unfoldable pub delete : String → Dict V → Dict V
  delete k [] = []
  delete k ((j, w) ∷ d) = let rest = delete k d in if j == k then rest else (j, w) ∷ rest

  -- Every key stands once.
  abbrev pub IsUnique : Dict V → Type ℓ
  IsUnique [] = Unit
  IsUnique ((k, v) ∷ d) = (lookup k d ≡ none) × IsUnique d

  pub lookup-nil : (k : String) → lookup k [] ≡ none
  unfolding lookup
  lookup-nil k = refl

  pub lookup-insert :
      (k j : String) (v : V) (d : Dict V)
      → lookup j (insert k v d) ≡ (if k == j then some v else lookup j d)
  unfolding lookup insert
  lookup-insert k j v [] = refl
  lookup-insert k j v ((i, w) ∷ d) =
      ground (arith, eq_iff k j, eq_iff i k, eq_iff i j, lookup-insert k j v d)

  pub lookup-delete :
      (k j : String) (d : Dict V) → lookup j (delete k d) ≡ (if k == j then none else lookup j d)
  unfolding lookup delete
  lookup-delete k j [] = ground arith
  lookup-delete k j ((i, w) ∷ d) =
      ground (arith, eq_iff k j, eq_iff i k, eq_iff i j, lookup-delete k j d)

  -- Deleting a key that was new before its insertion restores the list.
  pub delete-insert_self :
      (k : String) (v : V) (d : Dict V) → lookup k d ≡ none → delete k (insert k v d) ≡ d
  unfolding lookup insert delete
  delete-insert_self k v [] h = rw (eq_refl k)
  delete-insert_self k v ((j, w) ∷ d) h = ground (arith, delete-insert_self k v d)

  pub delete-insert_ne :
      (k j : String) (v : V) (d : Dict V)
      → k ≢ j
      → delete k (insert j v d) ≡ insert j v (delete k d)
  unfolding insert delete
  delete-insert_ne k j v [] ne = ground (arith, eq_iff j k)
  delete-insert_ne k j v ((i, w) ∷ d) ne =
      ground (arith, eq_iff j k, eq_iff i k, eq_iff i j, delete-insert_ne k j v d)

  pub insert-IsUnique : (k : String) (v : V) (d : Dict V) → IsUnique d → IsUnique (insert k v d)
  unfolding insert lookup
  insert-IsUnique k v [] h = (refl, tt)
  insert-IsUnique k v ((i, w) ∷ d) h =
      ground (arith, eq_iff i k, eq_iff k i, lookup-insert k i v d, insert-IsUnique k v d h.1)

  pub delete-IsUnique : (k : String) (d : Dict V) → IsUnique d → IsUnique (delete k d)
  unfolding delete
  delete-IsUnique k [] h = tt
  delete-IsUnique k ((i, w) ∷ d) h = ground (arith, lookup-delete k i d, delete-IsUnique k d h.1)

  -- An entry stands in the list exactly when the lookup of its key finds it.
  pub Memᴰ_of_lookup : (k : String) (v : V) (d : Dict V) → lookup k d ≡ some v → Memᴰ (k, v) d
  unfolding lookup
  Memᴰ_of_lookup k v [] h = cc
  Memᴰ_of_lookup k v ((i, w) ∷ d) h = elim (Bool-cases (i == k)) [
    | inl same ↦
        Memᴰ.head
          (pair_path ((eq_iff k i).0 (ground (arith, eq_iff i k, eq_iff k i))) (ground arith))
    | inr other ↦ Memᴰ.tail (Memᴰ_of_lookup k v d (rw other at h))
  ]

  pub lookup_of_Memᴰ :
      (k : String) (v : V) (d : Dict V) → IsUnique d → Memᴰ (k, v) d → lookup k d ≡ some v
  unfolding lookup
  lookup_of_Memᴰ k v [] h m = elim m [ ]
  lookup_of_Memᴰ k v ((i, w) ∷ d) h (Memᴰ.head e) =
      ground (arith, eq_iff i k, ap (λ (t : String × V). t.0) e, ap (λ (t : String × V). t.1) e)
  lookup_of_Memᴰ k v ((i, w) ∷ d) h (Memᴰ.tail m) =
      ground (arith, eq_iff i k, lookup_of_Memᴰ k v d h.1 m)

pub ruleset dict_laws = (lookup-insert, lookup-delete)
