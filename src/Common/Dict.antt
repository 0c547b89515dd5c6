-- ===== src/Common/Dict.antt =====
-- A Go map with string keys, as an association list. The order of the entries is the order in which
-- `range` visits them: a theorem for every list holds for every order.
use mathlib.Core.Path.{◌≡◌, refl}
use mathlib.Core.Option.{Option, none, some}
use mathlib.Core.List.{List, [], ◌∷◌, ◌++◌}
use native.Mathlib.Omega.{arith}
use booster.Common.Tests.{if◌then◌else◌, Bytes, ◌=ᵇ◌, =ᵇ_iff, =ᵇ_refl}

abbrev pub Dict {ℓ} : Type ℓ → Type ℓ
Dict V = List (Bytes × V)

module _ {ℓ} {V : Type ℓ} where
  -- v, ok := m[k]
  unfoldable pub lookup : Bytes → Dict V → Option V
  lookup k [] = none
  lookup k ((j, v) ∷ m) = if j =ᵇ k then some v else lookup k m

  -- m[k] = v
  unfoldable pub insert : Bytes → V → Dict V → Dict V
  insert k v [] = (k, v) ∷ []
  insert k v ((j, w) ∷ m) = if j =ᵇ k then (j, v) ∷ m else (j, w) ∷ insert k v m

  -- delete(m, k)
  unfoldable pub delete : Bytes → Dict V → Dict V
  delete k [] = []
  delete k ((j, v) ∷ m) = let rest = delete k m in if j =ᵇ k then rest else (j, v) ∷ rest

  abbrev pub values : Dict V → List V
  values [] = []
  values ((k, v) ∷ m) = v ∷ values m

  -- No key has two entries: what makes such a list a map.
  abbrev pub IsMap : Dict V → Type ℓ
  IsMap [] = Unit {ℓ}
  IsMap ((k, v) ∷ m) = (lookup k m ≡ none) × IsMap m

module _ {ℓ} {V : Type ℓ} where
  pub lookup-insert :
      (k j : Bytes) (v : V) (m : Dict V)
      → lookup j (insert k v m) ≡ (if k =ᵇ j then some v else lookup j m)
  unfolding lookup insert
  lookup-insert k j v [] = refl
  lookup-insert k j v ((i, w) ∷ m) =
      ground (arith, =ᵇ_iff k j, =ᵇ_iff i k, =ᵇ_iff i j, lookup-insert k j v m)

  pub insert-insert : (k : Bytes) (v w : V) (m : Dict V) → insert k v (insert k w m) ≡ insert k v m
  unfolding insert
  insert-insert k v w [] = ground (arith, =ᵇ_refl k)
  insert-insert k v w ((i, x) ∷ m) = ground (arith, =ᵇ_refl k, insert-insert k v w m)

  pub insert_present : (k : Bytes) (v : V) (m : Dict V) → lookup k m ≡ some v → insert k v m ≡ m
  unfolding lookup insert
  insert_present k v [] h = absurd (ground arith)
  insert_present k v ((i, w) ∷ m) h = ground (arith, insert_present k v m)

  pub lookup-delete :
      (k j : Bytes) (m : Dict V) → lookup j (delete k m) ≡ (if k =ᵇ j then none else lookup j m)
  unfolding lookup delete
  lookup-delete k j [] = ground arith
  lookup-delete k j ((i, w) ∷ m) =
      ground (arith, =ᵇ_iff k j, =ᵇ_iff i k, =ᵇ_iff i j, lookup-delete k j m)

  pub insert-IsMap : (k : Bytes) (v : V) (m : Dict V) → IsMap m → IsMap (insert k v m)
  unfolding lookup insert
  insert-IsMap k v [] h = (refl, tt)
  insert-IsMap k v ((i, w) ∷ m) h =
      ground (arith, =ᵇ_iff i k, =ᵇ_iff k i, lookup-insert k i v m, insert-IsMap k v m h.1)

  pub delete-IsMap : (k : Bytes) (m : Dict V) → IsMap m → IsMap (delete k m)
  unfolding delete
  delete-IsMap k [] h = tt
  delete-IsMap k ((i, w) ∷ m) h =
      ground (arith, =ᵇ_iff k i, =ᵇ_iff i k, lookup-delete k i m, delete-IsMap k m h.1)

  -- A new key goes to the end.
  pub insert_new :
      (k : Bytes) (v : V) (m : Dict V) → lookup k m ≡ none → insert k v m ≡ m ++ (k, v) ∷ []
  unfolding lookup insert
  insert_new k v [] h = refl
  insert_new k v ((i, w) ∷ m) h = ground (arith, insert_new k v m)

  pub delete_absent : (k : Bytes) (m : Dict V) → lookup k m ≡ none → delete k m ≡ m
  unfolding lookup delete
  delete_absent k [] h = refl
  delete_absent k ((i, w) ∷ m) h = ground (arith, delete_absent k m)

  pub lookup-append :
      (j : Bytes) (m n : Dict V) → lookup j m ≡ none → lookup j (m ++ n) ≡ lookup j n
  unfolding lookup
  lookup-append j [] n h = refl
  lookup-append j ((i, w) ∷ m) n h = ground (arith, lookup-append j m n)

  -- A key that is in neither of two lists is not in the first.
  pub lookup_prefix : (j : Bytes) (m n : Dict V) → lookup j (m ++ n) ≡ none → lookup j m ≡ none
  unfolding lookup
  lookup_prefix j [] n h = refl
  lookup_prefix j ((i, w) ∷ m) n h = ground (arith, lookup_prefix j m n)

  -- In a map that two lists make up, no key of the second is in the first.
  pub IsMap-append_fresh :
      (m : Dict V) (k : Bytes) (v : V) (n : Dict V) → IsMap (m ++ (k, v) ∷ n) → lookup k m ≡ none
  unfolding lookup
  IsMap-append_fresh [] k v n h = refl
  IsMap-append_fresh ((i, w) ∷ m) k v n h = ground (
    arith,
    =ᵇ_iff i k,
    =ᵇ_refl i,
    IsMap-append_fresh m k v n h.1,
    lookup-append i m ((k, v) ∷ n),
    lookup_prefix i m ((k, v) ∷ n) h.0,
  )
