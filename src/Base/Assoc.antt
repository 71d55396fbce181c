-- ===== src/Base/Assoc.antt =====
-- A Go map with numbers for keys, as an association list: a lookup, a write, a deletion.
use native.Mathlib.Decide.{dec_lt}
use Prim.Native.Nat.{ℕ, zero, suc, ◌+◌, ◌≤◌, ◌<◌}
use mathlib.Core.Path.{◌≡◌, refl, subst₂}
use mathlib.Core.Logic.{◌⊎◌, inl, inr}
use mathlib.Core.List.{List, [], ◌∷◌}
use mathlib.Core.Option.{Option, none, some}
use native.Mathlib.Omega.{arith}
use zipp.Base.Tests.{◌==◌, if◌then◌else◌}
use zipp.Base.Lists.{sum_by, get_elem?}

module _ {ℓ} {V : Type ℓ} where
  unfoldable pub lookup : ℕ → List (ℕ × V) → Option V
  lookup k [] = none
  lookup k ((j, v) ∷ m) = if j == k then some v else lookup k m

  -- `m[k] = v`
  unfoldable pub insert : ℕ → V → List (ℕ × V) → List (ℕ × V)
  insert k v [] = (k, v) ∷ []
  insert k v ((j, u) ∷ m) = if j == k then (k, v) ∷ m else (j, u) ∷ insert k v m

  -- `delete(m, k)`
  unfoldable pub delete : ℕ → List (ℕ × V) → List (ℕ × V)
  delete k [] = []
  delete k ((j, u) ∷ m) = if j == k then delete k m else (j, u) ∷ delete k m

  -- No key stands twice.
  abbrev pub IsMap : List (ℕ × V) → Type ℓ
  IsMap [] = Unit
  IsMap ((k, v) ∷ m) = (lookup k m ≡ none) × IsMap m

  pub lookup-insert :
      (k j : ℕ) (v : V) (m : List (ℕ × V))
      → lookup j (insert k v m) ≡ (if k == j then some v else lookup j m)
  unfolding lookup insert
  lookup-insert k j v [] = refl
  lookup-insert k j v ((i, u) ∷ m) = ground (arith, lookup-insert k j v m)

  pub lookup-delete :
      (k j : ℕ) (m : List (ℕ × V)) → lookup j (delete k m) ≡ (if k == j then none else lookup j m)
  unfolding lookup delete
  lookup-delete k j [] = ground arith
  lookup-delete k j ((i, u) ∷ m) = ground (arith, lookup-delete k j m)

  pub insert-IsMap : (k : ℕ) (v : V) (m : List (ℕ × V)) → IsMap m → IsMap (insert k v m)
  unfolding insert lookup
  insert-IsMap k v [] d = (refl, tt)
  insert-IsMap k v ((j, u) ∷ m) d = ground (arith, insert-IsMap k v m d.1, lookup-insert k j v m)

  pub delete-IsMap : (k : ℕ) (m : List (ℕ × V)) → IsMap m → IsMap (delete k m)
  unfolding delete
  delete-IsMap k [] d = tt
  delete-IsMap k ((j, u) ∷ m) d = ground (arith, delete-IsMap k m d.1, lookup-delete k j m)

  pub insert_same : (k : ℕ) (v : V) (m : List (ℕ × V)) → lookup k m ≡ some v → insert k v m ≡ m
  unfolding lookup insert
  insert_same k v [] h = ground arith
  insert_same k v ((j, u) ∷ m) h = ground (arith, insert_same k v m)

  -- The sum of a weight over the values.
  abbrev pub sum_values : (V → ℕ) → List (ℕ × V) → ℕ
  sum_values w = sum_by (λ e. w e.1)

  pub sum_values_mono :
      (w u : V → ℕ) (m : List (ℕ × V)) → ((v : V) → w v ≤ u v) → sum_values w m ≤ sum_values u m
  sum_values_mono w u [] h = omega arith
  sum_values_mono w u ((j, v) ∷ m) h = omega (arith, h v, sum_values_mono w u m h)

  pub sum_values-insert_new :
      (w : V → ℕ) (k : ℕ) (v : V) (m : List (ℕ × V))
      → lookup k m ≡ none
      → sum_values w (insert k v m) ≡ sum_values w m + w v
  unfolding lookup insert
  sum_values-insert_new w k v [] h = omega arith
  sum_values-insert_new w k v ((j, u) ∷ m) h = ground (arith, sum_values-insert_new w k v m)

  pub sum_values-insert_old :
      (w : V → ℕ) (k : ℕ) (v u : V) (m : List (ℕ × V))
      → lookup k m ≡ some u
      → sum_values w (insert k v m) + w u ≡ sum_values w m + w v
  unfolding lookup insert
  sum_values-insert_old w k v u [] h = ground arith
  sum_values-insert_old w k v u ((j, t) ∷ m) h = ground (arith, sum_values-insert_old w k v u m)

  pub delete_absent : (k : ℕ) (m : List (ℕ × V)) → lookup k m ≡ none → delete k m ≡ m
  unfolding lookup delete
  delete_absent k [] h = refl
  delete_absent k ((j, t) ∷ m) h = ground (arith, delete_absent k m)

  pub sum_values-delete :
      (w : V → ℕ) (k : ℕ) (u : V) (m : List (ℕ × V))
      → IsMap m
      → lookup k m ≡ some u
      → sum_values w (delete k m) + w u ≡ sum_values w m
  unfolding lookup delete
  sum_values-delete w k u [] d h = ground arith
  sum_values-delete w k u ((j, t) ∷ m) d h =
      ground (arith, sum_values-delete w k u m d.1, delete_absent k m)

  -- A weight of a value is at most the sum.
  pub weight-le-sum_values :
      (w : V → ℕ) (k : ℕ) (u : V) (m : List (ℕ × V))
      → lookup k m ≡ some u
      → w u < suc (sum_values w m)
  unfolding lookup
  weight-le-sum_values w k u [] h = ground arith
  weight-le-sum_values w k u ((j, t) ∷ m) h = ground (arith, weight-le-sum_values w k u m)

  lookup-insert_cases :
      (k j : ℕ) (v u : V) (m : List (ℕ × V))
      → lookup j (insert k v m) ≡ some u
      → ((k ≡ j) × (v ≡ u)) ⊎ (lookup j m ≡ some u)
  lookup-insert_cases k j v u m h = ground (arith, lookup-insert k j v m)

  -- A property of all entries is kept by a write of one that has it, and by a deletion.
  pub insert_all {κ} :
      (P : ℕ → V → Type κ) (k : ℕ) (v : V) (m : List (ℕ × V))
      → P k v
      → ((j : ℕ) (u : V) → lookup j m ≡ some u → P j u)
      → (j : ℕ) (u : V) → lookup j (insert k v m) ≡ some u
      → P j u
  insert_all P k v m p all j u h = elim (lookup-insert_cases k j v u m h) [
    | inl (e, f) ↦ subst₂ P e f p
    | inr old ↦ all j u old
  ]

  pub delete_all {κ} :
      (P : ℕ → V → Type κ) (k : ℕ) (m : List (ℕ × V))
      → ((j : ℕ) (u : V) → lookup j m ≡ some u → P j u)
      → (j : ℕ) (u : V) → lookup j (delete k m) ≡ some u
      → P j u
  delete_all P k m all j u h = all j u (ground (arith, lookup-delete k j m))

  -- What stands in the list at an index is what a lookup of its key gives, if no key stands twice.
  pub lookup-get_elem? :
      (m : List (ℕ × V)) (i : ℕ) (e : ℕ × V)
      → IsMap m
      → get_elem? m i ≡ some e
      → lookup e.0 m ≡ some e.1
  unfolding lookup
  lookup-get_elem? [] i e d h = ground arith
  lookup-get_elem? (x ∷ m) zero e d h = ground arith
  lookup-get_elem? (x ∷ m) (suc i) e d h = ground (arith, lookup-get_elem? m i e d.1 h)

  -- A sum that is not 0 has an entry whose weight is not 0.
  pub positive_value :
      (w : V → ℕ) (m : List (ℕ × V))
      → IsMap m
      → 0 < sum_values w m
      → (k : ℕ) × (v : V) × (lookup k m ≡ some v) × (0 < w v)
  unfolding lookup
  positive_value w [] d h = absurd (omega arith)
  positive_value w ((j, u) ∷ m) d h = elim (dec_lt 0 (w u)) [
    | yes p ↦ (j, u, ground arith, p)
    | no p ↦
        let (k, v, found, q) = positive_value w m d.1 (omega arith) in
        (k, v, ground (arith, d.0), q)
  ]
