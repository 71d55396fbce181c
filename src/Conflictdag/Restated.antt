-- ===== src/Conflictdag/Restated.antt =====
-- Conflicts of which only the states have changed, to one state.
use mathlib.Core.Path.{subst}
use zipp.Base.{
  ℕ, ◌≡◌, refl, ap, ◌∙◌, ◌⊎◌, inl, inr, List, none, some, true, false, ◌==◌, arith, Bool-cases,
}
use zipp.Base.Assoc.{lookup, insert, lookup-insert, sum_values, sum_values-insert_old}
use zipp.Conflictdag.{Conflict}

-- The conflict is not stored, or has the state.
abbrev pub HasState : ℕ → List (ℕ × Conflict) → ℕ → Type 0
HasState state m y = (c : Conflict) → lookup y m ≡ some c → c.confirmation_state ≡ state

-- The conflict does not have the state.
abbrev pub IsFresh : ℕ → List (ℕ × Conflict) → ℕ → Type 0
IsFresh state m k = (c : Conflict) → lookup k m ≡ some c → (c.confirmation_state == state) ≡ false

-- The conflicts are the same but for their states, which stay or become the given one.
pub record IsRestated (state : ℕ) (m m' : List (ℕ × Conflict)) : Type 0 where
  pub same :
      (k : ℕ) (c : Conflict)
      → lookup k m' ≡ some c
      → (c0 : Conflict) × (lookup k m ≡ some c0)
        × (c.id ≡ c0.id)
        × (c.parents ≡ c0.parents)
        × (c.conflict_set_ids ≡ c0.conflict_set_ids)
        × ((c.confirmation_state ≡ c0.confirmation_state) ⊎ (c.confirmation_state ≡ state))
  pub kept : (k : ℕ) → lookup k m' ≡ none → lookup k m ≡ none
  -- A weight that does not look at the state sums up to the same.
  pub weight :
      (w : ℕ → List ℕ → List ℕ → ℕ)
      → sum_values (λ c. w c.id c.parents c.conflict_set_ids) m'
        ≡ sum_values (λ c. w c.id c.parents c.conflict_set_ids) m

pub IsRestated-refl : (state : ℕ) (m : List (ℕ × Conflict)) → IsRestated state m m
IsRestated-refl state m = record {
  same = λ k c h. (c, h, refl, refl, refl, inl refl);
  kept = λ k h. h;
  weight = λ w. refl;
}

abbrev pub restate : ℕ → Conflict → Conflict
restate state c = record c { confirmation_state = state }

pub insert-IsRestated :
    (state : ℕ) (m m' : List (ℕ × Conflict)) (k : ℕ) (c : Conflict)
    → IsRestated state m m'
    → lookup k m' ≡ some c
    → IsRestated state m (insert k (restate state c) m')
insert-IsRestated state m m' k c v h =
    let (c0, f, i, p, q, o) = v.same k c h in
    record {
      same = λ j x g. elim (Bool-cases (k == j)) [
        | inr differs ↦ v.same j x (ground (arith, lookup-insert k j (restate state c) m'))
        | inl now ↦
            let e : x ≡ restate state c = ground (arith, lookup-insert k j (restate state c) m') in
            (
              c0,
              subst (λ z. lookup z m ≡ some c0) (ground arith) f,
              ap (λ z. z.id) e ∙ i,
              ap (λ z. z.parents) e ∙ p,
              ap (λ z. z.conflict_set_ids) e ∙ q,
              inr (ap (λ z. z.confirmation_state) e),
            )
      ];
      kept = λ j g. v.kept j (ground (arith, lookup-insert k j (restate state c) m'));
      weight = λ w. omega (
        arith,
        sum_values-insert_old (λ c. w c.id c.parents c.conflict_set_ids) k (restate state c) c m' h,
        v.weight w,
      );
    }

-- Setting the state of one conflict to what is asked for.
pub insert-HasState :
    (state : ℕ) (m : List (ℕ × Conflict)) (k y : ℕ) (c : Conflict)
    → ((k == y) ≡ true) ⊎ HasState state m y
    → HasState state (insert k (restate state c) m) y
insert-HasState state m k y c (inl now) x h = ground (arith, lookup-insert k y (restate state c) m)
insert-HasState state m k y c (inr old) x h = elim (Bool-cases (k == y)) [
  | inl now ↦ ground (arith, lookup-insert k y (restate state c) m)
  | inr differs ↦ old x (ground (arith, lookup-insert k y (restate state c) m))
]

-- A state that differs from the one before is the given one, and its conflict is good.
abbrev pub Spreads : ℕ → (ℕ → Type 0) → List (ℕ × Conflict) → List (ℕ × Conflict) → Type 0
Spreads state Good m m' =
    (k : ℕ) (c c0 : Conflict)
    → lookup k m' ≡ some c
    → lookup k m ≡ some c0
    → (c.confirmation_state ≡ c0.confirmation_state) ⊎ ((c.confirmation_state ≡ state) × Good k)

pub insert-Spreads :
    (state : ℕ) (Good : ℕ → Type 0) (m m' : List (ℕ × Conflict)) (k : ℕ) (c : Conflict)
    → Spreads state Good m m'
    → Good k
    → Spreads state Good m (insert k (restate state c) m')
insert-Spreads state Good m m' k c v good j x x0 h g = elim (Bool-cases (k == j)) [
  | inr differs ↦ v j x x0 (ground (arith, lookup-insert k j (restate state c) m')) g
  | inl now ↦
      let key : k ≡ j = ground (arith, now) in
      inr (ground (arith, lookup-insert k j (restate state c) m'), subst Good key good)
]
