-- ===== src/Conflictdag/Rejection.antt =====
-- The rejection walk of SetConflictAccepted: it ends, and rejects what is pushed and its children.
use mathlib.Core.Path.{subst}
use zipp.Base.{
  ℕ, ◌+◌, ◌≤◌, ◌≡◌, refl, sym, ap, ◌∙◌, ◌⊎◌, inl, inr, List, [], ◌∷◌, ◌++◌, none, some, Bool, true,
  false, length, elem, ◌==◌, if◌then◌else◌, Returns, arith, Bool-cases, Option-cases, ==_refl,
}
use zipp.Base.Assoc.{
  lookup, insert, lookup-insert, sum_values, sum_values-insert_old, sum_values_mono,
}
use zipp.Base.Walkers.{Walkers, WalkerLaws, walk, Step, Walked, walk_lem}
use zipp.Conflictdag.Restated.{
  HasState, IsFresh, IsRestated, IsRestated-refl, insert-IsRestated, restate, insert-HasState,
  Spreads, insert-Spreads,
}
use zipp.Conflictdag.{States, Conflict, ConflictDag, conflict_rejected, reject_step, targets}

module _ (states : States) (ws : Walkers) (laws : WalkerLaws ws) (d : ConflictDag)
    (Good : ℕ → Type 0) where
  open laws use {pending, seen}

  abbrev R : Type 0
  R = Bool × ConflictDag

  abbrev unless_rejected : (Conflict → ℕ) → Conflict → ℕ
  unless_rejected w c = if c.confirmation_state == states.rejected then 0 else w c

  abbrev children_of : Conflict → List ℕ
  children_of c = targets c.id d.child_conflicts

  unpushed : R → ℕ
  unpushed s = sum_values (unless_rejected (λ c. length (children_of c))) s.1.conflicts

  pub record RejectInv (s : R) : Type 0 where
    pub restated : IsRestated states.rejected d.conflicts s.1.conflicts
    pub children : s.1.child_conflicts ≡ d.child_conflicts
    pub spread : Spreads states.rejected Good d.conflicts s.1.conflicts

  -- What holds of a conflict holds of its children.
  abbrev pub IsClosed : Type 0
  IsClosed =
      (k y : ℕ) (c : Conflict)
      → Good k
      → lookup k d.conflicts ≡ some c
      → (c.confirmation_state == states.rejected) ≡ false
      → elem y (targets c.id d.child_conflicts) ≡ true
      → Good y

  abbrev pub IsRejected : ℕ → R → Type 0
  IsRejected y s = HasState states.rejected s.1.conflicts y

  -- A child of a conflict that the walk has rejected.
  abbrev pub IsChild : ℕ → R → Type 0
  IsChild y s =
      (k : ℕ) × (c : Conflict) × (lookup k s.1.conflicts ≡ some c)
      × (c.confirmation_state ≡ states.rejected)
      × IsFresh states.rejected d.conflicts k
      × (elem y (targets c.id d.child_conflicts) ≡ true)

  abbrev rejected_of : ℕ → R → Conflict → R
  rejected_of id s c = (
    true,
    record s.1 {
      conflicts = insert id (restate states.rejected c) s.1.conflicts;
      events = s.1.events ++ conflict_rejected c.id ∷ [];
    },
  )

  abbrev step : ℕ → R → List ℕ × R
  step = reject_step states ws

  reject_step-cases :
      (id : ℕ) (s : R)
      → ((lookup id s.1.conflicts ≡ none) × (step id s ≡ ([], s)))
        ⊎ ((c : Conflict) × (lookup id s.1.conflicts ≡ some c)
            × (((c.confirmation_state ≡ states.rejected) × (step id s ≡ ([], (false, s.1))))
                ⊎ (((c.confirmation_state == states.rejected) ≡ false)
                    × (step id s ≡ (targets c.id s.1.child_conflicts, rejected_of id s c)))))
  unfolding reject_step
  reject_step-cases id s = elim (Option-cases (lookup id s.1.conflicts)) [
    | inl n ↦ inl (n, rw (n, reject_step) refl)
    | inr (c, h) ↦ elim (Bool-cases (c.confirmation_state == states.rejected)) [
      | inl already ↦ inr (c, h, inl (ground arith, rw (h, reject_step, already) refl))
      | inr new ↦ inr (c, h, inr (new, rw (h, reject_step, new) refl))
    ]
  ]

  -- What is not rejected in the walk was not rejected before it.
  unrejected :
      (id : ℕ) (s : R) (c c0 : Conflict)
      → RejectInv s
      → lookup id s.1.conflicts ≡ some c
      → lookup id d.conflicts ≡ some c0
      → (c.confirmation_state == states.rejected) ≡ false
      → (c0.confirmation_state == states.rejected) ≡ false
  unrejected id s c c0 i h g new = elim (i.spread id c c0 h g) [
    | inl same ↦ ground arith
    | inr (changed, good) ↦ absurd (ground (arith, ==_refl states.rejected))
  ]

  reject_step_lem :
      (id : ℕ) (s : R)
      → IsClosed
      → RejectInv s
      → Good id
      → Step ws laws unpushed RejectInv IsRejected IsChild Good id s (step id s)
  unfolding unpushed
  reject_step_lem id s closed i here = elim (reject_step-cases id s) [
    | inl (n, e) ↦
        subst (Step ws laws unpushed RejectInv IsRejected IsChild Good id s) (sym e) (record {
          pays = omega arith;
          keeps = i;
          does = λ c g. ground (arith, n);
          done = λ y g. g;
          asks = λ y r. inl r;
          good = λ y r. ground arith;
        })
    | inr (c, h, inl (already, e)) ↦
        subst (Step ws laws unpushed RejectInv IsRejected IsChild Good id s) (sym e) (record {
          pays = omega arith;
          keeps = record { restated = i.restated; children = i.children; spread = i.spread };
          does = λ x g. ground (arith, h);
          done = λ y g. g;
          asks = λ y r. inl r;
          good = λ y r. ground arith;
        })
    | inr (c, h, inr (new, e)) ↦
        let same : targets c.id s.1.child_conflicts ≡ children_of c =
          ap (targets c.id) i.children in
        subst (Step ws laws unpushed RejectInv IsRejected IsChild Good id s) (sym e) (record {
          pays =
              let sum =
                sum_values-insert_old (unless_rejected (λ c. length (children_of c))) id
                  (restate states.rejected c) c s.1.conflicts h in
              ground (arith, new, sum, ap length same, ==_refl states.rejected);
          keeps = record {
            restated =
                insert-IsRestated states.rejected d.conflicts s.1.conflicts id c i.restated h;
            children = i.children;
            spread =
                insert-Spreads states.rejected Good d.conflicts s.1.conflicts id c i.spread here;
          };
          good = λ y r.
              let (c0, g, e0, p0, q0, o0) = i.restated.same id c h in
              closed id y c0 here g (unrejected id s c c0 i h g new) (
                sym (ap (λ z. elem y (targets z d.child_conflicts)) e0)
                ∙ sym (ap (elem y) same)
                ∙ r);
          does = insert-HasState states.rejected s.1.conflicts id id c (inl (==_refl id));
          done = λ y g. insert-HasState states.rejected s.1.conflicts id y c (inr g);
          asks = λ y (k, x, g, a, f, p). elim (Bool-cases (id == k)) [
            | inl now ↦
                let b : x ≡ restate states.rejected c =
                  ground (arith, lookup-insert id k (restate states.rejected c) s.1.conflicts) in
                inr
                  (ap (elem y) same ∙ sym (ap (λ z. elem y (targets z.id d.child_conflicts)) b) ∙ p)
            | inr differs ↦ inl (
              k,
              x,
              ground (arith, lookup-insert id k (restate states.rejected c) s.1.conflicts),
              a,
              f,
              p,
            )
          ];
        })
  ]

  -- The rejection walk ends if the fuel covers what is pending and all children.
  pub reject_walk_lem :
      (fuel : ℕ) (modified : Bool) (w : ws.Walker)
      → IsClosed
      → ((y : ℕ) → elem y (pending w) ≡ true → Good y)
      → ((y : ℕ) → seen w y ≡ true → elem y (pending w) ≡ true)
      → length (pending w) + sum_values (λ c. length (targets c.id d.child_conflicts)) d.conflicts
        ≤ fuel
      → Returns (Walked ws laws RejectInv IsRejected IsChild w) (walk ws step fuel w (modified, d))
  unfolding unpushed
  reject_walk_lem fuel modified w closed good q b =
      walk_lem ws laws step unpushed RejectInv IsRejected IsChild Good
        (λ x s i g. reject_step_lem x s closed i g) fuel w (modified, d)
        (record {
          restated = IsRestated-refl states.rejected d.conflicts;
          children = refl;
          spread = λ k c c0 h g. inl (ground arith);
        })
        (record {
          all_good = good;
          handled = λ y h. inl (q y h);
          asked = λ y (k, c, h, a, f, p). ground (arith, f c h, ==_refl states.rejected);
        })
        (omega (
          arith,
          b,
          sum_values_mono (unless_rejected (λ c. length (children_of c)))
              (λ c. length (children_of c)) d.conflicts (λ c. ground arith),
        ))
