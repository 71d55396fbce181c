-- ===== src/Conflictdag/Acceptance.antt =====
-- The confirmation walk of SetConflictAccepted: it ends, accepts the conflict and its ancestors, and
-- has their conflicting conflicts in the rejection walker.
use mathlib.Core.Path.{subst}
use zipp.Base.{
  ℕ, ◌+◌, ◌≤◌, ◌≡◌, refl, sym, ap, ◌∙◌, ◌⊎◌, inl, inr, List, [], ◌∷◌, ◌++◌, none, some, true, false,
  length, elem, ◌==◌, if◌then◌else◌, Returns, arith, Bool-cases, Option-cases, ==_refl,
}
use zipp.Base.Assoc.{
  lookup, insert, lookup-insert, sum_values, sum_values-insert_old, sum_values_mono,
}
use zipp.Base.Walkers.{
  Walkers, WalkerLaws, push_all, seen-push_all, length-push_all, elem-push_all, pending-push_all,
  Step, Walked, walk_lem,
}
use zipp.Conflictdag.Restated.{
  HasState, IsFresh, IsRestated, IsRestated-refl, insert-IsRestated, restate, insert-HasState,
  Spreads, insert-Spreads,
}
use zipp.Conflictdag.Reached.{IsAncestor, itself, parent, IsReached, rival}
use zipp.Conflictdag.Rivals.{conflicting_ids_iff}
use zipp.Conflictdag.{
  States, Conflict, ConflictDag, conflicting, conflicting_ids, Accepting, conflict_accepted,
  accept_step, accept_fuel, accept_walk,
}

module _ (states : States) (ws : Walkers) (laws : WalkerLaws ws) (d : ConflictDag) (first : ℕ) where
  open laws use {pending, seen}

  abbrev A : Type 0
  A = Accepting states ws

  abbrev pub rivals_of : Conflict → List ℕ
  rivals_of c = conflicting d.conflict_members c.id c.conflict_set_ids

  -- What is left to push: the parents and the conflicting conflicts of what is not accepted yet.
  abbrev unless_accepted : (Conflict → ℕ) → Conflict → ℕ
  unless_accepted w c = if c.confirmation_state == states.accepted then 0 else w c

  potential : A → ℕ
  potential s = sum_values (unless_accepted (λ c. length c.parents)) s.dag.conflicts

  pub record AcceptInv (s : A) : Type 0 where
    pub restated : IsRestated states.accepted d.conflicts s.dag.conflicts
    pub children : s.dag.child_conflicts ≡ d.child_conflicts
    pub members : s.dag.conflict_members ≡ d.conflict_members
    pub queued :
        (y : ℕ) → seen s.rejection_walker y ≡ true → elem y (pending s.rejection_walker) ≡ true
    pub paid :
        length (pending s.rejection_walker)
          + sum_values (unless_accepted (λ c. length (rivals_of c))) s.dag.conflicts
        ≤ sum_values (λ c. length (rivals_of c)) d.conflicts
    pub rivals :
        (k y : ℕ) (c : Conflict)
        → lookup k s.dag.conflicts ≡ some c
        → c.confirmation_state ≡ states.accepted
        → IsFresh states.accepted d.conflicts k
        → elem y (rivals_of c) ≡ true
        → seen s.rejection_walker y ≡ true
    pub spread : Spreads states.accepted (IsAncestor states d first) d.conflicts s.dag.conflicts
    pub reached : (y : ℕ) → elem y (pending s.rejection_walker) ≡ true → IsReached states d first y

  abbrev pub IsDone : ℕ → A → Type 0
  IsDone y s = HasState states.accepted s.dag.conflicts y

  -- A parent of a conflict that the walk has accepted.
  abbrev pub IsAskedFor : ℕ → A → Type 0
  IsAskedFor y s =
      (k : ℕ) × (c : Conflict) × (lookup k s.dag.conflicts ≡ some c)
      × (c.confirmation_state ≡ states.accepted)
      × IsFresh states.accepted d.conflicts k
      × (elem y c.parents ≡ true)

  abbrev accepted_of : ℕ → ℕ → A → Conflict → A
  accepted_of event id s c = record {
    modified = true;
    rejection_walker = push_all ws s.rejection_walker (conflicting_ids s.dag c);
    dag = record s.dag {
      conflicts = insert id (restate states.accepted c) s.dag.conflicts;
      events = s.dag.events ++ conflict_accepted event ∷ [];
    };
  }

  accept_step-cases :
      (event id : ℕ) (s : A)
      → ((lookup id s.dag.conflicts ≡ none) × (accept_step states ws event id s ≡ ([], s)))
        ⊎ ((c : Conflict) × (lookup id s.dag.conflicts ≡ some c)
            × (((c.confirmation_state ≡ states.accepted)
                  × (accept_step states ws event id s ≡ ([], record s { modified = false })))
                ⊎ (((c.confirmation_state == states.accepted) ≡ false)
                    × (accept_step states ws event id s ≡ (c.parents, accepted_of event id s c)))))
  unfolding accept_step
  accept_step-cases event id s = elim (Option-cases (lookup id s.dag.conflicts)) [
    | inl n ↦ inl (n, rw (n, accept_step) refl)
    | inr (c, h) ↦ elim (Bool-cases (c.confirmation_state == states.accepted)) [
      | inl already ↦ inr (c, h, inl (ground arith, rw (h, accept_step, already) refl))
      | inr new ↦ inr (c, h, inr (new, rw (h, accept_step, new) refl))
    ]
  ]

  -- What is not accepted in the walk was not accepted before it.
  unaccepted :
      (id : ℕ) (s : A) (c c0 : Conflict)
      → AcceptInv s
      → lookup id s.dag.conflicts ≡ some c
      → lookup id d.conflicts ≡ some c0
      → (c.confirmation_state == states.accepted) ≡ false
      → (c0.confirmation_state == states.accepted) ≡ false
  unaccepted id s c c0 i h g new = elim (i.spread id c c0 h g) [
    | inl same ↦ ground arith
    | inr (changed, good) ↦ absurd (ground (arith, ==_refl states.accepted))
  ]

  accepting-AcceptInv :
      (event id : ℕ) (s : A) (c : Conflict)
      → AcceptInv s
      → lookup id s.dag.conflicts ≡ some c
      → (c.confirmation_state == states.accepted) ≡ false
      → IsAncestor states d first id
      → AcceptInv (accepted_of event id s c)
  unfolding conflicting_ids
  accepting-AcceptInv event id s c i h new here =
      let same : conflicting_ids s.dag c ≡ rivals_of c =
        ap (λ m. conflicting m c.id c.conflict_set_ids) i.members in
      record {
        restated = insert-IsRestated states.accepted d.conflicts s.dag.conflicts id c i.restated h;
        children = i.children;
        members = i.members;
        spread =
            insert-Spreads states.accepted (IsAncestor states d first) d.conflicts s.dag.conflicts
              id c i.spread here;
        reached = λ y g.
            elim (pending-push_all ws laws s.rejection_walker (conflicting_ids s.dag c) y g) [
              | inl old ↦ i.reached y old
              | inr pushed ↦
                  let (c0, g0, e0, p0, q0, o0) = i.restated.same id c h in
                  let moved : rivals_of c ≡ rivals_of c0 =
                    ap (λ z. conflicting d.conflict_members z c.conflict_set_ids) e0
                    ∙ ap (conflicting d.conflict_members c0.id) q0 in
                  rival id y c0 here g0 (unaccepted id s c c0 i h g0 new)
                    ((conflicting_ids_iff d c0 y).0 (sym (ap (elem y) (same ∙ moved)) ∙ pushed))
            ];
        queued = λ y g. elim (Bool-cases (seen s.rejection_walker y)) [
          | inl old ↦
              elem-push_all ws laws s.rejection_walker (conflicting_ids s.dag c) y
                (inl (i.queued y old))
          | inr first ↦ elem-push_all ws laws s.rejection_walker (conflicting_ids s.dag c) y (
              inr (
                first,
                ground
                    (arith, seen-push_all ws laws s.rejection_walker (conflicting_ids s.dag c) y),
              ))
        ];
        paid =
            let long = length-push_all ws laws s.rejection_walker (conflicting_ids s.dag c) in
            let sum =
              sum_values-insert_old (unless_accepted (λ c. length (rivals_of c))) id
                (restate states.accepted c) c s.dag.conflicts h in
            ground (arith, new, long, sum, i.paid, ap length same, ==_refl states.accepted);
        rivals = λ k y x g a f r. elim (Bool-cases (id == k)) [
          | inl now ↦
              let e : x ≡ restate states.accepted c =
                ground (arith, lookup-insert id k (restate states.accepted c) s.dag.conflicts) in
              let r' : elem y (conflicting_ids s.dag c) ≡ true =
                ap (elem y) same ∙ sym (ap (λ z. elem y (rivals_of z)) e) ∙ r in
              ground (arith, seen-push_all ws laws s.rejection_walker (conflicting_ids s.dag c) y)
          | inr differs ↦ ground (
            arith,
            seen-push_all ws laws s.rejection_walker (conflicting_ids s.dag c) y,
            i.rivals k y x
                (ground (arith, lookup-insert id k (restate states.accepted c) s.dag.conflicts)) a f
                r,
          )
        ];
      }

  accept_step_lem :
      (event id : ℕ) (s : A)
      → AcceptInv s
      → IsAncestor states d first id
      → Step ws laws potential AcceptInv IsDone IsAskedFor
          (IsAncestor states d first)
          id
          s
          (accept_step states ws event id s)
  unfolding potential
  accept_step_lem event id s i here = elim (accept_step-cases event id s) [
    | inl (n, e) ↦
        subst (Step ws laws potential AcceptInv IsDone IsAskedFor (IsAncestor states d first) id s)
          (sym e)
          (record {
            pays = omega arith;
            keeps = i;
            does = λ c g. ground (arith, n);
            done = λ y g. g;
            asks = λ y r. inl r;
            good = λ y r. ground arith;
          })
    | inr (c, h, inl (already, e)) ↦
        subst (Step ws laws potential AcceptInv IsDone IsAskedFor (IsAncestor states d first) id s)
          (sym e)
          (record {
            pays = omega arith;
            keeps = record {
              restated = i.restated;
              children = i.children;
              members = i.members;
              queued = i.queued;
              paid = i.paid;
              rivals = i.rivals;
              spread = i.spread;
              reached = i.reached;
            };
            does = λ x g. ground (arith, h);
            done = λ y g. g;
            asks = λ y r. inl r;
            good = λ y r. ground arith;
          })
    | inr (c, h, inr (new, e)) ↦
        subst (Step ws laws potential AcceptInv IsDone IsAskedFor (IsAncestor states d first) id s)
          (sym e)
          (record {
            pays =
                let sum =
                  sum_values-insert_old (unless_accepted (λ c. length c.parents)) id
                    (restate states.accepted c) c s.dag.conflicts h in
                ground (arith, new, sum, ==_refl states.accepted);
            keeps = accepting-AcceptInv event id s c i h new here;
            good = λ y r.
                let (c0, g, e0, p0, q0, o0) = i.restated.same id c h in
                parent id y c0 here g (unaccepted id s c c0 i h g new) (sym (ap (elem y) p0) ∙ r);
            does = insert-HasState states.accepted s.dag.conflicts id id c (inl (==_refl id));
            done = λ y g. insert-HasState states.accepted s.dag.conflicts id y c (inr g);
            asks = λ y (k, x, g, a, f, p). elim (Bool-cases (id == k)) [
              | inl now ↦
                  let b : x ≡ restate states.accepted c =
                    ground
                      (arith, lookup-insert id k (restate states.accepted c) s.dag.conflicts) in
                  inr (sym (ap (λ z. elem y z.parents) b) ∙ p)
              | inr differs ↦ inl (
                k,
                x,
                ground (arith, lookup-insert id k (restate states.accepted c) s.dag.conflicts),
                a,
                f,
                p,
              )
            ];
          })
  ]

  abbrev pub start : A
  start = record { modified = false; rejection_walker = ws.new; dag = d }

  start-AcceptInv : AcceptInv start
  start-AcceptInv = record {
    restated = IsRestated-refl states.accepted d.conflicts;
    children = refl;
    members = refl;
    spread = λ k c c0 h g. inl (ground arith);
    reached = λ y h. ground (arith, laws.pending_new);
    queued = λ y h. ground (arith, laws.seen_new y);
    paid = omega (
      arith,
      ap length laws.pending_new,
      sum_values_mono (unless_accepted (λ c. length (rivals_of c))) (λ c. length (rivals_of c))
          d.conflicts (λ c. ground arith),
    );
    rivals = λ k y c h a f r. ground (arith, f c h, ==_refl states.accepted);
  }

  -- The confirmation walk of SetConflictAccepted ends, for every DAG.
  pub accept_walk_lem :
      Returns
        (Walked ws laws AcceptInv IsDone IsAskedFor (push_all ws ws.new (first ∷ [])))
        (accept_walk states ws d first)
  unfolding accept_walk accept_fuel potential
  accept_walk_lem =
      let w : ws.Walker = push_all ws ws.new (first ∷ []) in
      walk_lem ws laws (accept_step states ws first) potential AcceptInv IsDone IsAskedFor
        (IsAncestor states d first) (λ x s i g. accept_step_lem first x s i g)
        (accept_fuel states ws d) w start start-AcceptInv
        (record {
          all_good = λ y h. elim (pending-push_all ws laws ws.new (first ∷ []) y h) [
            | inl old ↦ ground (arith, laws.pending_new)
            | inr now ↦ subst (IsAncestor states d first) (ground arith) itself
          ];
          handled = λ y h. inl (
              elem-push_all ws laws ws.new (first ∷ []) y (
                inr (
                  laws.seen_new y,
                  ground (arith, h, seen-push_all ws laws ws.new (first ∷ []) y, laws.seen_new y),
                )));
          asked = λ y (k, c, h, a, f, p). ground (arith, f c h, ==_refl states.accepted);
        })
        (omega (
          arith,
          length-push_all ws laws ws.new (first ∷ []),
          ap length laws.pending_new,
          sum_values_mono (unless_accepted (λ c. length c.parents)) (λ c. length c.parents)
              d.conflicts (λ c. ground arith),
        ))
