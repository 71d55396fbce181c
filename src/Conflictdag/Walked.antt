-- ===== src/Conflictdag/Walked.antt =====
-- The two walks of SetConflictAccepted one after the other, and which states they leave.
use zipp.Base.{
  ℕ, ◌≡◌, refl, sym, ap, ◌∙◌, inl, inr, [], ◌∷◌, some, Bool, true, false, length, elem, ◌==◌,
  Returns, arith, Option-cases, ==_refl,
}
use zipp.Base.Assoc.{lookup, sum_values}
use zipp.Base.Walkers.{Walkers, WalkerLaws, push_all, seen-push_all, Walked}
use zipp.Conflictdag.Restated.{HasState, IsFresh}
use zipp.Conflictdag.Acceptance.{AcceptInv, IsDone, IsAskedFor, accept_walk_lem}
use zipp.Conflictdag.Reached.{IsAncestor, itself, parent, IsReached, rival, child}
use zipp.Conflictdag.Rivals.{conflicting_ids_iff}
use zipp.Conflictdag.Rejection.{IsClosed, RejectInv, IsRejected, IsChild, reject_walk_lem}
use zipp.Conflictdag.{
  States, Conflict, ConflictDag, Accepting, conflicting, conflicting_ids, reject_fuel,
  set_conflict_accepted, targets,
}

module _ (states : States) (ws : Walkers) (laws : WalkerLaws ws) (d : ConflictDag) where
  open laws use {pending, seen}

  pub record Walks (id : ℕ) (r : Bool × ConflictDag) : Type 0 where
    pub between : Accepting states ws
    pub acceptance :
        Walked ws laws
          (AcceptInv states ws laws d id)
          (IsDone states ws laws d id)
          (IsAskedFor states ws laws d id)
          (push_all ws ws.new (id ∷ []))
          between
    pub rejection :
        Walked ws laws
          (RejectInv states ws laws between.dag (IsReached states d id))
          (IsRejected states ws laws between.dag (IsReached states d id))
          (IsChild states ws laws between.dag (IsReached states d id))
          between.rejection_walker
          r

  -- A child of a conflict between the walks is one of the conflict before them.
  IsReached-IsClosed :
      (id : ℕ) (s : Accepting states ws)
      → AcceptInv states ws laws d id s
      → IsClosed states ws laws s.dag (IsReached states d id)
  IsReached-IsClosed id s i k y c here h n g =
      let (c0, f, e, p, q, o) = i.restated.same k c h in
      child k y c0 here f
        (elim (i.spread k c c0 h f) [
          | inl same ↦ inl (ground arith)
          | inr (accepted, ancestor) ↦ inr ancestor
        ])
        (sym (ap (λ z. elem y (targets z d.child_conflicts)) e)
          ∙ sym (ap (λ m. elem y (targets c.id m)) i.children)
          ∙ g)

  -- Both walks end.
  pub walks_lem : (id : ℕ) → Returns (Walks id) (set_conflict_accepted states ws d id)
  unfolding set_conflict_accepted reject_fuel conflicting_ids
  walks_lem id =
      let (s, e, a) = accept_walk_lem states ws laws d id in
      let children =
        ap (λ m. sum_values (λ c. length (targets c.id m)) s.dag.conflicts) a.inv.children
        ∙ a.inv.restated.weight (λ i p q. length (targets i d.child_conflicts)) in
      let (r, f, b) =
        reject_walk_lem states ws laws s.dag (IsReached states d id) (reject_fuel states ws d)
          s.modified s.rejection_walker (IsReached-IsClosed id s a.inv) a.inv.reached a.inv.queued
          (omega (arith, a.inv.paid, children)) in
      (r, rw (e, set_conflict_accepted) f, record { between = s; acceptance = a; rejection = b })

  module _ (distinct : (states.accepted == states.rejected) ≡ false) where
    -- What was not rejected at first is not rejected between the walks.
    pub still-IsFresh :
        (id k : ℕ) (r : Bool × ConflictDag) (w : Walks id r)
        → IsFresh states.rejected d.conflicts k
        → IsFresh states.rejected w.between.dag.conflicts k
    still-IsFresh id k r w f c h =
        let (c0, g, i, p, q, o) = w.acceptance.inv.restated.same k c h in
        elim o [ inl old ↦ ground (arith, f c0 g) | inr new ↦ ground arith ]

    pub started : (id : ℕ) → seen (push_all ws ws.new (id ∷ [])) id ≡ true
    started id = ground (arith, seen-push_all ws laws ws.new (id ∷ []) id, ==_refl id)

    -- What is stored at first is stored between the walks.
    stored_between :
        (id k : ℕ) (r : Bool × ConflictDag) (w : Walks id r) (c : Conflict)
        → lookup k d.conflicts ≡ some c
        → (c1 : Conflict) × (lookup k w.between.dag.conflicts ≡ some c1)
          × (c1.id ≡ c.id)
          × (c1.parents ≡ c.parents)
          × (c1.conflict_set_ids ≡ c.conflict_set_ids)
    stored_between id k r w c h = elim (Option-cases (lookup k w.between.dag.conflicts)) [
      | inl gone ↦ absurd (ground (arith, w.acceptance.inv.restated.kept k gone))
      | inr (c1, h1) ↦
          let (c0, g, i, p, q, o) = w.acceptance.inv.restated.same k c1 h1 in
          let same : c0 ≡ c = ground (arith, g, h) in
          (
            c1,
            h1,
            i ∙ ap (λ z. z.id) same,
            p ∙ ap (λ z. z.parents) same,
            q ∙ ap (λ z. z.conflict_set_ids) same,
          )
    ]

    pub ancestor-HasState :
        (id k : ℕ) (r : Bool × ConflictDag) (w : Walks id r)
        → IsAncestor states d id k
        → HasState states.accepted w.between.dag.conflicts k
    ancestor-HasState id k r w itself = w.acceptance.seen_done id (started id)
    ancestor-HasState id y r w (parent k _ c a h n e) =
        let (c1, h1, i, p, q) = stored_between id k r w c h in
        w.acceptance.all_done y (
          k,
          c1,
          h1,
          ancestor-HasState id k r w a c1 h1,
          (λ x f. ground (arith, f, h, n)),
          ap (elem y) p ∙ e,
        )

    pub rivals_seen :
        (id k y : ℕ) (r : Bool × ConflictDag) (w : Walks id r) (c : Conflict)
        → IsAncestor states d id k
        → lookup k d.conflicts ≡ some c
        → (c.confirmation_state == states.accepted) ≡ false
        → elem y (conflicting_ids d c) ≡ true
        → seen w.between.rejection_walker y ≡ true
    unfolding conflicting_ids
    rivals_seen id k y r w c a h n e =
        let (c1, h1, i, p, q) = stored_between id k r w c h in
        let ids : conflicting d.conflict_members c1.id c1.conflict_set_ids
            ≡ conflicting d.conflict_members c.id c.conflict_set_ids =
          rw (i, q) refl in
        w.acceptance.inv.rivals k y c1 h1 (ancestor-HasState id k r w a c1 h1)
          (λ x f. ground (arith, f, h, n)) (ap (elem y) ids ∙ e)

    -- All that is reached is rejected.
    pub reached-HasState :
        (id k : ℕ) (r : Bool × ConflictDag) (w : Walks id r)
        → IsReached states d id k
        → HasState states.rejected r.1.conflicts k
    reached-HasState id y r w (rival k _ c a h n v) =
        w.rejection.seen_done y (rivals_seen id k y r w c a h n ((conflicting_ids_iff d c y).1 v))
    reached-HasState id y r w (child k _ c v h o e) =
        let (c1, h1, i1, p1, q1) = stored_between id k r w c h in
        elim (Option-cases (lookup k r.1.conflicts)) [
          | inl gone ↦ absurd (ground (arith, h1, w.rejection.inv.restated.kept k gone))
          | inr (c2, h2) ↦
              let (c3, h3, i2, p2, q2, o2) = w.rejection.inv.restated.same k c2 h2 in
              let same : c3 ≡ c1 = ground (arith, h1, h3) in
              w.rejection.all_done y (
                k,
                c2,
                h2,
                reached-HasState id k r w v c2 h2,
                fresh,
                ap (λ m. elem y (targets c2.id m)) w.acceptance.inv.children
                    ∙ ap (λ z. elem y (targets z d.child_conflicts)) (i2 ∙ ap (λ z. z.id) same ∙ i1)
                    ∙ e,
              )
        ]
      where
        fresh : IsFresh states.rejected w.between.dag.conflicts k
        fresh x g = elim o [
          | inr ancestor ↦ ground (arith, ancestor-HasState id k r w ancestor x g, distinct)
          | inl before ↦ still-IsFresh id k r w (λ z f. ground (arith, f, h, before)) x g
        ]
