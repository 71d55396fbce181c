-- ===== src/Conflictdag/Accepted.antt =====
-- SetConflictAccepted as a whole: the confirmation walk and then the rejection walk.
use zipp.Base.{
  ℕ, ◌≡◌, sym, ap, ◌∙◌, ◌⊎◌, inl, inr, none, some, Bool, true, false, elem, ◌==◌, Returns, arith,
}
use zipp.Base.Assoc.{lookup}
use zipp.Base.Walkers.{Walkers, WalkerLaws}
use zipp.Conflictdag.References.{IsReferenced}
use zipp.Conflictdag.Restated.{HasState, IsFresh}
use zipp.Conflictdag.Reached.{IsAncestor, itself, IsReached}
use zipp.Conflictdag.Rivals.{IsRival, conflicting_ids_iff}
use zipp.Conflictdag.{States, Conflict, ConflictDag, set_conflict_accepted, targets}
use zipp.Conflictdag.Walked.{
  walks_lem, ancestor-HasState, rivals_seen, reached-HasState, still-IsFresh,
}

module _ (states : States) (ws : Walkers) (laws : WalkerLaws ws) (d : ConflictDag) where
  open laws use {pending, seen}

  -- A state is as it was, or it is that of an accepted ancestor or of a rejected conflict that is
  -- reached.
  abbrev pub IsSettled : ℕ → ℕ → ℕ → ℕ → Type 0
  IsSettled id k before after =
      (after ≡ before)
      ⊎ ((after ≡ states.accepted) × IsAncestor states d id k)
      ⊎ ((after ≡ states.rejected) × IsReached states d id k)

  -- What SetConflictAccepted leaves.
  pub record IsSpread (id : ℕ) (r : Bool × ConflictDag) : Type 0 where
    pub settled :
        (k : ℕ) (c : Conflict)
        → lookup k r.1.conflicts ≡ some c
        → (c0 : Conflict) × (lookup k d.conflicts ≡ some c0)
          × IsSettled id k c0.confirmation_state c.confirmation_state
          × (c.id ≡ c0.id)
          × (c.parents ≡ c0.parents)
          × (c.conflict_set_ids ≡ c0.conflict_set_ids)
    pub kept : (k : ℕ) → lookup k r.1.conflicts ≡ none → lookup k d.conflicts ≡ none
    pub reached_rejected :
        (k : ℕ) → IsReached states d id k → HasState states.rejected r.1.conflicts k
    pub ancestor_accepted :
        (k : ℕ) (c : Conflict)
        → IsAncestor states d id k
        → lookup k r.1.conflicts ≡ some c
        → (c.confirmation_state ≡ states.accepted)
          ⊎ ((c.confirmation_state ≡ states.rejected) × IsReached states d id k)
    pub conflicting_rejected :
        (c : Conflict) (y : ℕ)
        → lookup id d.conflicts ≡ some c
        → (c.confirmation_state == states.accepted) ≡ false
        → IsRival d c y
        → HasState states.rejected r.1.conflicts y
    pub children_rejected :
        (k y : ℕ) (c : Conflict)
        → IsFresh states.rejected d.conflicts k
        → lookup k r.1.conflicts ≡ some c
        → c.confirmation_state ≡ states.rejected
        → elem y (targets c.id d.child_conflicts) ≡ true
        → HasState states.rejected r.1.conflicts y

  module _ (distinct : (states.accepted == states.rejected) ≡ false) where
    -- With a walker that takes each element once, in the order of the pushes, and with Accepted and
    -- Rejected different states, SetConflictAccepted ends, for every DAG. The ancestors are the
    -- conflict that it is called with and the parents of the stored ancestors that were not accepted
    -- before. The rejections reach the other members of the conflict sets of the stored ancestors
    -- that were not accepted before, and the children of every stored conflict that they reach and
    -- that was not rejected before or is an ancestor. All stored conflicts that the rejections reach
    -- are rejected, and every other stored ancestor, such as the conflict that it is called with, is
    -- accepted. All other stored conflicts keep their states: a state is as it was, or that of an
    -- accepted ancestor, or that of a rejected conflict that is reached. The same conflicts are
    -- stored, with the IDs, parents and conflict sets that they had. In particular, if the
    -- conflict that it is called with was not accepted before, then all stored conflicts that share a
    -- conflict set with it are rejected; and the stored children of every conflict that was not
    -- rejected before and is now are rejected.
    pub set_conflict_accepted_lem :
        (id : ℕ) → Returns (IsSpread id) (set_conflict_accepted states ws d id)
    set_conflict_accepted_lem id =
        let (r, e, w) = walks_lem states ws laws d id in
        (
          r,
          e,
          record {
            settled = λ k c h.
                let (c1, h1, i1, p1, q1, o1) = w.rejection.inv.restated.same k c h in
                let (c0, h0, i0, p0, q0, o0) = w.acceptance.inv.restated.same k c1 h1 in
                (
                  c0,
                  h0,
                  elim (w.rejection.inv.spread k c c1 h h1) [
                    | inr rejected ↦ inr (inr rejected)
                    | inl old ↦ elim (w.acceptance.inv.spread k c1 c0 h1 h0) [
                      | inl older ↦ inl (old ∙ older)
                      | inr (accepted, ancestor) ↦ inr (inl (old ∙ accepted, ancestor))
                    ]
                  ],
                  i1 ∙ i0,
                  p1 ∙ p0,
                  q1 ∙ q0,
                );
            kept = λ k h. w.acceptance.inv.restated.kept k (w.rejection.inv.restated.kept k h);
            reached_rejected = λ k v. reached-HasState states ws laws d distinct id k r w v;
            ancestor_accepted = λ k c a h.
                let (c0, g, i, p, q, o) = w.rejection.inv.restated.same k c h in
                elim (w.rejection.inv.spread k c c0 h g) [
                  | inl old ↦
                      inl (old ∙ ancestor-HasState states ws laws d distinct id k r w a c0 g)
                  | inr new ↦ inr new
                ];
            conflicting_rejected = λ c y h n f. w.rejection.seen_done y (
                rivals_seen states ws laws d distinct id id y r w c itself h n
                  ((conflicting_ids_iff d c y).1 f));
            children_rejected = λ k y c f h s g. w.rejection.all_done y (
              k,
              c,
              h,
              s,
              still-IsFresh states ws laws d distinct id k r w f,
              ap (λ m. elem y (targets c.id m)) w.acceptance.inv.children ∙ g,
            );
          },
        )

    -- With a walker that takes each element once, in the order of the pushes, with Accepted and
    -- Rejected different states, and with a DAG whose conflicts are stored under their IDs and stand
    -- among the child references of all their parents, SetConflictAccepted ends, and the stored
    -- parents of every conflict that was not accepted before and is now are accepted.
    pub set_conflict_accepted-parents :
        (id : ℕ)
        → IsReferenced d
        → Returns
            (λ r.
              (k y : ℕ) (c : Conflict)
              → IsFresh states.accepted d.conflicts k
              → lookup k r.1.conflicts ≡ some c
              → c.confirmation_state ≡ states.accepted
              → elem y c.parents ≡ true
              → HasState states.accepted r.1.conflicts y)
            (set_conflict_accepted states ws d id)
    set_conflict_accepted-parents id ref =
        let (r, e, w) = walks_lem states ws laws d id in
        (
          r,
          e,
          λ k y c f h s g p o.
              let (c1, h1, ci, cp, cq, cs) = w.rejection.inv.restated.same k c h in
              let (p1, o1, pi, pp, pq, ps) = w.rejection.inv.restated.same y p o in
              let (c0, h0, ci0, cp0, cq0, cs0) = w.acceptance.inv.restated.same k c1 h1 in
              let (p0, o0, pi0, pp0, pq0, ps0) = w.acceptance.inv.restated.same y p1 o1 in
              let accepted : c1.confirmation_state ≡ states.accepted = elim cs [
                | inl old ↦ sym old ∙ s
                | inr new ↦ absurd (ground (arith, distinct))
              ] in
              let parent : p1.confirmation_state ≡ states.accepted =
                w.acceptance.all_done y (k, c1, h1, accepted, f, sym (ap (elem y) cp) ∙ g) p1 o1 in
              elim ps [
                | inl old ↦ old ∙ parent
                | inr new ↦
                    let child : elem k (targets p0.id d.child_conflicts) ≡ true =
                      rw (ref.stored y p0 o0)
                        (ref.referenced k y c0 h0 (sym (ap (elem y) (cp ∙ cp0)) ∙ g)) in
                    let below : elem k (targets p.id w.between.dag.child_conflicts) ≡ true =
                      rw (pi, pi0, w.acceptance.inv.children) child in
                    absurd (
                      ground (
                        arith,
                        distinct,
                        w.rejection.all_done k
                            (y, p, o, new, (λ x z. ground (arith, z, o1, parent, distinct)), below)
                            c h,
                      ))
              ],
        )

  -- The references are as they were, and so are the conflicts' IDs and parents.
  pub set_conflict_accepted-IsReferenced :
      (id : ℕ)
      → IsReferenced d
      → Returns (λ r. IsReferenced r.1) (set_conflict_accepted states ws d id)
  set_conflict_accepted-IsReferenced id ref =
      let (r, e, w) = walks_lem states ws laws d id in
      let children : r.1.child_conflicts ≡ d.child_conflicts =
        w.rejection.inv.children ∙ w.acceptance.inv.children in
      (
        r,
        e,
        record {
          stored = λ k c h.
              let (c1, h1, i1, p1, q1, o1) = w.rejection.inv.restated.same k c h in
              let (c0, h0, i0, p0, q0, o0) = w.acceptance.inv.restated.same k c1 h1 in
              i1 ∙ i0 ∙ ref.stored k c0 h0;
          referenced = λ k y c h g.
              let (c1, h1, i1, p1, q1, o1) = w.rejection.inv.restated.same k c h in
              let (c0, h0, i0, p0, q0, o0) = w.acceptance.inv.restated.same k c1 h1 in
              ap (λ l. elem k (targets y l)) children
              ∙ ref.referenced k y c0 h0 (sym (ap (elem y) (p1 ∙ p0)) ∙ g);
        },
      )
