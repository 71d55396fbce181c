-- ===== src/Conflictdag/Creation.antt =====
-- CreateConflict: the state of the new conflict, and the references that it keeps.
use mathlib.Core.Path.{subst}
use zipp.Base.{
  sym, ◌&&◌, ℕ, ◌≡◌, refl, ap, ◌∙◌, ◌⊎◌, inl, inr, List, [], ◌∷◌, ◌++◌, some, Bool, true, false,
  elem, ◌==◌, ◌||◌, if◌then◌else◌, is_some, arith, Bool-cases, ==_refl,
}
use zipp.Base.Assoc.{lookup, insert, lookup-insert}
use zipp.Conflictdag.{
  States, Sets, Conflict, confirmation_state, ConflictDag, Event, targets, conflict_created,
  create_child_references, conflicting_ids, new_conflict, any_rejected, any_accepted,
}
use zipp.Conflictdag.Rivals.{IsRival, conflicting_ids_iff}
use zipp.Conflictdag.Membership.{
  SetLaws, IsMember, Enters, add_conflict_members_lem, add_conflict_members-Enters,
}
use zipp.Conflictdag.Members.{add_conflict_members, create_conflict}
use zipp.Conflictdag.References.{IsReferenced, insert-IsReferenced}

module _ (sets : Sets) where
  module _ (states : States) where
    any_rejected-elem :
        (d : ConflictDag) (l : List ℕ) (y : ℕ)
        → any_rejected states d l ≡ false
        → elem y l ≡ true
        → states.is_rejected (confirmation_state states d y) ≡ false
    unfolding any_rejected
    any_rejected-elem d [] y n h = ground arith
    any_rejected-elem d (x ∷ l) y n h = elim (Bool-cases (x == y)) [
      | inl now ↦
          subst (λ z. states.is_rejected (confirmation_state states d z) ≡ false) (ground arith)
            (first n)
      | inr later ↦ any_rejected-elem d l y (ground arith) (ground arith)
    ]
      where
        first :
            (states.is_rejected (confirmation_state states d x) || any_rejected states d l) ≡ false
            → states.is_rejected (confirmation_state states d x) ≡ false
        first n = ground arith

    any_accepted-elem :
        (d : ConflictDag) (l : List ℕ) (y : ℕ)
        → any_accepted states d l ≡ false
        → elem y l ≡ true
        → states.is_accepted (confirmation_state states d y) ≡ false
    unfolding any_accepted
    any_accepted-elem d [] y n h = ground arith
    any_accepted-elem d (x ∷ l) y n h = elim (Bool-cases (x == y)) [
      | inl now ↦
          subst (λ z. states.is_accepted (confirmation_state states d z) ≡ false) (ground arith)
            (first n)
      | inr later ↦ any_accepted-elem d l y (ground arith) (ground arith)
    ]
      where
        first :
            (states.is_accepted (confirmation_state states d x) || any_accepted states d l) ≡ false
            → states.is_accepted (confirmation_state states d x) ≡ false
        first n = ground arith

    any_rejected-some :
        (d : ConflictDag) (l : List ℕ)
        → any_rejected states d l ≡ true
        → (y : ℕ) × (elem y l ≡ true) × (states.is_rejected (confirmation_state states d y) ≡ true)
    unfolding any_rejected
    any_rejected-some d [] h = ground arith
    any_rejected-some d (x ∷ l) h =
        elim (Bool-cases (states.is_rejected (confirmation_state states d x))) [
          | inl here ↦ (x, ground (arith, ==_refl x), here)
          | inr there ↦
              let (y, e, r) = any_rejected-some d l (ground arith) in (y, ground (arith, e), r)
        ]

    any_accepted-some :
        (d : ConflictDag) (l : List ℕ)
        → any_accepted states d l ≡ true
        → (y : ℕ) × (elem y l ≡ true) × (states.is_accepted (confirmation_state states d y) ≡ true)
    unfolding any_accepted
    any_accepted-some d [] h = ground arith
    any_accepted-some d (x ∷ l) h =
        elim (Bool-cases (states.is_accepted (confirmation_state states d x))) [
          | inl here ↦ (x, ground (arith, ==_refl x), here)
          | inr there ↦
              let (y, e, r) = any_accepted-some d l (ground arith) in (y, ground (arith, e), r)
        ]

    -- A parent is rejected, or another member of a conflict set is accepted.
    abbrev pub IsBeaten : ConflictDag → ConflictDag → Conflict → List ℕ → Type 0
    IsBeaten d d' c parents =
        ((y : ℕ) × (elem y parents ≡ true)
          × (states.is_rejected (confirmation_state states d y) ≡ true))
        ⊎ ((y : ℕ) × IsRival d' c y × (states.is_accepted (confirmation_state states d y) ≡ true))

    abbrev pub IsUnbeaten : ConflictDag → ConflictDag → Conflict → List ℕ → Type 0
    IsUnbeaten d d' c parents =
        ((y : ℕ)
          → elem y parents ≡ true
          → states.is_rejected (confirmation_state states d y) ≡ false)
        × ((y : ℕ) → IsRival d' c y → states.is_accepted (confirmation_state states d y) ≡ false)

    -- The DAG with a new conflict.
    pub record IsNew (d : ConflictDag) (id : ℕ) (parents resources : List ℕ) (d' : ConflictDag)
        : Type 0 where
      pub conflict : Conflict
      pub stored : lookup id d'.conflicts ≡ some conflict
      pub has_parents : conflict.parents ≡ parents
      pub in_sets : (r : ℕ) → elem r conflict.conflict_set_ids ≡ elem r resources
      pub members :
          (r k : ℕ)
          → elem k (targets r d'.conflict_members)
            ≡ (elem k (targets r d.conflict_members) || ((id == k) && elem r resources))
      pub state :
          ((conflict.confirmation_state ≡ states.rejected) × IsBeaten d d' conflict parents)
          ⊎ ((conflict.confirmation_state ≡ states.pending) × IsUnbeaten d d' conflict parents)
      pub others : (k : ℕ) → (id == k) ≡ false → lookup k d'.conflicts ≡ lookup k d.conflicts

    -- The DAG before the new conflict is stored, and after.
    abbrev referred : ConflictDag → ℕ → List ℕ → List (ℕ × ℕ) → ConflictDag
    referred d id parents members = record d {
      conflict_members = members;
      child_conflicts = create_child_references parents id d.child_conflicts;
    }

    abbrev is_lost : ConflictDag → Conflict → Bool
    is_lost d c = any_rejected states d c.parents || any_accepted states d (conflicting_ids d c)

    abbrev stored_in : ConflictDag → ℕ → Conflict → ConflictDag
    stored_in d id c = record d {
      conflicts =
          insert id (if is_lost d c then record c { confirmation_state = states.rejected } else c)
            d.conflicts;
      events = d.events ++ conflict_created id ∷ [];
    }

    abbrev with_state : Conflict → ℕ → Conflict
    with_state c state = record c { confirmation_state = state }

    beaten :
        (d : ConflictDag) (id : ℕ) (parents : List ℕ) (c : Conflict) (members : List (ℕ × ℕ))
        → c.parents ≡ parents
        → is_lost (referred d id parents members) c ≡ true
        → IsBeaten d (referred d id parents members) c parents
    beaten d id parents c members p lost =
        let d1 : ConflictDag = referred d id parents members in
        elim (Bool-cases (any_rejected states d1 c.parents)) [
          | inl rejected ↦
              let (y, e, r) = any_rejected-some d1 c.parents rejected in
              inl (y, sym (ap (elem y) p) ∙ e, unfold confirmation_state in r)
          | inr none_rejected ↦
              let (y, e, r) = any_accepted-some d1 (conflicting_ids d1 c) (ground arith) in
              inr (y, (conflicting_ids_iff d1 c y).0 e, unfold confirmation_state in r)
        ]

    unbeaten :
        (d : ConflictDag) (id : ℕ) (parents : List ℕ) (c : Conflict) (members : List (ℕ × ℕ))
        → c.parents ≡ parents
        → is_lost (referred d id parents members) c ≡ false
        → IsUnbeaten d (referred d id parents members) c parents
    unbeaten d id parents c members p kept =
        let d1 : ConflictDag = referred d id parents members in
        (
          (λ y h.
              unfold confirmation_state in
              any_rejected-elem d1 c.parents y (ground arith) (ap (elem y) p ∙ h)),
          λ y h.
              unfold confirmation_state in
              any_accepted-elem d1 (conflicting_ids d1 c) y (ground arith)
                ((conflicting_ids_iff d1 c y).1 h),
        )

    -- What is left to show of the conflict that is stored.
    stored-IsNew :
        (d : ConflictDag) (id : ℕ) (parents resources : List ℕ) (c : Conflict) (state : ℕ)
        (members : List (ℕ × ℕ)) (events : List Event)
        → IsReferenced d
        → IsMember (new_conflict states id parents) c
        → Enters (new_conflict states id parents) c d.conflict_members members resources
        → ((state ≡ states.rejected) × IsBeaten d (referred d id parents members) c parents)
          ⊎ ((state ≡ states.pending) × IsUnbeaten d (referred d id parents members) c parents)
        → IsReferenced (record (referred d id parents members) {
          conflicts = insert id (with_state c state) d.conflicts;
          events = events;
        })
          × IsNew d id parents resources (record (referred d id parents members) {
            conflicts = insert id (with_state c state) d.conflicts;
            events = events;
          })
    unfolding new_conflict
    stored-IsNew d id parents resources c state members events v w n s = (
      insert-IsReferenced d _ id (with_state c state) parents v w.id w.parents refl refl,
      record {
        conflict = with_state c state;
        stored = ground (arith, lookup-insert id id (with_state c state) d.conflicts, ==_refl id);
        has_parents = w.parents;
        in_sets = λ r. n.in_sets r;
        members = λ r k. n.references r k ∙ ground arith;
        state = s;
        others = λ k e. ground (arith, lookup-insert id k (with_state c state) d.conflicts);
      },
    )

    created :
        (d : ConflictDag) (id : ℕ) (parents resources : List ℕ) (c : Conflict)
        (members : List (ℕ × ℕ))
        → IsReferenced d
        → IsMember (new_conflict states id parents) c
        → Enters (new_conflict states id parents) c d.conflict_members members resources
        → IsReferenced (stored_in (referred d id parents members) id c)
          × IsNew d id parents resources (stored_in (referred d id parents members) id c)
    unfolding new_conflict
    created d id parents resources c members v w n =
        elim (Bool-cases (is_lost (referred d id parents members) c)) [
          | inl lost ↦ rw lost (
              stored-IsNew d id parents resources c states.rejected members
                (d.events ++ conflict_created id ∷ []) v w n
                (inl (refl, beaten d id parents c members w.parents lost)))
          | inr kept ↦ rw kept (
              stored-IsNew d id parents resources c c.confirmation_state members
                (d.events ++ conflict_created id ∷ []) v w n
                (inr (w.state, unbeaten d id parents c members w.parents kept)))
        ]

    -- With sets as documented, CreateConflict keeps the conflicts under their IDs and among the child
    -- references of all their parents. It does nothing and reports false if the conflict is stored.
    -- Else it reports true and stores a conflict with the given parents, in the conflict sets of the
    -- given resources; it becomes a member of them and no other membership changes. The conflict is
    -- rejected, and a parent was rejected or another member of its conflict sets was accepted, or it
    -- is pending, and neither was the case. The other conflicts stay as they are.
    pub create_conflict_lem :
        SetLaws sets
        → (d : ConflictDag) (id : ℕ) (parents resources : List ℕ) → IsReferenced d
        → IsReferenced (create_conflict sets states d id parents resources).1
          × ((is_some (lookup id d.conflicts) ≡ true)
                × (create_conflict sets states d id parents resources ≡ (false, d))
              ⊎ ((create_conflict sets states d id parents resources).0 ≡ true)
                × IsNew d id parents resources
                    (create_conflict sets states d id parents resources).1)
    unfolding create_conflict
    create_conflict_lem laws d id parents resources v =
        elim (Bool-cases (is_some (lookup id d.conflicts))) [
          | inl old ↦ rw old (v, inl (refl, refl))
          | inr new ↦
              let start : Conflict = new_conflict states id parents in
              let m = add_conflict_members sets false start d.conflict_members resources in
              let (a, b) =
                created d id parents resources m.1 m.2 v
                  (add_conflict_members_lem sets false start d.conflict_members resources)
                  (add_conflict_members-Enters sets laws false start d.conflict_members
                    resources) in
              rw new (a, inr (refl, b))
        ]
