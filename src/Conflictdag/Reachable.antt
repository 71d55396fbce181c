-- ===== src/Conflictdag/Reachable.antt =====
-- The conflict DAG as a state machine: its operations as steps, and what every reachable DAG has.
use mathlib.Core.Path.{subst}
use zipp.Base.{
  ℕ, ◌≡◌, refl, sym, ap, ◌∙◌, inl, inr, List, [], ◌∷◌, some, Bool, true, false, elem, ◌==◌, ◌&&◌,
  ok, arith, Bool-cases, Option-cases,
}
use zipp.Base.Assoc.{lookup, insert, lookup-insert, insert_all}
use zipp.Base.Walkers.{Walkers, WalkerLaws}
use zipp.Conflictdag.{
  States, Sets, Conflict, ConflictDag, targets, delete_reference, create_child_references,
  remove_child_references, set_conflict_accepted,
}
use zipp.Conflictdag.Members.{
  create_conflict, update_conflicting_resources, update_conflict_parents,
}
use zipp.Conflictdag.References.{
  IsReferenced, targets-create_child_references, targets-create_child_references_other,
}
use zipp.Conflictdag.Membership.{SetLaws, add_conflict_members_lem}
use zipp.Conflictdag.Creation.{create_conflict_lem}
use zipp.Conflictdag.Accepted.{set_conflict_accepted-IsReferenced}

targets-delete_reference :
    (s t y k : ℕ) (l : List (ℕ × ℕ))
    → ((s == y) && (t == k)) ≡ false
    → elem k (targets y (delete_reference s t l)) ≡ elem k (targets y l)
unfolding delete_reference targets
targets-delete_reference s t y k [] n = refl
targets-delete_reference s t y k ((a, b) ∷ l) n =
    ground (arith, targets-delete_reference s t y k l n)

targets-remove_child_references :
    (ps : List ℕ) (t y k : ℕ) (l : List (ℕ × ℕ))
    → (elem y ps && (t == k)) ≡ false
    → elem k (targets y (remove_child_references ps t l)) ≡ elem k (targets y l)
unfolding remove_child_references
targets-remove_child_references [] t y k l n = refl
targets-remove_child_references (p ∷ ps) t y k l n =
    targets-remove_child_references ps t y k (delete_reference p t l) (ground arith)
    ∙ targets-delete_reference p t y k l (ground arith)

-- A write of a conflict whose own references are there, where those of the others stay.
write-IsReferenced :
    (d d' : ConflictDag) (id : ℕ) (c : Conflict)
    → IsReferenced d
    → c.id ≡ id
    → d'.conflicts ≡ insert id c d.conflicts
    → ((y : ℕ) → elem y c.parents ≡ true → elem id (targets y d'.child_conflicts) ≡ true)
    → ((k y : ℕ)
        → (id == k) ≡ false
        → elem k (targets y d.child_conflicts) ≡ true
        → elem k (targets y d'.child_conflicts) ≡ true)
    → IsReferenced d'
write-IsReferenced d d' id c v i e own rest = record {
  stored = λ k x h.
      insert_all (λ k t. t.id ≡ k) id c d.conflicts i v.stored k x (sym (ap (lookup k) e) ∙ h);
  referenced = λ k y x h g. elim (Bool-cases (id == k)) [
    | inl now ↦
        let same : x ≡ c = ground (arith, lookup-insert id k c d.conflicts, ap (lookup k) e) in
        let key : id ≡ k = ground (arith, now) in
        subst (λ j. elem j (targets y d'.child_conflicts) ≡ true) key
          (own y (sym (ap (λ z. elem y z.parents) same) ∙ g))
    | inr differs ↦
        rest k y differs
          (v.referenced k y x (ground (arith, lookup-insert id k c d.conflicts, ap (lookup k) e)) g)
  ];
}

module _ (sets : Sets) where
  update_conflicting_resources-IsReferenced :
      (d : ConflictDag) (id : ℕ) (resources : List ℕ)
      → IsReferenced d
      → IsReferenced (update_conflicting_resources sets d id resources).1
  unfolding update_conflicting_resources
  update_conflicting_resources-IsReferenced d id resources v =
      elim (Option-cases (lookup id d.conflicts)) [
        | inl n ↦ rw (n, update_conflicting_resources) v
        | inr (c, h) ↦
            let m = add_conflict_members_lem sets false c d.conflict_members resources in
            rw (h, update_conflicting_resources)
              (write-IsReferenced d _ id _ v (m.id ∙ v.stored id c h) refl
                (λ y g. v.referenced id y c h (sym (ap (elem y) m.parents) ∙ g)) (λ k y n g. g))
      ]

  update_conflict_parents-IsReferenced :
      SetLaws sets
      → (d : ConflictDag) (id : ℕ) (removed : List ℕ) (added : ℕ) → IsReferenced d
      → IsReferenced (update_conflict_parents sets d id removed added).1
  unfolding update_conflict_parents
  update_conflict_parents-IsReferenced laws d id removed added v =
      elim (Option-cases (lookup id d.conflicts)) [
        | inl n ↦ rw (n, update_conflict_parents) v
        | inr (c, h) ↦ elim (Bool-cases (sets.add c.parents added).0) [
          | inr old ↦ rw (h, update_conflict_parents, old) v
          | inl new ↦
              rw (h, update_conflict_parents, new)
                (write-IsReferenced d _ id _ v (v.stored id c h) refl (λ y g. own c h y g)
                  (λ k y n g.
                    targets-create_child_references_other (added ∷ []) id y k
                      (remove_child_references
                        (sets.delete_all (sets.add c.parents added).1 removed).0 id
                        d.child_conflicts)
                      (targets-remove_child_references
                          (sets.delete_all (sets.add c.parents added).1 removed).0 id y k
                          d.child_conflicts (ground (arith, n))
                        ∙ g)))
        ]
      ]
    where
      own :
          (c : Conflict)
          → lookup id d.conflicts ≡ some c
          → (y : ℕ) → elem y (sets.delete_all (sets.add c.parents added).1 removed).1 ≡ true
          → elem id (
              targets y (
                create_child_references (added ∷ []) id (
                  remove_child_references
                    (sets.delete_all (sets.add c.parents added).1 removed).0
                    id
                    d.child_conflicts)))
            ≡ true
      own c h y g =
          let grown : List ℕ = (sets.add c.parents added).1 in
          let gone : List ℕ = (sets.delete_all grown removed).0 in
          let left : List (ℕ × ℕ) = remove_child_references gone id d.child_conflicts in
          elim (Bool-cases (added == y)) [
            | inl now ↦ targets-create_child_references (added ∷ []) id y left (ground (arith, now))
            | inr differs ↦
                let before : elem y c.parents ≡ true =
                  ground (arith, laws.elem_left grown removed y, laws.elem_add c.parents added y) in
                let stays : elem y gone ≡ false =
                  ground
                    (arith, laws.elem_left grown removed y, laws.elem_deleted grown removed y) in
                targets-create_child_references_other (added ∷ []) id y id left (
                  targets-remove_child_references gone id y id d.child_conflicts
                    (ground (arith, stays))
                  ∙ v.referenced id y c h before)
          ]

abbrev pub empty_dag : ConflictDag
empty_dag = record { conflicts = []; child_conflicts = []; conflict_members = []; events = [] }

module _ (sets : Sets) (states : States) (ws : Walkers) where
  -- One operation on the conflict DAG.
  pub data Step : ConflictDag → ConflictDag → Type 0 where
    create :
        (d : ConflictDag) (id : ℕ) (parents resources : List ℕ)
        → Step d (create_conflict sets states d id parents resources).1
    update_parents :
        (d : ConflictDag) (id : ℕ) (removed : List ℕ) (added : ℕ)
        → Step d (update_conflict_parents sets d id removed added).1
    update_resources :
        (d : ConflictDag) (id : ℕ) (resources : List ℕ)
        → Step d (update_conflicting_resources sets d id resources).1
    accept :
        (d : ConflictDag) (id : ℕ) (r : Bool × ConflictDag)
        → set_conflict_accepted states ws d id ≡ ok r
        → Step d r.1

  -- The DAGs that the operations lead to from the empty one.
  pub data Reachable : ConflictDag → Type 0 where
    start : Reachable empty_dag
    step : (d d' : ConflictDag) → Reachable d → Step d d' → Reachable d'

  module _ (laws : WalkerLaws ws) (set_laws : SetLaws sets) where
    step-IsReferenced : (d d' : ConflictDag) → Step d d' → IsReferenced d → IsReferenced d'
    step-IsReferenced _ _ (create d id parents resources) v =
        (create_conflict_lem sets states set_laws d id parents resources v).0
    step-IsReferenced _ _ (update_parents d id removed added) v =
        update_conflict_parents-IsReferenced sets set_laws d id removed added v
    step-IsReferenced _ _ (update_resources d id resources) v =
        update_conflicting_resources-IsReferenced sets d id resources v
    step-IsReferenced _ _ (accept d id r e) v =
        let (q, f, w) = set_conflict_accepted-IsReferenced states ws laws d id v in
        let same : q ≡ r = ground (arith, e, f) in
        subst (λ (x : Bool × ConflictDag). IsReferenced x.1) same w

    -- With a walker and sets as documented, in every DAG that CreateConflict, UpdateConflictParents,
    -- UpdateConflictingResources and SetConflictAccepted lead to from the empty one, in any order,
    -- the conflicts are stored under their IDs, and every conflict stands among the child references
    -- of each of its parents.
    pub reachable-IsReferenced : (d : ConflictDag) → Reachable d → IsReferenced d
    unfolding lookup
    reachable-IsReferenced _ start = record {
      stored = λ k c h. ground arith;
      referenced = λ k y c h g. ground arith;
    }
    reachable-IsReferenced _ (step d d' r s) = step-IsReferenced d d' s (reachable-IsReferenced d r)
