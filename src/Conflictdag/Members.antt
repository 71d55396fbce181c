-- ===== src/Conflictdag/Members.antt =====
-- CreateConflict, UpdateConflictParents and UpdateConflictingResources of conflictdag.go, and the
-- child references that they keep.
use zipp.Base.{ℕ, List, [], ◌∷◌, ◌++◌, none, some, Bool, true, false, ◌||◌, if◌then◌else◌, is_some}
use zipp.Base.Assoc.{lookup, insert}
use zipp.Conflictdag.{
  States, Sets, Conflict, ConflictDag, conflict_created, conflict_parents_updated,
  conflict_conflicts_updated, add_reference, create_child_references, remove_child_references,
  conflicting_ids, new_conflict, any_rejected, any_accepted,
}

module _ (sets : Sets) where
  -- addConflictMembers: what it reports is whether the last one was added.
  unfoldable pub add_conflict_members :
      Bool → Conflict → List (ℕ × ℕ) → List ℕ → Bool × Conflict × List (ℕ × ℕ)
  unfolding add_reference
  add_conflict_members added c members [] = (added, c, members)
  add_conflict_members added c members (resource ∷ resources) =
      let r = sets.add c.conflict_set_ids resource in
      add_conflict_members r.0 (record c { conflict_set_ids = r.1 })
        (if r.0 then add_reference resource c.id members else members) resources

  unfoldable pub update_conflicting_resources : ConflictDag → ℕ → List ℕ → Bool × ConflictDag
  unfolding add_conflict_members
  update_conflicting_resources d id resources = elim (lookup id d.conflicts) [
    | none ↦ (false, d)
    | some c ↦
        let (updated, c', members) = add_conflict_members false c d.conflict_members resources in
        (
          updated,
          record d {
            conflicts = insert id c' d.conflicts;
            conflict_members = members;
            events = if updated then d.events ++ conflict_conflicts_updated id ∷ [] else d.events;
          },
        )
  ]

  unfoldable pub update_conflict_parents : ConflictDag → ℕ → List ℕ → ℕ → Bool × ConflictDag
  unfolding create_child_references remove_child_references
  update_conflict_parents d id removed added = elim (lookup id d.conflicts) [
    | none ↦ (false, d)
    | some c ↦
        let grown = sets.add c.parents added in
        let left = sets.delete_all grown.1 removed in
        if grown.0
        then (
          true,
          record d {
            conflicts = insert id (record c { parents = left.1 }) d.conflicts;
            child_conflicts =
                create_child_references (added ∷ []) id
                  (remove_child_references left.0 id d.child_conflicts);
            events = d.events ++ conflict_parents_updated id ∷ [];
          },
        )
        else (false, d)
  ]

  module _ (states : States) where
    -- CreateConflict: whether the conflict is new.
    unfoldable pub create_conflict : ConflictDag → ℕ → List ℕ → List ℕ → Bool × ConflictDag
    unfolding add_conflict_members create_child_references any_rejected any_accepted conflicting_ids
        new_conflict
    create_conflict d id parents resources =
        let (added, c, members) =
          add_conflict_members false (new_conflict states id parents) d.conflict_members
            resources in
        let d' : ConflictDag = record d {
          conflict_members = members;
          child_conflicts = create_child_references parents id d.child_conflicts;
        } in
        let lost =
          any_rejected states d' c.parents || any_accepted states d' (conflicting_ids d' c) in
        if is_some (lookup id d.conflicts) then (false, d) else (
          true,
          record d' {
            conflicts =
                insert id (if lost then record c { confirmation_state = states.rejected } else c)
                  d.conflicts;
            events = d.events ++ conflict_created id ∷ [];
          },
        )
