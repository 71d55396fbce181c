-- ===== src/Conflictdag.antt =====
-- packages/core/conflictdag: the conflicts, their sets and children, and the states that acceptance
-- spreads. IDs are numbers, the object storages are maps and lists of references in the order in
-- which they are gone through. Parameters are the walker, the set (Add and DeleteAll on the list of
-- its elements) and the confirmation.State of the foundation library.
pub mod Restated
pub mod Reached
pub mod Acceptance
pub mod Rejection
pub mod Walked
pub mod Accepted
pub mod Members
pub mod References
pub mod Rivals
pub mod Membership
pub mod Creation
pub mod Reachable
mod Tests
use zipp.Base.{
  ℕ, ◌+◌, List, [], ◌∷◌, ◌++◌, map, Option, none, some, Bool, true, false, length, sum_by, ◌==◌,
  ◌&&◌, ◌||◌, not, if◌then◌else◌, Result, ok, panic, ◌>>=◌,
}
use zipp.Base.Assoc.{lookup, insert, sum_values}
use zipp.Base.Walkers.{Walkers, push_all, walk}

-- confirmation.State: its constants and tests.
pub record States : Type 0 where
  pub undefined : ℕ
  pub rejected : ℕ
  pub pending : ℕ
  pub accepted : ℕ
  pub confirmed : ℕ
  pub is_accepted : ℕ → Bool
  pub is_rejected : ℕ → Bool
  pub aggregate : ℕ → ℕ → ℕ

-- set.AdvancedSet: Add reports whether the element was new, DeleteAll the elements that it deleted.
pub record Sets : Type 0 where
  pub add : List ℕ → ℕ → Bool × List ℕ
  pub delete_all : List ℕ → List ℕ → List ℕ × List ℕ

pub record Conflict : Type 0 where
  pub id : ℕ
  pub parents : List ℕ
  pub conflict_set_ids : List ℕ
  pub confirmation_state : ℕ

pub data Event : Type 0 where
  conflict_created conflict_parents_updated conflict_conflicts_updated conflict_accepted
        conflict_rejected :
      ℕ → Event

pub record ConflictDag : Type 0 where
  pub conflicts : List (ℕ × Conflict)
  -- ChildConflict, from a parent to a child, and ConflictMember, from a conflict set to a conflict
  pub child_conflicts : List (ℕ × ℕ)
  pub conflict_members : List (ℕ × ℕ)
  pub events : List Event

-- The references with a given source: CachedChildConflicts and CachedConflictMembers.
unfoldable pub targets : ℕ → List (ℕ × ℕ) → List ℕ
targets source [] = []
targets source ((from, to) ∷ l) = if from == source then to ∷ targets source l else targets source l

unfoldable pub has_reference : ℕ → ℕ → List (ℕ × ℕ) → Bool
has_reference source target [] = false
has_reference source target ((from, to) ∷ l) =
    (from == source) && (to == target) || has_reference source target l

-- ComputeIfAbsent of a reference.
unfoldable pub add_reference : ℕ → ℕ → List (ℕ × ℕ) → List (ℕ × ℕ)
unfolding has_reference
add_reference source target l =
    if has_reference source target l then l else l ++ (source, target) ∷ []

unfoldable pub delete_reference : ℕ → ℕ → List (ℕ × ℕ) → List (ℕ × ℕ)
delete_reference source target [] = []
delete_reference source target ((from, to) ∷ l) =
    if (from == source) && (to == target)
    then delete_reference source target l
    else (from, to) ∷ delete_reference source target l

-- createChildConflictReferences
unfoldable pub create_child_references : List ℕ → ℕ → List (ℕ × ℕ) → List (ℕ × ℕ)
unfolding add_reference
create_child_references [] child l = l
create_child_references (parent ∷ parents) child l =
    create_child_references parents child (add_reference parent child l)

-- removeChildConflictReferences
unfoldable pub remove_child_references : List ℕ → ℕ → List (ℕ × ℕ) → List (ℕ × ℕ)
unfolding delete_reference
remove_child_references [] child l = l
remove_child_references (parent ∷ parents) child l =
    remove_child_references parents child (delete_reference parent child l)

-- forEachConflictingConflictID, the IDs that the callback gets while it asks for more: the other
-- members of the conflict's sets.
unfoldable pub others : ℕ → List ℕ → List ℕ
others id [] = []
others id (x ∷ l) = if x == id then others id l else x ∷ others id l

unfoldable pub conflicting : List (ℕ × ℕ) → ℕ → List ℕ → List ℕ
unfolding others targets
conflicting members id [] = []
conflicting members id (conflict_set ∷ l) =
    others id (targets conflict_set members) ++ conflicting members id l

unfoldable pub conflicting_ids : ConflictDag → Conflict → List ℕ
unfolding conflicting
conflicting_ids d c = conflicting d.conflict_members c.id c.conflict_set_ids

module _ (states : States) where
  -- NewConflict
  unfoldable pub new_conflict : ℕ → List ℕ → Conflict
  new_conflict id parents = record {
    id = id;
    parents = parents;
    conflict_set_ids = [];
    confirmation_state = states.pending;
  }

  -- confirmationState
  unfoldable pub confirmation_state : ConflictDag → ℕ → ℕ
  confirmation_state d id = elim (lookup id d.conflicts) [
    | none ↦ states.undefined
    | some c ↦ c.confirmation_state
  ]

  -- anyParentRejected
  unfoldable pub any_rejected : ConflictDag → List ℕ → Bool
  unfolding confirmation_state
  any_rejected d [] = false
  any_rejected d (parent ∷ parents) =
      states.is_rejected (confirmation_state d parent) || any_rejected d parents

  -- anyConflictingConflictAccepted
  unfoldable pub any_accepted : ConflictDag → List ℕ → Bool
  unfolding confirmation_state
  any_accepted d [] = false
  any_accepted d (id ∷ ids) = states.is_accepted (confirmation_state d id) || any_accepted d ids

  -- ConfirmationState, from the state aggregated so far.
  unfoldable pub aggregate_states : ConflictDag → ℕ → List ℕ → ℕ
  unfolding confirmation_state
  aggregate_states d state [] = state
  aggregate_states d state (id ∷ ids) =
      let next = states.aggregate state (confirmation_state d id) in
      let rest = aggregate_states d next ids in
      if states.is_rejected next then states.rejected else rest

  unfoldable pub confirmation_state_of : ConflictDag → List ℕ → ℕ
  unfolding aggregate_states
  confirmation_state_of d ids = aggregate_states d states.confirmed ids

  module _ (sets : Sets) where
    -- UnconfirmedConflicts, from the set built so far.
    unfoldable pub pending_of : ConflictDag → List ℕ → List ℕ → List ℕ
    unfolding confirmation_state
    pending_of d found [] = found
    pending_of d found (id ∷ ids) =
        if states.is_accepted (confirmation_state d id)
        then pending_of d found ids
        else pending_of d (sets.add found id).1 ids

    unfoldable pub unconfirmed_conflicts : Bool → ConflictDag → List ℕ → List ℕ
    unfolding pending_of
    unconfirmed_conflicts merge_to_master d ids =
        if merge_to_master then pending_of d [] ids else ids

  -- The step of the confirmation walk of SetConflictAccepted on `id`: the parents to push, and the
  -- last `modified`, the rejection walker and the DAG. `event` is the ID in the event.
  module _ (ws : Walkers) where
    pub record Accepting : Type 0 where
      pub modified : Bool
      pub rejection_walker : ws.Walker
      pub dag : ConflictDag

    unfoldable pub accept_step : ℕ → ℕ → Accepting → List ℕ × Accepting
    unfolding push_all conflicting_ids
    accept_step event id s = elim (lookup id s.dag.conflicts) [
      | none ↦ ([], s)
      | some c ↦
          if c.confirmation_state == states.accepted then ([], record s { modified = false }) else (
            c.parents,
            record {
              modified = true;
              rejection_walker = push_all ws s.rejection_walker (conflicting_ids s.dag c);
              dag = record s.dag {
                conflicts =
                    insert id (record c { confirmation_state = states.accepted }) s.dag.conflicts;
                events = s.dag.events ++ conflict_accepted event ∷ [];
              };
            },
          )
    ]

    -- The step of the rejection walk: the children to push.
    unfoldable pub reject_step : ℕ → Bool × ConflictDag → List ℕ × (Bool × ConflictDag)
    unfolding targets
    reject_step id (modified, d) = elim (lookup id d.conflicts) [
      | none ↦ ([], (modified, d))
      | some c ↦ if c.confirmation_state == states.rejected then ([], (false, d)) else (
        targets c.id d.child_conflicts,
        (
          true,
          record d {
            conflicts = insert id (record c { confirmation_state = states.rejected }) d.conflicts;
            events = d.events ++ conflict_rejected c.id ∷ [];
          },
        ),
      )
    ]

    -- The fuel of the two walks: one for each conflict that is started with or pushed.
    unfoldable pub accept_fuel : ConflictDag → ℕ
    accept_fuel d = 1 + sum_values (λ c. length c.parents) d.conflicts

    unfoldable pub reject_fuel : ConflictDag → ℕ
    unfolding conflicting_ids targets
    reject_fuel d =
        sum_values (λ c. length (conflicting_ids d c)) d.conflicts
        + sum_values (λ c. length (targets c.id d.child_conflicts)) d.conflicts

    unfoldable pub accept_walk : ConflictDag → ℕ → Result Accepting
    unfolding walk accept_step accept_fuel
    accept_walk d id =
        walk ws (accept_step id) (accept_fuel d) (push_all ws ws.new (id ∷ []))
          (record { modified = false; rejection_walker = ws.new; dag = d })

    -- SetConflictAccepted
    unfoldable pub set_conflict_accepted : ConflictDag → ℕ → Result (Bool × ConflictDag)
    unfolding accept_walk walk reject_step reject_fuel
    set_conflict_accepted d id =
        accept_walk d id
        >>= (λ s. walk ws reject_step (reject_fuel d) s.rejection_walker (s.modified, s.dag))
