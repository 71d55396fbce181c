-- ===== src/Conflictdag/Tests.antt =====
-- The conflict DAG at concrete inputs.
use mathlib.Core.Path.{subst}
use zipp.Base.{
  ℕ, ◌≡◌, refl, ap, ◌&&◌, elem-append, ◌⊎◌, inl, inr, List, [], ◌∷◌, ◌++◌, none, some, true, false,
  elem, leb, ltb, ◌==◌, ◌||◌, not, if◌then◌else◌, is_some, Returns, arith, Bool-cases,
}
use zipp.Base.Assoc.{lookup, insert}
use zipp.Base.Walkers.{Walkers, WalkerLaws, push_all, walk}
use zipp.Conflictdag.{
  States, Sets, Conflict, ConflictDag, conflict_accepted, conflict_rejected, set_conflict_accepted,
  accept_walk, accept_step, accept_fuel, reject_step, reject_fuel, targets, conflicting_ids,
  conflicting, others, add_reference, has_reference,
}
use zipp.Conflictdag.Restated.{HasState, IsFresh}
use zipp.Conflictdag.Accepted.{IsSpread, set_conflict_accepted_lem, set_conflict_accepted-parents}
use zipp.Conflictdag.Members.{add_conflict_members, create_conflict, update_conflicting_resources}
use zipp.Conflictdag.References.{IsReferenced}
use zipp.Conflictdag.Membership.{SetLaws}
use zipp.Conflictdag.Reachable.{create, start, step, empty_dag, reachable-IsReferenced}
use zipp.Conflictdag.Creation.{IsNew, create_conflict_lem}

-- A walker as its queue and the elements that it has seen.
abbrev walkers : Walkers
walkers = record {
  Walker = List ℕ × List ℕ;
  new = ([], []);
  push = λ (q, s) x. if elem x s then (q, s) else (q ++ x ∷ [], x ∷ s);
  next = λ (q, s). elim q [ [] ↦ none | x ∷ l ↦ some (x, (l, s)) ];
}

again : (w : List ℕ × List ℕ) (x y : ℕ) → elem x w.1 ≡ true → elem y w.1 ≡ ((x == y) || elem y w.1)
again w x y old = elim (Bool-cases (x == y)) [
  | inr differs ↦ rw differs refl
  | inl same ↦
      let e : x ≡ y = ground (arith, same) in
      let h : elem y w.1 ≡ true = subst (λ z. elem z w.1 ≡ true) e old in rw (h, same) refl
]

walkers_lem : WalkerLaws walkers
walkers_lem = record {
  pending = λ w. w.0;
  seen = λ w y. elem y w.1;
  pending_new = refl;
  seen_new = λ y. refl;
  push_new = λ w x h. rw h refl;
  push_seen = λ w x h. rw h refl;
  seen_push = λ w x y. elim (Bool-cases (elem x w.1)) [
    | inl old ↦ rw old (again w x y old)
    | inr new ↦ rw new refl
  ];
  next_none = λ w e. rw e refl;
  next_some = λ w x l e. ((l, w.1), rw e refl, refl, λ y. refl);
}

abbrev states : States
states = record {
  undefined = 0;
  rejected = 1;
  pending = 2;
  accepted = 3;
  confirmed = 4;
  is_accepted = λ s. leb 3 s;
  is_rejected = λ s. s == 1;
  aggregate = λ s t. if ltb s t then s else t;
}

-- The elements of `l` that stand in `r`, and those that do not.
abbrev kept : List ℕ → List ℕ → List ℕ
kept r [] = []
kept r (x ∷ l) = if elem x r then x ∷ kept r l else kept r l

abbrev missing : List ℕ → List ℕ → List ℕ
missing r [] = []
missing r (x ∷ l) = if elem x r then missing r l else x ∷ missing r l

abbrev sets : Sets
sets = record {
  add = λ l x. if elem x l then (false, l) else (true, l ++ x ∷ []);
  delete_all = λ l r. (kept r l, missing r l);
}

-- Conflicts 1 and 2 share the set 10; 3 is a child of 1, and 4 of 2.
abbrev dag : ConflictDag
dag = record {
  conflicts =
      (1, record { id = 1; parents = []; conflict_set_ids = 10 ∷ []; confirmation_state = 2 })
      ∷ (2, record { id = 2; parents = []; conflict_set_ids = 10 ∷ []; confirmation_state = 2 })
      ∷ (3, record { id = 3; parents = 1 ∷ []; conflict_set_ids = 11 ∷ []; confirmation_state = 2 })
      ∷ (4, record { id = 4; parents = 2 ∷ []; conflict_set_ids = 12 ∷ []; confirmation_state = 2 })
      ∷ [];
  child_conflicts = (1, 3) ∷ (2, 4) ∷ [];
  conflict_members = (10, 1) ∷ (10, 2) ∷ (11, 3) ∷ (12, 4) ∷ [];
  events = [];
}

dag-IsReferenced : IsReferenced dag
unfolding lookup targets
dag-IsReferenced = record { stored = λ k c h. ground arith; referenced = λ k y c h g. ground arith }

set_conflict_accepted_lem_example :
    Returns (IsSpread states walkers walkers_lem dag 3) (set_conflict_accepted states walkers dag 3)
set_conflict_accepted_lem_example = set_conflict_accepted_lem states walkers walkers_lem dag refl 3

set_conflict_accepted-parents_example :
    Returns
      (λ r.
        (k y : ℕ) (c : Conflict)
        → IsFresh 3 dag.conflicts k
        → lookup k r.1.conflicts ≡ some c
        → c.confirmation_state ≡ 3
        → elem y c.parents ≡ true
        → HasState 3 r.1.conflicts y)
      (set_conflict_accepted states walkers dag 3)
set_conflict_accepted-parents_example =
    set_conflict_accepted-parents states walkers walkers_lem dag refl 3 dag-IsReferenced

-- The rejection reaches 4; both events of the acceptance name 3.
set_conflict_accepted_run :
    Returns
      (λ r.
        r.1.events
        ≡ conflict_accepted 3
          ∷ conflict_accepted 3
          ∷ conflict_rejected 2
          ∷ conflict_rejected 4
          ∷ [])
      (set_conflict_accepted states walkers dag 3)
unfolding set_conflict_accepted accept_walk accept_step accept_fuel reject_step reject_fuel walk
    push_all lookup insert targets conflicting_ids conflicting others
set_conflict_accepted_run = (_, refl, refl)

known : (l : List ℕ) (x y : ℕ) → elem x l ≡ true → elem y l ≡ ((x == y) || elem y l)
known l x y old = again ([], l) x y old

added : (l : List ℕ) (x y : ℕ) → elem y (l ++ x ∷ []) ≡ ((x == y) || elem y l)
added l x y = ground (arith, elem-append y l (x ∷ []))

elem-missing : (r l : List ℕ) (y : ℕ) → elem y (missing r l) ≡ (elem y l && not (elem y r))
elem-missing r [] y = refl
elem-missing r (x ∷ l) y = elim (Bool-cases (x == y)) [
  | inr differs ↦ ground (arith, elem-missing r l y)
  | inl same ↦
      let e : x ≡ y = ground (arith, same) in
      let f : elem x r ≡ elem y r = ap (λ z. elem z r) e in ground (arith, elem-missing r l y)
]

elem-kept : (r l : List ℕ) (y : ℕ) → elem y (kept r l) ≡ (elem y l && elem y r)
elem-kept r [] y = refl
elem-kept r (x ∷ l) y = elim (Bool-cases (x == y)) [
  | inr differs ↦ ground (arith, elem-kept r l y)
  | inl same ↦
      let e : x ≡ y = ground (arith, same) in
      let f : elem x r ≡ elem y r = ap (λ z. elem z r) e in ground (arith, elem-kept r l y)
]

sets_lem : SetLaws sets
sets_lem = record {
  is_new =
      λ l x. elim (Bool-cases (elem x l)) [ inl old ↦ rw old refl | inr fresh ↦ rw fresh refl ];
  elem_add = λ l x y. elim (Bool-cases (elem x l)) [
    | inl old ↦ rw old (known l x y old)
    | inr fresh ↦ rw fresh (added l x y)
  ];
  elem_left = λ l r y. elem-missing r l y;
  elem_deleted = λ l r y. elem-kept r l y;
}

create_conflict_lem_example :
    IsReferenced (create_conflict sets states dag 5 (4 ∷ []) (11 ∷ [])).1
    × ((is_some (lookup 5 dag.conflicts) ≡ true)
          × (create_conflict sets states dag 5 (4 ∷ []) (11 ∷ []) ≡ (false, dag))
        ⊎ ((create_conflict sets states dag 5 (4 ∷ []) (11 ∷ [])).0 ≡ true)
          × IsNew sets states dag 5
              (4 ∷ [])
              (11 ∷ [])
              (create_conflict sets states dag 5 (4 ∷ []) (11 ∷ [])).1)
create_conflict_lem_example =
    create_conflict_lem sets states sets_lem dag 5 (4 ∷ []) (11 ∷ []) dag-IsReferenced

-- Of two sets, the first new and the second not: the conflict gets the first, but no change is
-- reported.
update_conflicting_resources_run :
    (update_conflicting_resources sets dag 1 (11 ∷ 10 ∷ [])).0 ≡ false
unfolding update_conflicting_resources add_conflict_members lookup add_reference has_reference
update_conflicting_resources_run = refl

-- A conflict is created, and another one below it.
abbrev two_conflicts : ConflictDag
two_conflicts =
    (create_conflict sets states (create_conflict sets states empty_dag 1 [] (10 ∷ [])).1 2 (1 ∷ [])
      (11 ∷ [])).1

reachable-IsReferenced_example : IsReferenced two_conflicts
reachable-IsReferenced_example =
    reachable-IsReferenced sets states walkers walkers_lem sets_lem two_conflicts (
      step (create_conflict sets states empty_dag 1 [] (10 ∷ [])).1 two_conflicts
        (step empty_dag (create_conflict sets states empty_dag 1 [] (10 ∷ [])).1 start
          (create empty_dag 1 [] (10 ∷ [])))
        (create (create_conflict sets states empty_dag 1 [] (10 ∷ [])).1 2 (1 ∷ []) (11 ∷ [])))
