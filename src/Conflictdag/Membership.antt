-- ===== src/Conflictdag/Membership.antt =====
-- addConflictMembers: the conflict sets that a conflict enters, and its member references.
use zipp.Base.{
  ℕ, ◌≡◌, refl, sym, ap, ◌∙◌, inl, inr, List, [], ◌∷◌, ◌++◌, Bool, true, elem, ◌==◌, ◌&&◌, ◌||◌,
  not, if◌then◌else◌, arith, Bool-cases,
}
use zipp.Conflictdag.{Sets, Conflict, targets, has_reference, add_reference}
use zipp.Conflictdag.Members.{add_conflict_members}

-- Add adds the element and reports whether it was new, and DeleteAll deletes the given elements and
-- reports those that it deleted.
pub record SetLaws (sets : Sets) : Type 0 where
  pub is_new : (l : List ℕ) (x : ℕ) → (sets.add l x).0 ≡ not (elem x l)
  pub elem_add : (l : List ℕ) (x y : ℕ) → elem y (sets.add l x).1 ≡ ((x == y) || elem y l)
  pub elem_left :
      (l r : List ℕ) (y : ℕ) → elem y (sets.delete_all l r).1 ≡ (elem y l && not (elem y r))
  pub elem_deleted :
      (l r : List ℕ) (y : ℕ) → elem y (sets.delete_all l r).0 ≡ (elem y l && elem y r)

elem-targets_append :
    (s t y k : ℕ) (l : List (ℕ × ℕ))
    → elem k (targets y (l ++ (s, t) ∷ [])) ≡ (elem k (targets y l) || ((s == y) && (t == k)))
unfolding targets
elem-targets_append s t y k [] = ground arith
elem-targets_append s t y k ((a, b) ∷ l) = ground (arith, elem-targets_append s t y k l)

has_reference-elem : (s t : ℕ) (l : List (ℕ × ℕ)) → has_reference s t l ≡ elem t (targets s l)
unfolding has_reference targets
has_reference-elem s t [] = refl
has_reference-elem s t ((a, b) ∷ l) = ground (arith, has_reference-elem s t l)

-- ComputeIfAbsent of a reference adds just it.
elem-add_reference :
    (s t y k : ℕ) (l : List (ℕ × ℕ))
    → elem k (targets y (add_reference s t l)) ≡ (elem k (targets y l) || ((s == y) && (t == k)))
unfolding add_reference
elem-add_reference s t y k l = elim (Bool-cases (has_reference s t l)) [
  | inr new ↦ rw new (elem-targets_append s t y k l)
  | inl old ↦ rw old (elim (Bool-cases ((s == y) && (t == k))) [
    | inr other ↦ ground arith
    | inl same ↦
        let e : s ≡ y = ground (arith, same) in
        let f : t ≡ k = ground (arith, same) in
        let here : elem k (targets y l) ≡ true =
          sym (ap (λ z. elem k (targets z l)) e)
          ∙ sym (ap (λ z. elem z (targets s l)) f)
          ∙ sym (has_reference-elem s t l)
          ∙ old in
        ground (arith, here)
  ])
]

-- A conflict after addConflictMembers.
pub record IsMember (c c' : Conflict) : Type 0 where
  pub id : c'.id ≡ c.id
  pub parents : c'.parents ≡ c.parents
  pub state : c'.confirmation_state ≡ c.confirmation_state

-- The sets that it entered, with the references.
pub record Enters (c c' : Conflict) (members members' : List (ℕ × ℕ)) (resources : List ℕ)
    : Type 0 where
  pub in_sets :
      (r : ℕ) → elem r c'.conflict_set_ids ≡ (elem r c.conflict_set_ids || elem r resources)
  pub references :
      (r k : ℕ)
      → elem k (targets r members') ≡ (
          elem k (targets r members)
          || ((c.id == k) && (elem r resources && not (elem r c.conflict_set_ids))))

module _ (sets : Sets) where
  pub add_conflict_members_lem :
      (added : Bool) (c : Conflict) (members : List (ℕ × ℕ)) (resources : List ℕ)
      → IsMember c (add_conflict_members sets added c members resources).1
  unfolding add_conflict_members
  add_conflict_members_lem added c members [] = record { id = refl; parents = refl; state = refl }
  add_conflict_members_lem added c members (x ∷ l) =
      let r = sets.add c.conflict_set_ids x in
      let ih =
        add_conflict_members_lem r.0 (record c { conflict_set_ids = r.1 })
          (if r.0 then add_reference x c.id members else members) l in
      record { id = ih.id; parents = ih.parents; state = ih.state }

  pub add_conflict_members-Enters :
      SetLaws sets
      → (added : Bool) (c : Conflict) (members : List (ℕ × ℕ)) (resources : List ℕ)
      → Enters c
          (add_conflict_members sets added c members resources).1
          members
          (add_conflict_members sets added c members resources).2
          resources
  unfolding add_conflict_members
  add_conflict_members-Enters laws added c members [] = record {
    in_sets = λ r. ground arith;
    references = λ r k. ground arith;
  }
  add_conflict_members-Enters laws added c members (x ∷ l) =
      let r = sets.add c.conflict_set_ids x in
      let members1 : List (ℕ × ℕ) = if r.0 then add_reference x c.id members else members in
      let ih =
        add_conflict_members-Enters laws r.0 (record c { conflict_set_ids = r.1 }) members1 l in
      record {
        in_sets = λ s. ih.in_sets s ∙ ground (arith, laws.elem_add c.conflict_set_ids x s);
        references = λ s k. ih.references s k ∙ elim (Bool-cases (x == s)) [
          | inr differs ↦ ground (
            arith,
            differs,
            laws.elem_add c.conflict_set_ids x s,
            elem-add_reference x c.id s k members,
          )
          | inl now ↦
              let key : elem x c.conflict_set_ids ≡ elem s c.conflict_set_ids =
                ap (λ z. elem z c.conflict_set_ids) (ground (arith, now)) in
              ground (
                arith,
                now,
                key,
                laws.is_new c.conflict_set_ids x,
                laws.elem_add c.conflict_set_ids x s,
                elem-add_reference x c.id s k members,
              )
        ];
      }
