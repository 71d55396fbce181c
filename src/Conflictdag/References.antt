-- ===== src/Conflictdag/References.antt =====
-- The child references that createChildConflictReferences leaves.
use zipp.Base.{
  ℕ, ◌≡◌, refl, sym, ap, ◌∙◌, inl, inr, List, [], ◌∷◌, ◌++◌, some, true, elem, ◌==◌, ◌||◌, arith,
  Bool-cases, ==_refl,
}
use zipp.Base.Assoc.{lookup, insert, lookup-insert, insert_all}
use zipp.Conflictdag.{
  Conflict, ConflictDag, targets, has_reference, add_reference, create_child_references,
}

-- The conflicts are stored under their IDs, and each stands among the child references of all its
-- parents.
pub record IsReferenced (d : ConflictDag) : Type 0 where
  pub stored : (k : ℕ) (c : Conflict) → lookup k d.conflicts ≡ some c → c.id ≡ k
  pub referenced :
      (k y : ℕ) (c : Conflict)
      → lookup k d.conflicts ≡ some c
      → elem y c.parents ≡ true
      → elem k (targets y d.child_conflicts) ≡ true

targets-append :
    (y s t : ℕ) (l : List (ℕ × ℕ))
    → elem t (targets y (l ++ (s, t) ∷ [])) ≡ ((s == y) || elem t (targets y l))
unfolding targets
targets-append y s t [] = ground (arith, ==_refl t)
targets-append y s t ((a, b) ∷ l) = ground (arith, targets-append y s t l)

targets-append_other :
    (y s t k : ℕ) (l : List (ℕ × ℕ))
    → elem k (targets y l) ≡ true
    → elem k (targets y (l ++ (s, t) ∷ [])) ≡ true
unfolding targets
targets-append_other y s t k [] h = ground arith
targets-append_other y s t k ((a, b) ∷ l) h = ground (arith, targets-append_other y s t k l)

has_reference_lem : (s t : ℕ) (l : List (ℕ × ℕ)) → has_reference s t l ≡ elem t (targets s l)
unfolding has_reference targets
has_reference_lem s t [] = refl
has_reference_lem s t ((a, b) ∷ l) = ground (arith, has_reference_lem s t l)

targets-add_reference :
    (s t : ℕ) (l : List (ℕ × ℕ)) → elem t (targets s (add_reference s t l)) ≡ true
unfolding add_reference
targets-add_reference s t l =
    ground (arith, has_reference_lem s t l, targets-append s s t l, ==_refl s)

targets-add_reference_other :
    (s t y k : ℕ) (l : List (ℕ × ℕ))
    → elem k (targets y l) ≡ true
    → elem k (targets y (add_reference s t l)) ≡ true
unfolding add_reference
targets-add_reference_other s t y k l h = ground (arith, targets-append_other y s t k l h)

pub targets-create_child_references_other :
    (parents : List ℕ) (t y k : ℕ) (l : List (ℕ × ℕ))
    → elem k (targets y l) ≡ true
    → elem k (targets y (create_child_references parents t l)) ≡ true
unfolding create_child_references
targets-create_child_references_other [] t y k l h = h
targets-create_child_references_other (p ∷ parents) t y k l h =
    targets-create_child_references_other parents t y k (add_reference p t l)
      (targets-add_reference_other p t y k l h)

pub targets-create_child_references :
    (parents : List ℕ) (t y : ℕ) (l : List (ℕ × ℕ))
    → elem y parents ≡ true
    → elem t (targets y (create_child_references parents t l)) ≡ true
unfolding create_child_references
targets-create_child_references [] t y l h = ground arith
targets-create_child_references (p ∷ parents) t y l h = elim (Bool-cases (p == y)) [
  | inl now ↦
      targets-create_child_references_other parents t y t (add_reference p t l)
        (ground (arith, targets-add_reference p t l))
  | inr later ↦ targets-create_child_references parents t y (add_reference p t l) (ground arith)
]

-- A new conflict under its ID, with the references from its parents.
pub insert-IsReferenced :
    (d d' : ConflictDag) (id : ℕ) (c : Conflict) (parents : List ℕ)
    → IsReferenced d
    → c.id ≡ id
    → c.parents ≡ parents
    → d'.conflicts ≡ insert id c d.conflicts
    → d'.child_conflicts ≡ create_child_references parents id d.child_conflicts
    → IsReferenced d'
insert-IsReferenced d d' id c parents v i p e f = record {
  stored = λ k x h.
      insert_all (λ k t. t.id ≡ k) id c d.conflicts i v.stored k x (sym (ap (lookup k) e) ∙ h);
  referenced = λ k y x h g. ap (λ l. elem k (targets y l)) f ∙ elim (Bool-cases (id == k)) [
    | inl now ↦
        let same : x ≡ c = ground (arith, lookup-insert id k c d.conflicts, ap (lookup k) e) in
        ap (λ j. elem j (targets y (create_child_references parents id d.child_conflicts)))
          (ground arith)
        ∙ targets-create_child_references parents id y d.child_conflicts
            (sym (ap (elem y) (ap (λ z. z.parents) same ∙ p)) ∙ g)
    | inr differs ↦
        targets-create_child_references_other parents id y k d.child_conflicts
          (v.referenced k y x (ground (arith, lookup-insert id k c d.conflicts, ap (lookup k) e)) g)
  ];
}
