-- ===== src/Conflictdag/Rivals.antt =====
-- forEachConflictingConflictID against the membership in conflict sets.
use zipp.Base.{
  ℕ, ◌≡◌, ap, ◌∙◌, ◌↔◌, inl, inr, List, [], ◌∷◌, true, false, ◌==◌, ◌&&◌, not, elem, elem-append,
  arith, Bool-cases, ==_refl,
}
use zipp.Conflictdag.{Conflict, ConflictDag, targets, others, conflicting, conflicting_ids}

-- Another conflict that is a member of one of the conflict sets.
abbrev pub IsRivalIn : List (ℕ × ℕ) → ℕ → List ℕ → ℕ → Type 0
IsRivalIn members id sets y =
    ((y == id) ≡ false) × (r : ℕ) × (elem r sets ≡ true) × (elem y (targets r members) ≡ true)

abbrev pub IsRival : ConflictDag → Conflict → ℕ → Type 0
IsRival d c y = IsRivalIn d.conflict_members c.id c.conflict_set_ids y

elem-others : (id y : ℕ) (l : List ℕ) → elem y (others id l) ≡ (not (y == id) && elem y l)
unfolding others
elem-others id y [] = ground arith
elem-others id y (x ∷ l) = ground (arith, elem-others id y l)

rival_listed :
    (members : List (ℕ × ℕ)) (id : ℕ) (sets : List ℕ) (y : ℕ)
    → IsRivalIn members id sets y
    → elem y (conflicting members id sets) ≡ true
unfolding conflicting
rival_listed members id [] y (n, r, s, m) = ground arith
rival_listed members id (x ∷ sets) y (n, r, s, m) = elim (Bool-cases (x == r)) [
  | inl now ↦
      let key : x ≡ r = ground (arith, now) in
      let here : elem y (targets x members) ≡ true = ap (λ z. elem y (targets z members)) key ∙ m in
      ground (
        arith,
        here,
        elem-append y (others id (targets x members)) (conflicting members id sets),
        elem-others id y (targets x members),
      )
  | inr differs ↦ ground (
    arith,
    rival_listed members id sets y (n, r, ground arith, m),
    elem-append y (others id (targets x members)) (conflicting members id sets),
  )
]

listed_rival :
    (members : List (ℕ × ℕ)) (id : ℕ) (sets : List ℕ) (y : ℕ)
    → elem y (conflicting members id sets) ≡ true
    → IsRivalIn members id sets y
unfolding conflicting
listed_rival members id [] y h = ground arith
listed_rival members id (x ∷ sets) y h =
    elim (Bool-cases (elem y (others id (targets x members)))) [
      | inl here ↦ (
        ground (arith, elem-others id y (targets x members)),
        x,
        ground (arith, ==_refl x),
        ground (arith, elem-others id y (targets x members)),
      )
      | inr there ↦
          let (n, r, s, m) = listed_rival members id sets y (
            ground (
              arith,
              elem-append y (others id (targets x members)) (conflicting members id sets),
            )) in
          (n, r, ground (arith, s), m)
    ]

-- The conflicts that forEachConflictingConflictID goes through are the other members of the
-- conflict's sets.
pub conflicting_ids_iff :
    (d : ConflictDag) (c : Conflict) (y : ℕ) → (elem y (conflicting_ids d c) ≡ true) ↔ IsRival d c y
unfolding conflicting_ids
conflicting_ids_iff d c y = (
  listed_rival d.conflict_members c.id c.conflict_set_ids y,
  rival_listed d.conflict_members c.id c.conflict_set_ids y,
)
