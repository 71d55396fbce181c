-- ===== src/Conflictdag/Reached.antt =====
-- The conflicts that the two walks of SetConflictAccepted may reach, described without the walks.
use zipp.Base.{ℕ, ◌≡◌, ◌⊎◌, some, true, false, elem, ◌==◌}
use zipp.Base.Assoc.{lookup}
use zipp.Conflictdag.Rivals.{IsRival}
use zipp.Conflictdag.{States, Conflict, ConflictDag, targets}

module _ (states : States) (d : ConflictDag) (id : ℕ) where
  -- The conflict itself, and the parents of what is reached and was not accepted.
  pub data IsAncestor : ℕ → Type 0 where
    itself : IsAncestor id
    parent :
        (k y : ℕ) (c : Conflict)
        → IsAncestor k
        → lookup k d.conflicts ≡ some c
        → (c.confirmation_state == states.accepted) ≡ false
        → elem y c.parents ≡ true
        → IsAncestor y

  -- The other members of the conflict sets of an ancestor that was not accepted, and the children of
  -- what is reached and was not rejected, or is an ancestor.
  pub data IsReached : ℕ → Type 0 where
    rival :
        (k y : ℕ) (c : Conflict)
        → IsAncestor k
        → lookup k d.conflicts ≡ some c
        → (c.confirmation_state == states.accepted) ≡ false
        → IsRival d c y
        → IsReached y
    child :
        (k y : ℕ) (c : Conflict)
        → IsReached k
        → lookup k d.conflicts ≡ some c
        → ((c.confirmation_state == states.rejected) ≡ false) ⊎ IsAncestor k
        → elem y (targets c.id d.child_conflicts) ≡ true
        → IsReached y
