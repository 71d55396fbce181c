-- ===== src/Base/Walkers.antt =====
-- The walker of the foundation library (walker.New, Push, HasNext and Next), as an interface, and a
-- loop over it.
use zipp.Base.Tests.{◌==◌, Bool-cases, ==_refl}
use zipp.Base.Lists.{List-cases, length, length-append, elem, elem-append}
use zipp.Base.Panic.{Result, panic, ok, Returns}
use Prim.Native.Nat.{ℕ, zero, suc, ◌+◌, ◌≤◌}
use mathlib.Core.Path.{◌≡◌, refl, ap, ◌∙◌, subst}
use mathlib.Core.Logic.{◌⊎◌, inl, inr}
use mathlib.Core.Bool.{Bool, true, false, ◌||◌}
use mathlib.Core.Option.{Option, none, some}
use mathlib.Core.List.{List, [], ◌∷◌, ◌++◌}
use native.Mathlib.Omega.{arith}

pub record Walkers : Type 1 where
  pub Walker : Type 0
  pub new : Walker
  pub push : Walker → ℕ → Walker
  -- HasNext and Next
  pub next : Walker → Option (ℕ × Walker)

-- A walker is a queue of elements that takes each element once.
pub record WalkerLaws (ws : Walkers) : Type 1 where
  pub pending : ws.Walker → List ℕ
  pub seen : ws.Walker → ℕ → Bool
  pub pending_new : pending ws.new ≡ []
  pub seen_new : (y : ℕ) → seen ws.new y ≡ false
  pub push_new :
      (w : ws.Walker) (x : ℕ) → seen w x ≡ false → pending (ws.push w x) ≡ pending w ++ x ∷ []
  pub push_seen : (w : ws.Walker) (x : ℕ) → seen w x ≡ true → pending (ws.push w x) ≡ pending w
  pub seen_push : (w : ws.Walker) (x y : ℕ) → seen (ws.push w x) y ≡ ((x == y) || seen w y)
  pub next_none : (w : ws.Walker) → pending w ≡ [] → ws.next w ≡ none
  pub next_some :
      (w : ws.Walker) (x : ℕ) (l : List ℕ)
      → pending w ≡ x ∷ l
      → (w' : ws.Walker) × (ws.next w ≡ some (x, w'))
        × (pending w' ≡ l)
        × ((y : ℕ) → seen w' y ≡ seen w y)

module _ (ws : Walkers) where
  unfoldable pub push_all : ws.Walker → List ℕ → ws.Walker
  push_all w [] = w
  push_all w (x ∷ l) = push_all (ws.push w x) l

  -- A loop while there is a next element, which pushes elements and changes a state.
  unfoldable pub walk {ℓ} : {S : Type ℓ} → (ℕ → S → List ℕ × S) → ℕ → ws.Walker → S → Result S
  unfolding push_all
  walk step zero w s = elim (ws.next w) [ none ↦ ok s | some _ ↦ panic ]
  walk step (suc fuel) w s = elim (ws.next w) [
    | none ↦ ok s
    | some (x, w') ↦ walk step fuel (push_all w' (step x s).0) (step x s).1
  ]

  module _ (laws : WalkerLaws ws) where
    open laws use {pending, seen}

    pub seen-push_all :
        (w : ws.Walker) (l : List ℕ) (y : ℕ) → seen (push_all w l) y ≡ (elem y l || seen w y)
    unfolding push_all
    seen-push_all w [] y = refl
    seen-push_all w (x ∷ l) y =
        ground (arith, seen-push_all (ws.push w x) l y, laws.seen_push w x y)

    pub length-push_all :
        (w : ws.Walker) (l : List ℕ)
        → length (pending (push_all w l)) ≤ length (pending w) + length l
    unfolding push_all
    length-push_all w [] = omega arith
    length-push_all w (x ∷ l) = elim (Bool-cases (seen w x)) [
      | inl old ↦ ground (arith, length-push_all (ws.push w x) l, laws.push_seen w x old)
      | inr new ↦ ground (
        arith,
        length-push_all (ws.push w x) l,
        laws.push_new w x new,
        length-append (pending w) (x ∷ []),
      )
    ]

    -- What was pending stays so, and what is seen for the first time is pending.
    pub elem-push_all :
        (w : ws.Walker) (l : List ℕ) (y : ℕ)
        → ((elem y (pending w) ≡ true) ⊎ ((seen w y ≡ false) × (elem y l ≡ true)))
        → elem y (pending (push_all w l)) ≡ true
    unfolding push_all
    elem-push_all w [] y (inl h) = h
    elem-push_all w [] y (inr (n, h)) = ground arith
    elem-push_all w (x ∷ l) y h = elem-push_all (ws.push w x) l y (pushed h)
      where
        again : (x == y) ≡ true → seen w x ≡ seen w y
        again e = ap (seen w) (ground (arith, e))

        pushed :
            (elem y (pending w) ≡ true) ⊎ ((seen w y ≡ false) × (elem y (x ∷ l) ≡ true))
            → (elem y (pending (ws.push w x)) ≡ true)
              ⊎ ((seen (ws.push w x) y ≡ false) × (elem y l ≡ true))
        pushed (inl h) = elim (Bool-cases (seen w x)) [
          | inl old ↦ inl (ground (arith, laws.push_seen w x old))
          | inr new ↦
              inl (ground (arith, laws.push_new w x new, elem-append y (pending w) (x ∷ [])))
        ]
        pushed (inr (n, g)) = elim (Bool-cases (x == y)) [
          | inr differs ↦ inr (ground (arith, laws.seen_push w x y), ground arith)
          | inl same ↦ inl (
              ground
                (arith, laws.push_new w x (again same ∙ n), elem-append y (pending w) (x ∷ [])))
        ]

    -- Only what was pending or pushed is pending.
    pub pending-push_all :
        (w : ws.Walker) (l : List ℕ) (y : ℕ)
        → elem y (pending (push_all w l)) ≡ true
        → (elem y (pending w) ≡ true) ⊎ (elem y l ≡ true)
    unfolding push_all
    pending-push_all w [] y h = inl h
    pending-push_all w (x ∷ l) y h = elim (pending-push_all (ws.push w x) l y h) [
      | inr later ↦ inr (ground arith)
      | inl before ↦ elim (Bool-cases (seen w x)) [
        | inl old ↦ inl (ground (arith, laws.push_seen w x old))
        | inr new ↦ elim (Bool-cases (elem y (pending w))) [
          | inl here ↦ inl here
          | inr missing ↦
              inr (ground (arith, laws.push_new w x new, elem-append y (pending w) (x ∷ [])))
        ]
      ]
    ]

    -- What a walk is about: a potential that pays for the pushes, an invariant, what is done with
    -- an element, the elements that a state asks for, and what holds of the elements pushed.
    pub record Step {ℓ κ} {S : Type ℓ} (potential : S → ℕ) (Inv : S → Type κ)
        (Done Req : ℕ → S → Type κ) (Good : ℕ → Type 0) (x : ℕ) (s : S) (r : List ℕ × S)
        : Type (ℓ ⊔ κ) where
      pub pays : length r.0 + potential r.1 ≤ potential s
      pub keeps : Inv r.1
      pub does : Done x r.1
      pub done : (y : ℕ) → Done y s → Done y r.1
      pub asks : (y : ℕ) → Req y r.1 → Req y s ⊎ (elem y r.0 ≡ true)
      pub good : (y : ℕ) → elem y r.0 ≡ true → Good y

    -- What is seen is pending or done, and what is asked for is seen.
    pub record Covers {ℓ κ} {S : Type ℓ} (Done Req : ℕ → S → Type κ) (Good : ℕ → Type 0)
        (w : ws.Walker) (s : S) : Type κ where
      pub all_good : (y : ℕ) → elem y (pending w) ≡ true → Good y
      pub handled : (y : ℕ) → seen w y ≡ true → (elem y (pending w) ≡ true) ⊎ Done y s
      pub asked : (y : ℕ) → Req y s → seen w y ≡ true

    -- All that was asked for is done, and so is all that the first walker had seen.
    pub record Walked {ℓ κ} {S : Type ℓ} (Inv : S → Type κ) (Done Req : ℕ → S → Type κ)
        (w : ws.Walker) (s' : S) : Type κ where
      pub inv : Inv s'
      pub all_done : (y : ℕ) → Req y s' → Done y s'
      pub seen_done : (y : ℕ) → seen w y ≡ true → Done y s'

    module _ {ℓ κ} {S : Type ℓ} (step : ℕ → S → List ℕ × S) (potential : S → ℕ) (Inv : S → Type κ)
        (Done Req : ℕ → S → Type κ) (Good : ℕ → Type 0) where
      ended :
          (w : ws.Walker) (s : S)
          → Inv s
          → Covers Done Req Good w s
          → pending w ≡ []
          → Walked Inv Done Req w s
      ended w s i c e = record {
        inv = i;
        all_done = λ y r. finished y (c.asked y r);
        seen_done = finished;
      }
        where
          finished : (y : ℕ) → seen w y ≡ true → Done y s
          finished y h = elim (c.handled y h) [ inl p ↦ absurd (ground (arith, e)) | inr d ↦ d ]

      next-Covers :
          ((x : ℕ) (s : S) → Inv s → Good x → Step potential Inv Done Req Good x s (step x s))
          → (w w' : ws.Walker) (x : ℕ) (l : List ℕ) (s : S) → Inv s
          → Covers Done Req Good w s
          → pending w ≡ x ∷ l
          → pending w' ≡ l
          → ((y : ℕ) → seen w' y ≡ seen w y)
          → Covers Done Req Good (push_all w' (step x s).0) (step x s).1
      next-Covers st w w' x l s i c e p same = record {
        all_good = λ y h. elim (pending-push_all w' (step x s).0 y h) [
          | inl old ↦ c.all_good y (ground (arith, e, p))
          | inr pushed ↦ st0.good y pushed
        ];
        handled = λ y h. elim (Bool-cases (seen w y)) [
          | inr new ↦ inl (
              elem-push_all w' (step x s).0 y
                (inr (same y ∙ new, ground (arith, h, same y, seen-push_all w' (step x s).0 y))))
          | inl old ↦ elim (c.handled y old) [
            | inr d ↦ inr (st0.done y d)
            | inl q ↦ elim (Bool-cases (x == y)) [
              | inl now ↦ inr (subst (λ z. Done z (step x s).1) (ground arith) (st0.does))
              | inr later ↦ inl (elem-push_all w' (step x s).0 y (inl (ground (arith, e, p))))
            ]
          ]
        ];
        asked = λ y r. elim (st0.asks y r) [
          | inl before ↦ ground (arith, seen-push_all w' (step x s).0 y, same y, c.asked y before)
          | inr pushed ↦ ground (arith, seen-push_all w' (step x s).0 y)
        ];
      }
        where
          st0 : Step potential Inv Done Req Good x s (step x s)
          st0 = st x s i (c.all_good x (ground (arith, e, ==_refl x)))

      -- With enough fuel for what is pending and what the potential still pays for, a walk ends,
      -- and everything that was asked for is done.
      pub walk_lem :
          ((x : ℕ) (s : S) → Inv s → Good x → Step potential Inv Done Req Good x s (step x s))
          → (fuel : ℕ) (w : ws.Walker) (s : S) → Inv s
          → Covers Done Req Good w s
          → length (pending w) + potential s ≤ fuel
          → Returns (Walked Inv Done Req w) (walk step fuel w s)
      unfolding walk
      walk_lem st zero w s i c b = elim (List-cases (pending w)) [
        | inl e ↦ (s, rw (laws.next_none w e, walk) refl, ended w s i c e)
        | inr (x, l, e) ↦ absurd (ground (arith, e))
      ]
      walk_lem st (suc fuel) w s i c b = elim (List-cases (pending w)) [
        | inl e ↦ (s, rw (laws.next_none w e, walk) refl, ended w s i c e)
        | inr (x, l, e) ↦
            let (w', n, p, same) = laws.next_some w x l e in
            let st0 : Step potential Inv Done Req Good x s (step x s) =
              st x s i (c.all_good x (ground (arith, e, ==_refl x))) in
            let (s', f, d) =
              walk_lem st fuel (push_all w' (step x s).0) (step x s).1 (st0.keeps)
                (next-Covers st w w' x l s i c e p same)
                (ground (arith, e, p, length-push_all w' (step x s).0, st0.pays)) in
            (
              s',
              rw (n, walk) f,
              record {
                inv = d.inv;
                all_done = d.all_done;
                seen_done =
                    λ y h. d.seen_done y (ground (arith, seen-push_all w' (step x s).0 y, same y));
              },
            )
      ]
