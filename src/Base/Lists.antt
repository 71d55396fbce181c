-- ===== src/Base/Lists.antt =====
-- Lists measured and indexed by native numbers, under the library's names; sums of a weight.
use Prim.Native.Nat.{ℕ, zero, suc, ◌+◌, ◌≤◌, ◌<◌}
use mathlib.Core.Path.{◌≡◌, refl, ap}
use mathlib.Core.Logic.{◌⊎◌, inl, inr}
use mathlib.Core.Bool.{Bool, true, false, ◌||◌}
use mathlib.Core.List.{List, [], ◌∷◌, ◌++◌}
use mathlib.Core.Option.{Option, none, some}
use native.Mathlib.Omega.{arith}
use zipp.Base.Tests.{◌==◌}

module _ {ℓ} {A : Type ℓ} where
  abbrev pub length : List A → ℕ
  length [] = 0
  length (x ∷ xs) = suc (length xs)

  abbrev pub get_elem? : List A → ℕ → Option A
  get_elem? [] i = none
  get_elem? (x ∷ xs) zero = some x
  get_elem? (x ∷ xs) (suc i) = get_elem? xs i

  abbrev pub set : List A → ℕ → A → List A
  set [] i v = []
  set (x ∷ xs) zero v = v ∷ xs
  set (x ∷ xs) (suc i) v = x ∷ set xs i v

  abbrev pub drop : ℕ → List A → List A
  drop zero xs = xs
  drop (suc n) [] = []
  drop (suc n) (x ∷ xs) = drop n xs

  abbrev pub take : ℕ → List A → List A
  take zero xs = []
  take (suc n) [] = []
  take (suc n) (x ∷ xs) = x ∷ take n xs

  -- The sum of a weight over a list.
  abbrev pub sum_by : (A → ℕ) → List A → ℕ
  sum_by w [] = 0
  sum_by w (x ∷ xs) = w x + sum_by w xs

  -- The same items, as often: every weight sums up to the same.
  abbrev pub SameItems : List A → List A → Type ℓ
  SameItems xs ys = (w : A → ℕ) → sum_by w xs ≡ sum_by w ys

  pub length-append : (xs ys : List A) → length (xs ++ ys) ≡ length xs + length ys
  length-append [] ys = omega arith
  length-append (x ∷ xs) ys = omega (arith, length-append xs ys)

  pub sum_by-append : (w : A → ℕ) (xs ys : List A) → sum_by w (xs ++ ys) ≡ sum_by w xs + sum_by w ys
  sum_by-append w [] ys = omega arith
  sum_by-append w (x ∷ xs) ys = omega (arith, sum_by-append w xs ys)

  pub length-set : (xs : List A) (i : ℕ) (v : A) → length (set xs i v) ≡ length xs
  length-set [] i v = refl
  length-set (x ∷ xs) zero v = refl
  length-set (x ∷ xs) (suc i) v = ap suc (length-set xs i v)

  pub get_elem?-set :
      (xs : List A) (i j : ℕ) (v a : A)
      → get_elem? xs i ≡ some a
      → get_elem? (set xs i v) j ≡ (elim (i == j) [ true ↦ some v | false ↦ get_elem? xs j ])
  get_elem?-set [] i j v a h = ground arith
  get_elem?-set (x ∷ xs) zero zero v a h = refl
  get_elem?-set (x ∷ xs) zero (suc j) v a h = ground arith
  get_elem?-set (x ∷ xs) (suc i) zero v a h = ground arith
  get_elem?-set (x ∷ xs) (suc i) (suc j) v a h = ground (arith, get_elem?-set xs i j v a h)

  pub sum_by-set :
      (w : A → ℕ) (xs : List A) (i : ℕ) (v a : A)
      → get_elem? xs i ≡ some a
      → sum_by w (set xs i v) + w a ≡ sum_by w xs + w v
  sum_by-set w [] i v a h = ground arith
  sum_by-set w (x ∷ xs) zero v a h = ground arith
  sum_by-set w (x ∷ xs) (suc i) v a h = ground (arith, sum_by-set w xs i v a h)

  pub get_elem?-lt : (xs : List A) (i : ℕ) → i < length xs → (a : A) × (get_elem? xs i ≡ some a)
  get_elem?-lt [] i h = absurd (omega arith)
  get_elem?-lt (x ∷ xs) zero h = (x, refl)
  get_elem?-lt (x ∷ xs) (suc i) h = get_elem?-lt xs i (omega arith)

  pub lt-get_elem? : (xs : List A) (i : ℕ) (a : A) → get_elem? xs i ≡ some a → i < length xs
  lt-get_elem? [] i a h = ground arith
  lt-get_elem? (x ∷ xs) zero a h = omega arith
  lt-get_elem? (x ∷ xs) (suc i) a h = omega (arith, lt-get_elem? xs i a h)

  pub get_elem?-append_left :
      (xs ys : List A) (i : ℕ) → i < length xs → get_elem? (xs ++ ys) i ≡ get_elem? xs i
  get_elem?-append_left [] ys i h = absurd (omega arith)
  get_elem?-append_left (x ∷ xs) ys zero h = refl
  get_elem?-append_left (x ∷ xs) ys (suc i) h = get_elem?-append_left xs ys i (omega arith)

  pub get_elem?-take :
      (n : ℕ) (xs : List A) (i : ℕ) → i < n → get_elem? (take n xs) i ≡ get_elem? xs i
  get_elem?-take zero xs i h = absurd (omega arith)
  get_elem?-take (suc n) [] i h = refl
  get_elem?-take (suc n) (x ∷ xs) zero h = refl
  get_elem?-take (suc n) (x ∷ xs) (suc i) h = get_elem?-take n xs i (omega arith)

  -- Taking all but the last element takes its weight off.
  pub sum_by-take_init :
      (w : A → ℕ) (xs : List A) (n : ℕ) (a : A)
      → length xs ≡ suc n
      → get_elem? xs n ≡ some a
      → sum_by w (take n xs) + w a ≡ sum_by w xs
  sum_by-take_init w [] n a e h = absurd (omega arith)
  sum_by-take_init w (x ∷ []) zero a e h = ground arith
  sum_by-take_init w (x ∷ y ∷ xs) zero a e h = absurd (omega arith)
  sum_by-take_init w (x ∷ xs) (suc n) a e h =
      omega (arith, sum_by-take_init w xs n a (omega arith) h)

  -- Counting is a weight, and the weight of an item is within the sum.
  pub sum_by-one : (xs : List A) → sum_by (λ _. 1) xs ≡ length xs
  sum_by-one [] = refl
  sum_by-one (x ∷ xs) = omega (arith, sum_by-one xs)

  pub weight-le-sum_by :
      (w : A → ℕ) (xs : List A) (i : ℕ) (a : A) → get_elem? xs i ≡ some a → w a ≤ sum_by w xs
  weight-le-sum_by w [] i a h = ground arith
  weight-le-sum_by w (x ∷ xs) zero a h = ground arith
  weight-le-sum_by w (x ∷ xs) (suc i) a h = omega (arith, weight-le-sum_by w xs i a h)

  pub length-take_le : (n : ℕ) (xs : List A) → n ≤ length xs → length (take n xs) ≡ n
  length-take_le zero xs h = refl
  length-take_le (suc n) [] h = absurd (omega arith)
  length-take_le (suc n) (x ∷ xs) h = omega (arith, length-take_le n xs (omega arith))

  abbrev pub All {κ} : (A → Type κ) → List A → Type κ
  All P [] = Unit
  All P (x ∷ xs) = P x × All P xs

module _ {ℓ κ} {A : Type ℓ} {B : Type κ} where
  abbrev pub foldl : (B → A → B) → B → List A → B
  foldl f b [] = b
  foldl f b (x ∷ xs) = foldl f (f b x) xs

  pub foldl-append :
      (f : B → A → B) (b : B) (xs ys : List A) → foldl f b (xs ++ ys) ≡ foldl f (foldl f b xs) ys
  foldl-append f b [] ys = refl
  foldl-append f b (x ∷ xs) ys = foldl-append f (f b x) xs ys

-- Membership of a number, and lists without repetition.
abbrev pub elem : ℕ → List ℕ → Bool
elem k [] = false
elem k (x ∷ xs) = (x == k) || elem k xs

abbrev pub IsDistinct : List ℕ → Type 0
IsDistinct [] = Unit {0}
IsDistinct (x ∷ xs) = (elem x xs ≡ false) × IsDistinct xs

pub elem-append : (k : ℕ) (xs ys : List ℕ) → elem k (xs ++ ys) ≡ (elem k xs || elem k ys)
elem-append k [] ys = refl
elem-append k (x ∷ xs) ys = ground (arith, elem-append k xs ys)

pub append-IsDistinct :
    (xs : List ℕ) (k : ℕ) → elem k xs ≡ false → IsDistinct xs → IsDistinct (xs ++ k ∷ [])
append-IsDistinct [] k h d = (refl, tt)
append-IsDistinct (x ∷ xs) k h d =
    (ground (arith, elem-append x xs (k ∷ [])), append-IsDistinct xs k (ground arith) d.1)

-- A rotation by one keeps both.
pub elem-rotate : (k x : ℕ) (xs : List ℕ) → elem k (xs ++ x ∷ []) ≡ elem k (x ∷ xs)
elem-rotate k x xs = ground (arith, elem-append k xs (x ∷ []))

-- A split on a computed list that keeps the equation.
pub List-cases {ℓ} : {A : Type ℓ} (l : List A) → (l ≡ []) ⊎ ((x : A) × (r : List A) × (l ≡ x ∷ r))
List-cases [] = inl refl
List-cases (x ∷ r) = inr (x, r, refl)
