-- ===== src/Schedulerutils/ElementHeap.antt =====
-- packages/core/mesh_old/schedulerutils/nodequeue.go: Element and ElementHeap, the latter under
-- the `heap.Push` and `heap.Pop` of Go's container/heap. An index out of range is a panic; so is
-- the end of the fuel, which the theorems of the children exclude.
pub mod Order
pub mod Down
pub mod Contents
use zipp.Base.{
  ℕ, zero, suc, ◌+◌, ◌-◌, ◌*◌, ◌/◌, Bool, List, ◌∷◌, [], ◌++◌, ltb, leb, ◌==◌, if◌then◌else◌,
  Option, none, some, length, get_elem?, set, take, Result, ok, panic, ◌>>=◌, deref,
}

-- An ElementID is read as a number, and `issuer` is the identity.ID of the issuer's public key.
pub record Element : Type 0 where
  pub id : ℕ
  pub size : ℕ
  pub issuer : ℕ
  pub issuing_time : ℕ

unfoldable pub less : List Element → ℕ → ℕ → Result Bool
less h i j = do
  a ← deref (get_elem? h i)
  b ← deref (get_elem? h j)
  ok (ltb a.issuing_time b.issuing_time)

unfoldable pub swap : List Element → ℕ → ℕ → Result (List Element)
swap h i j = do a ← deref (get_elem? h i); b ← deref (get_elem? h j); ok (set (set h i b) j a)

-- ElementHeap.Push and ElementHeap.Pop, at the end of the slice.
unfoldable pub push_last : List Element → Element → List Element
push_last h x = h ++ x ∷ []

unfoldable pub pop_last : List Element → Result (Element × List Element)
pop_last h = do x ← deref (get_elem? h (length h - 1)); ok (x, take (length h - 1) h)

-- The loop of container/heap's `up`: `i` is the parent of `j`.
unfoldable pub up : ℕ → List Element → ℕ → Result (List Element)
up zero h j = panic
up (suc fuel) h j =
    let i = (j - 1) / 2 in
    elim (i == j) [
      | Bool.true ↦ ok h
      | Bool.false ↦ do
        smaller ← less h j i
        elim smaller [ Bool.false ↦ ok h | Bool.true ↦ do h' ← swap h i j; up fuel h' i ]
    ]

-- The child of `i` that `down` compares with `i`: the right one if it is smaller.
unfoldable pub smaller_child : List Element → ℕ → ℕ → Result ℕ
smaller_child h i n =
    let j1 = 2 * i + 1 in
    let j2 = j1 + 1 in
    if ltb j2 n then (do right ← less h j2 j1; ok (if right then j2 else j1)) else ok j1

unfoldable pub down : ℕ → List Element → ℕ → ℕ → Result (List Element)
down zero h i n = panic
down (suc fuel) h i n = elim (leb n (2 * i + 1)) [
  | Bool.true ↦ ok h
  | Bool.false ↦ do
    j ← smaller_child h i n
    smaller ← less h j i
    elim smaller [ Bool.false ↦ ok h | Bool.true ↦ do h' ← swap h i j; down fuel h' j n ]
]

-- heap.Push
unfoldable pub push : List Element → Element → Result (List Element)
push h x = let h' = push_last h x in up (length h') h' (length h' - 1)

-- heap.Pop
unfoldable pub pop : List Element → Result (Element × List Element)
pop h = do let n = length h - 1; swapped ← swap h 0 n; h' ← down (suc n) swapped 0 n; pop_last h'
