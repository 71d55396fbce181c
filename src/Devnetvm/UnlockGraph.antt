-- ===== src/Devnetvm/UnlockGraph.antt =====
-- packages/core/ledger/vm/devnetvm/utils.go: UnlockGraph, which checkReferenceCycle builds from the
-- references between unlock blocks. A vertex is an index, below 2 ^ 16 by MaxInputCount. The depth
-- of the search has fuel, whose end is a panic, as is an index out of range.
pub mod Cycles
pub mod References
use zipp.Base.{
  ℕ, zero, suc, ◌+◌, List, [], ◌∷◌, Option, none, some, Bool, true, false, ltb, length, get_elem?,
  set, ◌++◌, if◌then◌else◌, Result, ok, panic, ◌>>=◌, deref,
}
use zipp.Base.Assoc.{lookup, insert}

-- An unlock block, with the index that it refers to.
pub data UnlockBlock : Type 0 where
  signature unknown : UnlockBlock
  reference alias : ℕ → UnlockBlock

-- MaxInputCount
abbrev pub max_input_count : ℕ
max_input_count = 127

pub record UnlockGraph : Type 0 where
  pub vertices : List ℕ
  pub edges : List (ℕ × ℕ)

-- The loop over the blocks from index `i`; `none` is an error.
unfoldable pub add_blocks :
    List UnlockBlock → ℕ → List UnlockBlock → UnlockGraph → Result (Option UnlockGraph)
add_blocks blocks i [] g = ok (some g)
add_blocks blocks i (block ∷ rest) g =
    let g' : UnlockGraph = record g { vertices = g.vertices ++ i ∷ [] } in
    elim block [
      | signature ↦ add_blocks blocks (suc i) rest g'
      | reference ref_index ↦ do
        referenced ← deref (get_elem? blocks ref_index)
        elim referenced [
          | reference _ ↦ ok none
          | _ ↦ add_blocks blocks (suc i) rest (record g' { edges = insert i ref_index g.edges })
        ]
      | alias input_index ↦
          add_blocks blocks (suc i) rest (record g' { edges = insert i input_index g.edges })
      | unknown ↦ ok none
    ]

-- NewUnlockGraph
unfoldable pub create : List UnlockBlock → Result (Option UnlockGraph)
create blocks =
    if ltb max_input_count (length blocks)
    then ok none
    else add_blocks blocks 0 blocks (record { vertices = []; edges = [] })

-- What dfs writes: `visited` and `recursionStack`.
pub record Marks : Type 0 where
  pub visited : List Bool
  pub stack : List Bool

-- `marks[i] = v`
unfoldable pub mark : List Bool → ℕ → Bool → Result (List Bool)
mark l i v = do _ ← deref (get_elem? l i); ok (set l i v)

-- The rest of dfs after the path from the node: it leaves the recursion stack.
unfoldable pub leave : ℕ → Bool × Marks → Result (Bool × Marks)
unfolding mark
leave node (true, m) = ok (true, m)
leave node (false, m) = do stack ← mark m.stack node false; ok (false, record m { stack = stack })

unfoldable pub dfs : List (ℕ × ℕ) → ℕ → ℕ → Marks → Result (Bool × Marks)
unfolding mark leave
dfs edges zero node m = panic
dfs edges (suc fuel) node m = do
  visited ← mark m.visited node true
  stack ← mark m.stack node true
  let m' : Marks = record { visited = visited; stack = stack }
  elim (lookup node edges) [
    | none ↦ leave node (false, m')
    | some referenced ↦ do
      seen ← deref (get_elem? visited referenced)
      elim seen [
        | Bool.false ↦ do r ← dfs edges fuel referenced m'; leave node r
        | Bool.true ↦ do on_stack ← deref (get_elem? stack referenced); leave node (on_stack, m')
      ]
  ]

-- The loop of IsCycleDetected over the vertices.
unfoldable pub search_from : List (ℕ × ℕ) → ℕ → List ℕ → Marks → Result Bool
search_from edges fuel [] m = ok false
search_from edges fuel (node ∷ nodes) m = do
  seen ← deref (get_elem? m.visited node)
  elim seen [
    | Bool.true ↦ search_from edges fuel nodes m
    | Bool.false ↦ do
      (found, m') ← dfs edges fuel node m
      elim found [ Bool.true ↦ ok true | Bool.false ↦ search_from edges fuel nodes m' ]
  ]

-- make([]bool, n)
unfoldable pub unset : ℕ → List Bool
unset zero = []
unset (suc n) = false ∷ unset n

-- IsCycleDetected
unfoldable pub is_cycle_detected : UnlockGraph → Result Bool
is_cycle_detected g =
    let n = length g.vertices in
    search_from g.edges (suc n) g.vertices (record { visited = unset n; stack = unset n })

-- checkReferenceCycle; `none` is an error of NewUnlockGraph.
unfoldable pub check_reference_cycle : List UnlockBlock → Result (Option Bool)
check_reference_cycle blocks = do
  made ← create blocks
  elim made [ none ↦ ok none | some g ↦ do found ← is_cycle_detected g; ok (some found) ]
