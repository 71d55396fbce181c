-- ===== src/Devnetvm/UnlockGraph/References.antt =====
-- checkReferenceCycle on unlock blocks whose references are in range.
use mathlib.Core.Path.{subst}
use zipp.Base.{
  ℕ, zero, suc, ◌+◌, ◌<◌, ◌≡◌, refl, ◌∙◌, ◌⊎◌, inl, inr, List, [], ◌∷◌, ◌++◌, Option, none, some,
  Bool, true, false, ltb, length, length-append, get_elem?, get_elem?-lt, All, Result, ok, Returns,
  arith, Bool-cases, sym, ap, ==_refl, ◌==◌, elem, elem-append, if◌then◌else◌, ◌≤◌,
}
use zipp.Base.Assoc.{lookup, insert, lookup-insert}
use zipp.Devnetvm.UnlockGraph.{
  UnlockGraph, UnlockBlock, signature, unknown, reference, alias, add_blocks, create,
  check_reference_cycle, max_input_count,
}
use zipp.Devnetvm.UnlockGraph.Cycles.{Answer, is_cycle_detected_lem}

-- The index that a block refers to is below `n`.
abbrev pub IsInRange : ℕ → UnlockBlock → Type 0
IsInRange n (reference i) = i < n
IsInRange n (alias i) = i < n
IsInRange n signature = Unit
IsInRange n unknown = Unit

-- The index that a block refers to.
abbrev pub target : Option UnlockBlock → Option ℕ
target none = none
target (some signature) = none
target (some unknown) = none
target (some (reference j)) = some j
target (some (alias j)) = some j

-- The graph of the first `i` blocks: their indexes are the vertices, and their references the edges.
pub record IsGraph (blocks : List UnlockBlock) (i : ℕ) (g : UnlockGraph) : Type 0 where
  pub count : length g.vertices ≡ i
  pub vertices : (v : ℕ) → elem v g.vertices ≡ ltb v i
  pub edges : (v : ℕ) → lookup v g.edges ≡ (if ltb v i then target (get_elem? blocks v) else none)

add_vertex-IsGraph :
    (blocks : List UnlockBlock) (i : ℕ) (block : UnlockBlock) (g g' : UnlockGraph)
    → IsGraph blocks i g
    → get_elem? blocks i ≡ some block
    → g'.vertices ≡ g.vertices ++ i ∷ []
    → ((v : ℕ) → lookup v g'.edges ≡ (if i == v then target (some block) else lookup v g.edges))
    → IsGraph blocks (suc i) g'
add_vertex-IsGraph blocks i block g g' m at e f = record {
  count = omega (arith, ap length e, length-append g.vertices (i ∷ []), m.count);
  vertices = λ v. ap (elem v) e ∙ elem-append v g.vertices (i ∷ []) ∙ ground (arith, m.vertices v);
  edges = λ v. f v ∙ elim (Bool-cases (i == v)) [
    | inl now ↦
        let key : i ≡ v = ground (arith, now) in
        let here : get_elem? blocks v ≡ some block = ap (get_elem? blocks) (sym key) ∙ at in
        rw (here) (ground (arith, now))
    | inr differs ↦ ground (arith, differs, m.edges v)
  ];
}

-- A block of an unknown type, or a reference to a reference, is refused.
abbrev pub is_refused : List UnlockBlock → UnlockBlock → Bool
is_refused blocks unknown = true
is_refused blocks signature = false
is_refused blocks (alias _) = false
is_refused blocks (reference j) = elim (get_elem? blocks j) [
  | some (reference _) ↦ true
  | _ ↦ false
]

abbrev pub Refused : List UnlockBlock → List UnlockBlock → Type 0
Refused blocks rest =
    (i : ℕ) × (block : UnlockBlock) × (get_elem? rest i ≡ some block)
    × (is_refused blocks block ≡ true)

abbrev IsAccepted : List UnlockBlock → UnlockBlock → Type 0
IsAccepted blocks block = is_refused blocks block ≡ false

-- What NewUnlockGraph makes of the rest of the blocks: an error, or the graph of all of them.
abbrev IsMade : List UnlockBlock → List UnlockBlock → Option UnlockGraph → Type 0
IsMade blocks rest none = Refused blocks rest
IsMade blocks rest (some g) = All (IsAccepted blocks) rest × IsGraph blocks (length blocks) g

later :
    (blocks rest : List UnlockBlock) (block : UnlockBlock) {r : Result (Option UnlockGraph)}
    → is_refused blocks block ≡ false
    → Returns (IsMade blocks rest) r
    → Returns (IsMade blocks (block ∷ rest)) r
later blocks rest block f (none, ran, (i, refused, at, h)) = (none, ran, (suc i, refused, at, h))
later blocks rest block f (some g, ran, (a, m)) = (some g, ran, ((f, a), m))

-- The rest of the blocks from an index on.
abbrev IsRest : List UnlockBlock → ℕ → List UnlockBlock → Type 0
IsRest blocks i rest = (k : ℕ) → get_elem? rest k ≡ get_elem? blocks (i + k)

next-IsRest :
    (blocks : List UnlockBlock) (i : ℕ) (block : UnlockBlock) (rest : List UnlockBlock)
    → IsRest blocks i (block ∷ rest)
    → (get_elem? blocks i ≡ some block) × IsRest blocks (suc i) rest
next-IsRest blocks i block rest r = (
  sym (r 0 ∙ ap (get_elem? blocks) (omega arith)),
  λ k. r (suc k) ∙ ap (get_elem? blocks) (omega arith),
)

add_blocks_lem :
    (blocks : List UnlockBlock) (i : ℕ) (rest : List UnlockBlock) (g : UnlockGraph)
    → All (IsInRange (length blocks)) rest
    → i + length rest ≡ length blocks
    → IsRest blocks i rest
    → IsGraph blocks i g
    → Returns (IsMade blocks rest) (add_blocks blocks i rest g)
unfolding add_blocks
add_blocks_lem blocks i [] g a l r m =
    (some g, refl, (tt, subst (λ n. IsGraph blocks n g) (omega (arith, l)) m))
add_blocks_lem blocks i (unknown ∷ rest) g a l r m = (none, refl, (0, unknown, refl, refl))
add_blocks_lem blocks i (signature ∷ rest) g a l r m =
    let (at, r') = next-IsRest blocks i signature rest r in
    later blocks rest signature refl (
      add_blocks_lem blocks (suc i) rest (record g { vertices = g.vertices ++ i ∷ [] }) a.1
        (omega (arith, l)) r'
        (add_vertex-IsGraph blocks i signature g _ m at refl (λ v. ground (arith, m.edges v))))
add_blocks_lem blocks i (alias j ∷ rest) g a l r m =
    let (at, r') = next-IsRest blocks i (alias j) rest r in
    later blocks rest (alias j) refl (
      add_blocks_lem blocks (suc i) rest
        (record { vertices = g.vertices ++ i ∷ []; edges = insert i j g.edges }) a.1
        (omega (arith, l)) r'
        (add_vertex-IsGraph blocks i (alias j) g _ m at refl (λ v. lookup-insert i v j g.edges)))
add_blocks_lem blocks i (reference j ∷ rest) g a l r m =
    let (at, r') = next-IsRest blocks i (reference j) rest r in
    let (block, e) = get_elem?-lt blocks j a.0 in
    rw (e, add_blocks)
      (refers block e (
        add_blocks_lem blocks (suc i) rest
          (record { vertices = g.vertices ++ i ∷ []; edges = insert i j g.edges }) a.1
          (omega (arith, l)) r'
          (add_vertex-IsGraph blocks i (reference j) g _ m at refl
            (λ v. lookup-insert i v j g.edges))))
  where
    refers :
        (block : UnlockBlock)
        → get_elem? blocks j ≡ some block
        → {r : Result (Option UnlockGraph)} → Returns (IsMade blocks rest) r
        → Returns
            (IsMade blocks (reference j ∷ rest))
            (elim block [ reference _ ↦ ok none | _ ↦ r ])
    refers (reference k) e r = (none, refl, (0, reference j, refl, rw (e, is_refused) refl))
    refers (alias _) e r = later blocks rest (reference j) (rw (e, is_refused) refl) r
    refers signature e r = later blocks rest (reference j) (rw (e, is_refused) refl) r
    refers unknown e r = later blocks rest (reference j) (rw (e, is_refused) refl) r

All-below : (n : ℕ) (l : List ℕ) → ((v : ℕ) → elem v l ≡ true → v < n) → All (λ v. v < n) l
All-below n [] h = tt
All-below n (x ∷ l) h = (h x (ground (arith, ==_refl x)), All-below n l (λ v g. h v (ground arith)))

target_below :
    (n : ℕ) (l : List UnlockBlock) (v w : ℕ)
    → All (IsInRange n) l
    → target (get_elem? l v) ≡ some w
    → w < n
target_below n [] v w a h = ground arith
target_below n (signature ∷ l) zero w a h = ground arith
target_below n (unknown ∷ l) zero w a h = ground arith
target_below n (reference j ∷ l) zero w a h = ground (arith, a.0)
target_below n (alias j ∷ l) zero w a h = ground (arith, a.0)
target_below n (x ∷ l) (suc v) w a h = target_below n l v w a.1 h

-- What checkReferenceCycle returns: an error, or the answer for the graph of the blocks.
abbrev pub Checked : List UnlockBlock → Option Bool → Type 0
Checked blocks none = (max_input_count < length blocks) ⊎ Refused blocks blocks
Checked blocks (some found) =
    (length blocks ≤ max_input_count)
    × All (λ block. is_refused blocks block ≡ false) blocks
    × (g : UnlockGraph) × IsGraph blocks (length blocks) g
    × Answer g.edges g.vertices found

-- On unlock blocks whose references are in range, checkReferenceCycle never panics. It returns an
-- error if there are more blocks than MaxInputCount, or one is of an unknown type or refers to a
-- reference, and only then. Otherwise it answers for the graph whose vertices are the indexes of the
-- blocks and whose edges are what the reference and alias blocks refer to: true only if some
-- vertex's reference leads back to it, and false only if the references from every vertex end.
pub check_reference_cycle_lem :
    (blocks : List UnlockBlock)
    → All (IsInRange (length blocks)) blocks
    → Returns (Checked blocks) (check_reference_cycle blocks)
unfolding check_reference_cycle create lookup
check_reference_cycle_lem blocks a = elim (Bool-cases (ltb max_input_count (length blocks))) [
  | inl many ↦ rw (many, create) (none, refl, inl (ground arith))
  | inr few ↦ checked (ground arith) (rw (create, few) refl) (
      add_blocks_lem blocks 0 blocks (record { vertices = []; edges = [] }) a (omega arith)
        (λ k. ap (get_elem? blocks) (omega arith))
        (record { count = refl; vertices = λ v. ground arith; edges = λ v. ground arith }))
]
  where
    checked :
        length blocks ≤ max_input_count
        → {r : Result (Option UnlockGraph)} → create blocks ≡ r
        → Returns (IsMade blocks blocks) r
        → Returns (Checked blocks) (check_reference_cycle blocks)
    checked few c (none, ran, m) = rw (c ∙ ran) (none, refl, inr m)
    checked few c (some g, ran, (accepted, m)) =
        let (found, answered, right) =
          is_cycle_detected_lem g
            (All-below (length g.vertices) g.vertices
              (λ v h. ground (arith, m.vertices v, m.count)))
            (λ v w h.
              let referred : target (get_elem? blocks v) ≡ some w = ground (arith, m.edges v) in
              omega (arith, m.count, target_below (length blocks) blocks v w a referred)) in
        rw (c ∙ ran) (rw answered (some found, refl, (few, accepted, g, m, right)))
