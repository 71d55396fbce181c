-- ===== src/Devnetvm/UnlockGraph/Cycles.antt =====
-- IsCycleDetected on a graph whose edges are in range.
use zipp.Base.{
  ℕ, zero, suc, ◌+◌, ◌≤◌, ◌<◌, ◌≡◌, refl, ap, ◌∙◌, inl, inr, List, [], ◌∷◌, none, some, Bool, true,
  false, length, length-set, get_elem?, get_elem?-set, get_elem?-lt, lt-get_elem?, set, sum_by,
  sum_by-set, All, Result, ok, ◌>>=◌, deref, Returns, arith, Bool-cases, Option-cases, ◌==◌,
  if◌then◌else◌,
}
use mathlib.Core.Path.{subst}
use zipp.Base.Assoc.{lookup}
use zipp.Devnetvm.UnlockGraph.{
  UnlockGraph, Marks, mark, leave, dfs, search_from, unset, is_cycle_detected,
}

-- The references from `v` end at a block that refers to none.
pub data Stops (edges : List (ℕ × ℕ)) : ℕ → Type 0 where
  last : (v : ℕ) → lookup v edges ≡ none → Stops edges v
  onward : (v w : ℕ) → lookup v edges ≡ some w → Stops edges w → Stops edges v

-- The references from `u` lead to `v`.
pub data Leads (edges : List (ℕ × ℕ)) : ℕ → ℕ → Type 0 where
  stay : (v : ℕ) → Leads edges v v
  go : (u w v : ℕ) → lookup u edges ≡ some w → Leads edges w v → Leads edges u v

-- A vertex whose reference leads back to it.
abbrev pub Loop : List (ℕ × ℕ) → Type 0
Loop edges = (c : ℕ) × (d : ℕ) × (lookup c edges ≡ some d) × Leads edges d c

extend-Leads :
    {edges : List (ℕ × ℕ)} {u v : ℕ} (w : ℕ)
    → Leads edges u v
    → lookup v edges ≡ some w
    → Leads edges u w
extend-Leads w (stay v) e = go v w w e (stay w)
extend-Leads w (go u x v f l) e = go u x w f (extend-Leads w l e)

abbrev unmarked : Bool → ℕ
unmarked b = if b then 0 else 1

abbrev left : Marks → ℕ
left m = sum_by unmarked m.visited

-- What an answer of IsCycleDetected says of the vertices.
abbrev pub Answer : List (ℕ × ℕ) → List ℕ → Bool → Type 0
Answer edges nodes true = Loop edges
Answer edges nodes false = All (Stops edges) nodes

mark-ok : (l : List Bool) (i : ℕ) (v : Bool) → i < length l → mark l i v ≡ ok (set l i v)
unfolding mark
mark-ok l i v h = let (b, e) = get_elem?-lt l i h in rw (mark, e) refl

module _ (edges : List (ℕ × ℕ)) (n : ℕ) where
  -- Every visited node that is not on the stack has been followed to its end.
  record IsSound (m : Marks) : Type 0 where
    visited : length m.visited ≡ n
    stack : length m.stack ≡ n
    finished :
        (w : ℕ)
        → get_elem? m.visited w ≡ some true
        → get_elem? m.stack w ≡ some false
        → Stops edges w

  -- What a search from a node leaves that found no cycle.
  record After (m : Marks) (node : ℕ) (m' : Marks) : Type 0 where
    sound : IsSound m'
    kept : (w : ℕ) → get_elem? m.visited w ≡ some true → get_elem? m'.visited w ≡ some true
    restored : (w : ℕ) → get_elem? m.stack w ≡ some false → get_elem? m'.stack w ≡ some false
    stops : Stops edges node
    fewer : left m' ≤ left m

  abbrev Verdict : Marks → ℕ → Bool × Marks → Type 0
  Verdict m node (true, m') = Loop edges
  Verdict m node (false, m') = After m node m'

  module _ (targets : (v w : ℕ) → lookup v edges ≡ some w → w < n) where
    enter : Marks → ℕ → Marks
    enter m node = record { visited = set m.visited node true; stack = set m.stack node true }

    enter-IsSound :
        (m : Marks) (node : ℕ)
        → IsSound m
        → get_elem? m.visited node ≡ some false
        → node < n
        → IsSound (enter m node)
    unfolding enter
    enter-IsSound m node s h b =
        let (x, e) = get_elem?-lt m.stack node (omega (arith, s.stack)) in
        record {
          visited = length-set m.visited node true ∙ s.visited;
          stack = length-set m.stack node true ∙ s.stack;
          finished = λ w p q.
              s.finished w
                (ground (
                  arith,
                  get_elem?-set m.visited node w true false h,
                  get_elem?-set m.stack node w true x e,
                ))
                (ground (arith, get_elem?-set m.stack node w true x e));
        }

    enter-left :
        (m : Marks) (node : ℕ)
        → get_elem? m.visited node ≡ some false
        → left (enter m node) + 1 ≡ left m
    unfolding enter
    enter-left m node h = ground (arith, sum_by-set unmarked m.visited node true false h)

    -- The node leaves the stack.
    leave_lem :
        (m m1 : Marks) (node : ℕ)
        → IsSound m
        → get_elem? m.visited node ≡ some false
        → node < n
        → IsSound m1
        → ((w : ℕ)
            → get_elem? (enter m node).visited w ≡ some true
            → get_elem? m1.visited w ≡ some true)
        → ((w : ℕ)
            → get_elem? (enter m node).stack w ≡ some false
            → get_elem? m1.stack w ≡ some false)
        → left m1 ≤ left m
        → Stops edges node
        → Returns (Verdict m node) (leave node (false, m1))
    unfolding leave enter
    leave_lem m m1 node s h b s1 kept restored few stops =
        let (x, e) = get_elem?-lt m1.stack node (omega (arith, s1.stack)) in
        let (y, f) = get_elem?-lt m.stack node (omega (arith, s.stack)) in
        (
          (false, record m1 { stack = set m1.stack node false }),
          rw (leave, mark-ok m1.stack node false (omega (arith, s1.stack))) refl,
          record {
            sound = record {
              visited = s1.visited;
              stack = length-set m1.stack node false ∙ s1.stack;
              finished = λ w p q. elim (Bool-cases (node == w)) [
                | inl same ↦ subst (Stops edges) (ground arith) stops
                | inr differs ↦
                    s1.finished w p (ground (arith, get_elem?-set m1.stack node w false x e))
              ];
            };
            kept = λ w p. kept w (ground (arith, get_elem?-set m.visited node w true false h));
            restored = λ w p. ground (
              arith,
              get_elem?-set m1.stack node w false x e,
              restored w,
              get_elem?-set m.stack node w true y f,
            );
            stops = stops;
            fewer = few;
          },
        )

    leave_true :
        (m m1 : Marks) (node : ℕ) → Loop edges → Returns (Verdict m node) (leave node (true, m1))
    unfolding leave
    leave_true m m1 node loop = ((true, m1), refl, loop)

    -- Every node on the stack leads to the current one.
    abbrev IsTrail : Marks → ℕ → Type 0
    IsTrail m node = (w : ℕ) → get_elem? m.stack w ≡ some true → Leads edges w node

    enter-IsTrail :
        (m : Marks) (node : ℕ) → IsSound m → node < n → IsTrail m node → IsTrail (enter m node) node
    unfolding enter
    enter-IsTrail m node s b trail w p =
        let (x, e) = get_elem?-lt m.stack node (omega (arith, s.stack)) in
        elim (Bool-cases (node == w)) [
          | inl same ↦ subst (λ v. Leads edges v node) (ground arith) (stay node)
          | inr differs ↦ trail w (ground (arith, get_elem?-set m.stack node w true x e))
        ]

    -- dfs up to the look at the edge.
    entered :
        (fuel node : ℕ) (m : Marks)
        → IsSound m
        → node < n
        → dfs edges (suc fuel) node m ≡ (elim (lookup node edges) [
          | none ↦ leave node (false, enter m node)
          | some referenced ↦ do
            seen ← deref (get_elem? (enter m node).visited referenced)
            elim seen [
              | Bool.false ↦ do r ← dfs edges fuel referenced (enter m node); leave node r
              | Bool.true ↦ do
                on_stack ← deref (get_elem? (enter m node).stack referenced)
                leave node (on_stack, enter m node)
            ]
        ])
    unfolding dfs enter
    entered fuel node m s b =
        rw
          (
            mark-ok m.visited node true (omega (arith, s.visited)),
            mark-ok m.stack node true (omega (arith, s.stack)),
          )
          refl

    seen_before :
        (m : Marks) (node w : ℕ)
        → IsSound m
        → get_elem? m.visited node ≡ some false
        → node < n
        → lookup node edges ≡ some w
        → get_elem? (enter m node).visited w ≡ some true
        → (on_stack : Bool) → get_elem? (enter m node).stack w ≡ some on_stack
        → IsTrail (enter m node) node
        → Returns (Verdict m node) (leave node (on_stack, enter m node))
    seen_before m node w s h b e at true at' trail =
        leave_true m (enter m node) node (node, w, e, trail w at')
    seen_before m node w s h b e at false at' trail =
        let s' = enter-IsSound m node s h b in
        leave_lem m (enter m node) node s h b s' (λ v p. p) (λ v p. p)
          (omega (arith, enter-left m node h)) (onward node w e (s'.finished w at at'))

    after :
        (m : Marks) (node w fuel : ℕ)
        → IsSound m
        → get_elem? m.visited node ≡ some false
        → node < n
        → lookup node edges ≡ some w
        → Returns (Verdict (enter m node) w) (dfs edges fuel w (enter m node))
        → Returns (Verdict m node) (do r ← dfs edges fuel w (enter m node); leave node r)
    after m node w fuel s h b e ((true, m1), ran, v) = rw ran (leave_true m m1 node v)
    after m node w fuel s h b e ((false, m1), ran, v) = rw ran (
        leave_lem m m1 node s h b v.sound v.kept v.restored
          (omega (arith, v.fewer, enter-left m node h)) (onward node w e v.stops))

    -- A search that meets a node for the first time returns, and if it finds no cycle, then the
    -- references from the node end.
    dfs_lem :
        (fuel node : ℕ) (m : Marks)
        → IsSound m
        → get_elem? m.visited node ≡ some false
        → node < n
        → left m < fuel
        → IsTrail m node
        → Returns (Verdict m node) (dfs edges fuel node m)
    dfs_lem zero node m s h b f trail = absurd (omega arith)
    dfs_lem (suc fuel) node m s h b f trail =
        let s' = enter-IsSound m node s h b in
        let less = enter-left m node h in
        let trail' = enter-IsTrail m node s b trail in
        rw (entered fuel node m s b) (elim (Option-cases (lookup node edges)) [
          | inl e ↦ rw e (
              leave_lem m (enter m node) node s h b s' (λ w p. p) (λ w p. p) (omega arith)
                (last node e))
          | inr (w, e) ↦
              let inside = targets node w e in
              let (seen, at) = get_elem?-lt (enter m node).visited w (omega (arith, s'.visited)) in
              rw (e, at)
                (elim (Bool-cases seen) [
                  | inl old ↦
                      let (on_stack, at') =
                        get_elem?-lt (enter m node).stack w (omega (arith, s'.stack)) in
                      rw (old, at')
                        (seen_before m node w s h b e (at ∙ ap some old) on_stack at' trail')
                  | inr fresh ↦ rw fresh (
                      after m node w fuel s h b e (
                        dfs_lem fuel w (enter m node) s' (at ∙ ap some fresh) inside (omega arith)
                          (λ v p. extend-Leads w (trail' v p) e)))
                ])
        ])

    -- The loop over the vertices.
    search_lem :
        (fuel : ℕ) (nodes : List ℕ) (m : Marks)
        → IsSound m
        → ((w : ℕ) → w < n → get_elem? m.stack w ≡ some false)
        → All (λ v. v < n) nodes
        → left m < fuel
        → Returns (Answer edges nodes) (search_from edges fuel nodes m)
    unfolding search_from
    search_lem fuel [] m s idle inside f = (false, refl, tt)
    search_lem fuel (node ∷ nodes) m s idle inside f =
        let (seen, at) = get_elem?-lt m.visited node (omega (arith, s.visited, inside.0)) in
        rw (at, search_from)
          (elim (Bool-cases seen) [
            | inl old ↦ rw old (
                more node nodes (s.finished node (at ∙ ap some old) (idle node inside.0))
                  (search_lem fuel nodes m s idle inside.1 f))
            | inr fresh ↦ rw fresh (
                onwards
                  (dfs_lem fuel node m s (at ∙ ap some fresh) inside.0 f
                    (λ w p. absurd (omega (arith, on_idle w p))))
                  (λ m' v.
                    search_lem fuel nodes m' v.sound (λ w p. v.restored w (idle w p)) inside.1
                      (omega (arith, v.fewer))))
          ])
      where
        on_idle : (w : ℕ) → get_elem? m.stack w ≡ some true → left m < left m
        on_idle w p =
            ground (arith, idle w (omega (arith, s.stack, lt-get_elem? m.stack w true p)), p)

        more :
            (node : ℕ) (nodes : List ℕ) {r : Result Bool}
            → Stops edges node
            → Returns (Answer edges nodes) r
            → Returns (Answer edges (node ∷ nodes)) r
        more node nodes stops (true, ran, a) = (true, ran, a)
        more node nodes stops (false, ran, a) = (false, ran, (stops, a))

        onwards :
            Returns (Verdict m node) (dfs edges fuel node m)
            → ((m' : Marks)
                → After m node m'
                → Returns (Answer edges nodes) (search_from edges fuel nodes m'))
            → Returns (Answer edges (node ∷ nodes)) (do
              (found, m') ← dfs edges fuel node m
              elim found [ Bool.true ↦ ok true | Bool.false ↦ search_from edges fuel nodes m' ])
        onwards ((true, m'), ran, v) rest = rw ran (true, refl, v)
        onwards ((false, m'), ran, v) rest = rw ran (more node nodes v.stops (rest m' v))

length-unset : (n : ℕ) → length (unset n) ≡ n
unfolding unset
length-unset zero = refl
length-unset (suc n) = ap suc (length-unset n)

get_elem?-unset : (n w : ℕ) → w < n → get_elem? (unset n) w ≡ some false
unfolding unset
get_elem?-unset zero w h = absurd (omega arith)
get_elem?-unset (suc n) zero h = refl
get_elem?-unset (suc n) (suc w) h = get_elem?-unset n w (omega arith)

unmarked-unset : (n : ℕ) → sum_by unmarked (unset n) ≡ n
unfolding unset
unmarked-unset zero = refl
unmarked-unset (suc n) = omega (arith, unmarked-unset n)

unset-none : (n w : ℕ) → get_elem? (unset n) w ≡ some true → w < 0
unfolding unset
unset-none zero w h = ground arith
unset-none (suc n) zero h = ground arith
unset-none (suc n) (suc w) h = absurd (omega (arith, unset-none n w h))

-- IsCycleDetected never panics on a graph whose vertices and references are in range. If it reports
-- a cycle, then some vertex's reference leads back to it; if it reports none, then the references
-- from every vertex end at a block that refers to none.
pub is_cycle_detected_lem :
    (g : UnlockGraph)
    → All (λ v. v < length g.vertices) g.vertices
    → ((v w : ℕ) → lookup v g.edges ≡ some w → w < length g.vertices)
    → Returns (Answer g.edges g.vertices) (is_cycle_detected g)
unfolding is_cycle_detected
is_cycle_detected_lem g inside targets =
    let n = length g.vertices in
    search_lem g.edges n targets (suc n) g.vertices (record { visited = unset n; stack = unset n })
      (record {
        visited = length-unset n;
        stack = length-unset n;
        finished = λ w p q. absurd (omega (arith, unset-none n w p));
      })
      (get_elem?-unset n) inside (omega (arith, unmarked-unset n))
