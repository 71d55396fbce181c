-- ===== src/Schedulerutils/BufferQueue/Longest.antt =====
-- The search of dropHead for the longest mana-scaled queue, and for the oldest block in it.
use mathlib.Core.Path.{subst}
use zipp.Base.{
  ℕ, zero, suc, ◌≤◌, ◌≡◌, refl, ap, ◌⊎◌, inl, inr, List, [], ◌∷◌, none, some, true, false, ltb,
  if◌then◌else◌, arith, elem, get_elem?, Option-cases, Bool-cases, foldl, All, ◌==◌,
}
use zipp.Base.Assoc.{lookup}
use zipp.Base.Floats.{Float64}
use zipp.Schedulerutils.ElementHeap.{Element}
use zipp.Schedulerutils.NodeQueue.{NodeQueue}
use zipp.Schedulerutils.BufferQueue.{scale_step, oldest_of}
use zipp.Schedulerutils.BufferQueue.Round.{queues_of}

-- What dropHead relies on: mana is positive (at least MinMana), `<` on the floats at hand is a
-- strict order, a scale is above -Inf, and a queue that is not empty scales above an empty one.
pub record Scales (fl : Float64) (retrieve : ℕ → fl.F) : Type 0 where
  pub positive : (k : ℕ) → fl.lt (fl.of_int 0) (retrieve k) ≡ true
  pub above_neg_inf : (n k : ℕ) → fl.lt fl.neg_inf (fl.div (fl.of_int n) (retrieve k)) ≡ true
  pub above_empty :
      (n k j : ℕ)
      → fl.lt (fl.div (fl.of_int 0) (retrieve k)) (fl.div (fl.of_int (suc n)) (retrieve j)) ≡ true
  pub irrefl : (a : fl.F) → fl.lt a a ≡ false
  pub trans : (a b c : fl.F) → fl.lt a b ≡ true → fl.lt b c ≡ true → fl.lt a c ≡ true

module _ (fl : Float64) (retrieve : ℕ → fl.F) where
  open fl use {F, lt, of_int, div, neg_inf}

  abbrev pub scale : NodeQueue → F
  scale q = div (of_int q.size) (retrieve q.node_id)

  -- No queue of the list scales above.
  abbrev pub IsTop : F → List NodeQueue → Type 0
  IsTop m = All (λ r. lt m (scale r) ≡ false)

  pub record Found (m : F) (qs : List NodeQueue) (r : F × ℕ) : Type 0 where
    pub queue : NodeQueue
    pub index : ℕ
    pub at : get_elem? qs index ≡ some queue
    pub node : r.1 ≡ queue.node_id
    pub max : r.0 ≡ scale queue
    pub above : lt m (scale queue) ≡ true
    pub top : IsTop (scale queue) qs

  step_lem :
      Scales fl retrieve
      → (m : F) (id : ℕ) (q : NodeQueue)
      → scale_step fl retrieve (m, id) q
        ≡ (if lt m (scale q) then (scale q, q.node_id) else (m, id))
  unfolding scale_step
  step_lem s m id q = rw (s.positive q.node_id) refl

  IsTop-mono :
      Scales fl retrieve → (m n : F) (qs : List NodeQueue) → lt m n ≡ true → IsTop m qs → IsTop n qs
  IsTop-mono s m n [] h t = tt
  IsTop-mono s m n (q ∷ qs) h t = (ground (arith, s.trans m n (scale q)), IsTop-mono s m n qs h t.1)

  -- The fold keeps its state, if nothing scales above it, or finds a queue that none scales above.
  pub longest_lem :
      Scales fl retrieve
      → (qs : List NodeQueue) (m : F) (id : ℕ)
      → let r = foldl (scale_step fl retrieve) (m, id) qs in
        ((r ≡ (m, id)) × IsTop m qs) ⊎ Found m qs r
  longest_lem s [] m id = inl (refl, tt)
  longest_lem s (q ∷ qs) m id = elim (Bool-cases (lt m (scale q))) [
    | inr stay ↦
        rw (step_lem s m id q, stay)
          (elim (longest_lem s qs m id) [
            | inl (e, t) ↦ inl (e, (refl, t))
            | inr f ↦ inr (record {
              queue = f.queue;
              index = suc f.index;
              at = f.at;
              node = f.node;
              max = f.max;
              above = f.above;
              top = (ground (arith, s.trans m (scale f.queue) (scale q), f.above), f.top);
            })
          ])
    | inl better ↦
        rw (step_lem s m id q, better)
          (elim (longest_lem s qs (scale q) q.node_id) [
            | inl (e, t) ↦ inr (record {
              queue = q;
              index = 0;
              at = refl;
              node = ap (λ p. p.1) e;
              max = ap (λ p. p.0) e;
              above = better;
              top = (s.irrefl (scale q), t);
            })
            | inr f ↦ inr (record {
              queue = f.queue;
              index = suc f.index;
              at = f.at;
              node = f.node;
              max = f.max;
              above = s.trans m (scale q) (scale f.queue) better f.above;
              top = (
                ground (
                  arith,
                  s.trans (scale q) (scale f.queue) (scale q),
                  s.irrefl (scale q),
                  f.above,
                ),
                f.top,
              );
            })
          ])
  ]

get_elem?-cons_cases :
    (p : NodeQueue) (qs : List NodeQueue) (i : ℕ) (q : NodeQueue)
    → get_elem? (p ∷ qs) i ≡ some q
    → (p ≡ q) ⊎ ((j : ℕ) × (get_elem? qs j ≡ some q))
get_elem?-cons_cases p qs zero q h = inl (ground arith)
get_elem?-cons_cases p qs (suc i) q h = inr (i, h)

pub queues_of-miss :
    (m : List (ℕ × NodeQueue)) (x : ℕ) (xs : List ℕ)
    → lookup x m ≡ none
    → queues_of m (x ∷ xs) ≡ queues_of m xs
queues_of-miss m x xs n = rw (n, queues_of) refl

pub queues_of-hit :
    (m : List (ℕ × NodeQueue)) (x : ℕ) (xs : List ℕ) (p : NodeQueue)
    → lookup x m ≡ some p
    → queues_of m (x ∷ xs) ≡ p ∷ queues_of m xs
queues_of-hit m x xs p f = rw (f, queues_of) refl

All-rest {κ} :
    (P : NodeQueue → Type κ) (m : List (ℕ × NodeQueue)) (x : ℕ) (xs : List ℕ)
    → All P (queues_of m (x ∷ xs))
    → All P (queues_of m xs)
All-rest P m x xs a = elim (Option-cases (lookup x m)) [
  | inl n ↦ subst (All P) (queues_of-miss m x xs n) a
  | inr (p, f) ↦ (subst (All P) (queues_of-hit m x xs p f) a).1
]

All-head {κ} : (P : NodeQueue → Type κ) (qs : List NodeQueue) (q : NodeQueue) → All P (q ∷ qs) → P q
All-head P qs q a = a.0

-- A queue of the list of queues is that of an active node, and the other way round.
pub queues_of-get :
    (m : List (ℕ × NodeQueue)) (xs : List ℕ) (i : ℕ) (q : NodeQueue)
    → get_elem? (queues_of m xs) i ≡ some q
    → (k : ℕ) × (lookup k m ≡ some q)
queues_of-get m [] i q h = ground arith
queues_of-get m (x ∷ xs) i q h = elim (Option-cases (lookup x m)) [
  | inl n ↦ queues_of-get m xs i q (ground (arith, h, n))
  | inr (p, f) ↦ elim (get_elem?-cons_cases p (queues_of m xs) i q (ground (arith, h, f))) [
    | inl e ↦ (x, ground arith)
    | inr (j, g) ↦ queues_of-get m xs j q g
  ]
]

pub queues_of-All {κ} :
    (P : NodeQueue → Type κ) (m : List (ℕ × NodeQueue)) (xs : List ℕ) (k : ℕ) (q : NodeQueue)
    → All P (queues_of m xs)
    → elem k xs ≡ true
    → lookup k m ≡ some q
    → P q
queues_of-All P m [] k q a e h = ground arith
queues_of-All P m (x ∷ xs) k q a e h = elim (Bool-cases (x == k)) [
  | inl s ↦ All-head P (queues_of m xs) q (subst (All P) (queues_of-hit m x xs q (ground arith)) a)
  | inr d ↦ queues_of-All P m xs k q (All-rest P m x xs a) (ground arith) h
]

-- The oldest submitted element: one of the entries, which none is earlier than.
pub record IsOldest (m : List (ℕ × Element)) (o : Element) : Type 0 where
  pub index : ℕ
  pub key : ℕ
  pub at : get_elem? m index ≡ some (key, o)
  pub earliest : All (λ e. o.issuing_time ≤ e.1.issuing_time) m

oldest_from :
    (o : Element) (m : List (ℕ × Element))
    → (r : Element) × (oldest_of (some o) m ≡ some r)
      × (r.issuing_time ≤ o.issuing_time)
      × All (λ e. r.issuing_time ≤ e.1.issuing_time) m
      × ((r ≡ o) ⊎ ((i : ℕ) × (k : ℕ) × (get_elem? m i ≡ some (k, r))))
unfolding oldest_of
oldest_from o [] = (o, refl, omega arith, tt, inl refl)
oldest_from o ((k, v) ∷ m) = elim (Bool-cases (ltb v.issuing_time o.issuing_time)) [
  | inl newer ↦
      let (r, e, b, t, w) = oldest_from v m in
      (
        r,
        rw newer e,
        ground arith,
        (b, t),
        elim w [ inl s ↦ inr (0, k, ground arith) | inr (i, j, g) ↦ inr (suc i, j, g) ],
      )
  | inr older ↦
      let (r, e, b, t, w) = oldest_from o m in
      (
        r,
        rw older e,
        b,
        (ground arith, t),
        elim w [ inl s ↦ inl s | inr (i, j, g) ↦ inr (suc i, j, g) ],
      )
]

-- The loop over the submitted blocks finds an oldest one, unless there is none.
pub oldest_lem :
    (m : List (ℕ × Element))
    → ((m ≡ []) × (oldest_of none m ≡ none))
      ⊎ ((o : Element) × (oldest_of none m ≡ some o) × IsOldest m o)
unfolding oldest_of
oldest_lem [] = inl (refl, refl)
oldest_lem ((k, v) ∷ m) =
    let (r, e, b, t, w) = oldest_from v m in
    inr (
      r,
      e,
      elim w [
        | inl s ↦ record { index = 0; key = k; at = ground arith; earliest = (b, t) }
        | inr (i, j, g) ↦ record { index = suc i; key = j; at = g; earliest = (b, t) }
      ],
    )
