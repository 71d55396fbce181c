-- ===== src/Schedulerutils/BufferQueue/Round.antt =====
-- The rounds of BufferQueue over its ring, and the rule to reason about one.
use mathlib.Core.List.{append_assoc, append-nil}
use zipp.Base.{
  ℕ, zero, suc, ◌<◌, ◌≡◌, refl, sym, ap, ◌∙◌, List, [], ◌∷◌, ◌++◌, none, some, true, false, length,
  ◌==◌, Result, ok, arith, IsDistinct, elem, elem-append, Returns, is_some, foldl, foldl-append,
  ==_refl, some_of,
}
use zipp.Base.Assoc.{lookup}
use zipp.Schedulerutils.NodeQueue.{NodeQueue}
use zipp.Schedulerutils.BufferQueue.{
  BufferQueue, walk, visit, current, head_queue, next, rotate, is_at,
}

head_apart :
    (x y z : ℕ) (xs done zs : List ℕ)
    → done ++ (y ∷ z ∷ zs) ≡ x ∷ xs
    → IsDistinct (done ++ (y ∷ z ∷ zs))
    → (z == x) ≡ false
head_apart x y z xs [] zs e d = ground arith
head_apart x y z xs (a ∷ done) zs e d = ground (arith, elem-append a done (y ∷ z ∷ zs))

-- The rule for a round: `P` follows the nodes that are done, and the body leaves the ring alone.
module _ {ℓ κ} {S : Type ℓ} (P : List ℕ → S → BufferQueue → Type κ)
    (body : S → BufferQueue → NodeQueue → Result (S × BufferQueue)) (x : ℕ) (xs : List ℕ) where
  pub record Rule : Type (ℓ ⊔ κ) where
    pub turn : (done : List ℕ) (s : S) (b : BufferQueue) → P done s b → P done s (next b)
    pub keep :
        (y : ℕ) (done rest : List ℕ) (s : S) (b : BufferQueue)
        → b.ring ≡ y ∷ (rest ++ done)
        → done ++ (y ∷ rest) ≡ x ∷ xs
        → P done s b
        → Returns (λ r. (r.1.ring ≡ b.ring) × P (done ++ y ∷ []) r.0 r.1) (visit body s b)

  walk_stop :
      (fuel : ℕ) (s s' : S) (b b' : BufferQueue)
      → visit body s b ≡ ok (s', b')
      → is_at (next b').ring (x ∷ xs) ≡ true
      → walk (suc fuel) body (x ∷ xs) s b ≡ ok (s', next b')
  unfolding walk
  walk_stop fuel s s' b b' ran home =
      rw (ran, walk)
        (ap (λ t. elim t [ true ↦ ok (s', next b') | false ↦ walk fuel body (x ∷ xs) s' (next b') ])
          home)

  walk_on :
      (fuel : ℕ) (s s' : S) (b b' : BufferQueue)
      → visit body s b ≡ ok (s', b')
      → is_at (next b').ring (x ∷ xs) ≡ false
      → walk (suc fuel) body (x ∷ xs) s b ≡ walk fuel body (x ∷ xs) s' (next b')
  unfolding walk
  walk_on fuel s s' b b' ran home =
      rw (ran, walk)
        (ap (λ t. elim t [ true ↦ ok (s', next b') | false ↦ walk fuel body (x ∷ xs) s' (next b') ])
          home)

  walk_from :
      Rule
      → IsDistinct (x ∷ xs)
      → (fuel y : ℕ) (done rest : List ℕ) (s : S) (b : BufferQueue) → length rest < fuel
      → b.ring ≡ y ∷ (rest ++ done)
      → done ++ (y ∷ rest) ≡ x ∷ xs
      → P done s b
      → Returns (λ r. (r.1.ring ≡ x ∷ xs) × P (x ∷ xs) r.0 r.1) (walk fuel body (x ∷ xs) s b)
  unfolding next rotate is_at
  walk_from rule d zero y done rest s b f r e p = absurd (omega arith)
  walk_from rule d (suc fuel) y done [] s b f r e p =
      let ((s', b'), ran, (same, p')) = rule.keep y done [] s b r e p in
      let home : (next b').ring ≡ x ∷ xs = rw (same, r) e in
      (
        (s', next b'),
        walk_stop fuel s s' b b' ran (ap (λ t. is_at t (x ∷ xs)) home ∙ ==_refl x),
        (home, rw e at (rule.turn (done ++ y ∷ []) s' b' p')),
      )
  walk_from rule d (suc fuel) y done (z ∷ zs) s b f r e p =
      let ((s', b'), ran, (same, p')) = rule.keep y done (z ∷ zs) s b r e p in
      let moved : (next b').ring ≡ z ∷ (zs ++ (done ++ y ∷ [])) =
        rw (same, r) (rw append_assoc refl) in
      let (r', ran', goal) =
        walk_from rule d fuel z (done ++ y ∷ []) zs s' (next b') (omega arith) moved
          (append_assoc done (y ∷ []) (z ∷ zs) ∙ e) (rule.turn (done ++ y ∷ []) s' b' p') in
      (
        r',
        walk_on fuel s s' b b' ran
              (ap (λ t. is_at t (x ∷ xs)) moved ∙ head_apart x y z xs done zs e (rw e d))
            ∙ ran',
        goal,
      )

-- The queues of a list of nodes.
abbrev pub queues_of : List (ℕ × NodeQueue) → List ℕ → List NodeQueue
queues_of m [] = []
queues_of m (x ∷ xs) = elim (lookup x m) [ some q ↦ q ∷ queues_of m xs | none ↦ queues_of m xs ]

queues_of-snoc :
    (m : List (ℕ × NodeQueue)) (xs : List ℕ) (x : ℕ) (q : NodeQueue)
    → lookup x m ≡ some q
    → queues_of m (xs ++ x ∷ []) ≡ queues_of m xs ++ q ∷ []
queues_of-snoc m [] x q h = ground arith
queues_of-snoc m (y ∷ xs) x q h = ground (arith, queues_of-snoc m xs x q h)

-- A round that reads only: it returns the fold over the queues, and leaves the buffer as it was.
module _ {ℓ} {S : Type ℓ} (f : S → NodeQueue → S) (s : S) (b : BufferQueue)
    (distinct : IsDistinct b.ring)
    (active : (k : ℕ) → elem k b.ring ≡ true → is_some (lookup k b.active_node) ≡ true) where
  record IsRead (done : List ℕ) (t : S) (c : BufferQueue) : Type ℓ where
    folded : t ≡ foldl f s (queues_of b.active_node done)
    nodes : c.active_node ≡ b.active_node
    size : c.size ≡ b.size
    max : c.max_buffer ≡ b.max_buffer

  visit-IsRead :
      (y : ℕ) (done rest : List ℕ) (t : S) (c : BufferQueue)
      → c.ring ≡ y ∷ (rest ++ done)
      → elem y b.ring ≡ true
      → IsRead done t c
      → Returns
          (λ r. (r.1.ring ≡ c.ring) × IsRead (done ++ y ∷ []) r.0 r.1)
          (visit (λ s b q. ok (f s q, b)) t c)
  unfolding visit current head_queue
  visit-IsRead y done rest t c r m p =
      let (q, h) = some_of (lookup y b.active_node) (active y m) in
      (
        (f t q, c),
        rw (r, head_queue, p.nodes, h) refl,
        (
          refl,
          record {
            folded =
                ap (λ u. f u q) p.folded
                ∙ sym (foldl-append f s (queues_of b.active_node done) (q ∷ []))
                ∙ ap (foldl f s) (sym (queues_of-snoc b.active_node done y q h));
            nodes = p.nodes;
            size = p.size;
            max = p.max;
          },
        ),
      )

  IsRead-Rule : (x : ℕ) (xs : List ℕ) → b.ring ≡ x ∷ xs → Rule IsRead (λ s b q. ok (f s q, b)) x xs
  unfolding next
  IsRead-Rule x xs e = record {
    turn = λ done t c p. record { folded = p.folded; nodes = p.nodes; size = p.size; max = p.max };
    keep = λ y done rest t c r whole p.
        visit-IsRead y done rest t c r (ground (arith, elem-append y done (y ∷ rest))) p;
  }

  -- `start` is the ring, which is not empty.
  pub walk_reads :
      (x : ℕ) (xs : List ℕ)
      → b.ring ≡ x ∷ xs
      → walk (length b.ring) (λ s b q. ok (f s q, b)) b.ring s b
        ≡ ok (foldl f s (queues_of b.active_node b.ring), b)
  walk_reads x xs e =
      let ((t, c), ran, (home, p)) =
        walk_from IsRead (λ s b q. ok (f s q, b)) x xs (IsRead-Rule x xs e) (rw e at distinct)
          (suc (length xs)) x [] xs s b (omega arith) (e ∙ ap (◌∷◌ x) (sym (append-nil xs))) refl
          (record { folded = refl; nodes = refl; size = refl; max = refl }) in
      ap (λ l. walk (length l) (λ s b q. ok (f s q, b)) l s b) e
      ∙ ran
      ∙ ground (arith, p.folded, p.nodes, p.size, p.max)
