-- ===== src/Scheduler/Children.antt =====
-- tryReady and updateChildren on a valid buffer.
use mathlib.Core.Path.{subst}
use zipp.Base.{
  ℕ, ◌≡◌, refl, sym, ap, ◌∙◌, List, [], ◌∷◌, ◌++◌, some, none, true, false, elem, ◌==◌, ◌||◌, ◌&&◌,
  arith, Returns, Option-cases, Bool-cases, inl, inr, ◌⊎◌, ==_refl,
}
use zipp.Base.Assoc.{lookup}
use zipp.Base.Floats.{Float64}
use zipp.Schedulerutils.ElementHeap.{Element}
use zipp.Schedulerutils.BufferQueue.Validity.{IsValid, Readies, holds, ready_lem}
use zipp.Schedulerutils.BufferQueue.Waiting.{waiting}
use zipp.Scheduler.{
  Scheduler, World, Block, Metadata, failed, ready_block, ready, is_eligible, all_eligible,
  is_ready, try_ready, update_children,
}

module _ (fl : Float64) (w : World fl) where
  abbrev Entries : Type 0
  Entries = List (ℕ × Metadata)

  -- A stored block whose parents are all scheduled or confirmed, by their metadata.
  abbrev pub IsFree : List (ℕ × Metadata) → ℕ → Block → Type 0
  IsFree m id block =
      (lookup id w.blocks ≡ some block)
      × ((p : ℕ)
          → elem p block.parents ≡ true
          → (d : Metadata) × (lookup p m ≡ some d) × ((d.is_scheduled || w.is_confirmed p) ≡ true))

  -- The buffer is valid and holds the same blocks, the deficits and the metadata are unchanged, and
  -- among the blocks that wait, just the free ones of `ids` are made ready.
  pub record Updates (ids : List ℕ) (s s' : Scheduler fl) : Type 0 where
    pub valid : IsValid s'.buffer
    pub size : s'.buffer.size ≡ s.buffer.size
    pub same : (weight : ℕ → ℕ) → holds weight s'.buffer ≡ holds weight s.buffer
    pub deficits : s'.deficits ≡ s.deficits
    pub metadata : s'.metadata ≡ s.metadata
    pub absent : (k j : ℕ) → waiting s.buffer k j ≡ none → waiting s'.buffer k j ≡ none
    pub moves :
        (id : ℕ) (block : Block)
        → elem id ids ≡ true
        → IsFree s.metadata id block
        → waiting s'.buffer block.element.issuer block.element.id ≡ none
    pub stays :
        (k j : ℕ) (e : Element)
        → waiting s.buffer k j ≡ some e
        → (waiting s'.buffer k j ≡ some e)
          ⊎ ((id : ℕ) × (block : Block) × (elem id ids ≡ true)
              × IsFree s.metadata id block
              × (block.element.issuer ≡ k)
              × (block.element.id ≡ j))

  all_eligible-elem :
      (s : Scheduler fl) (l : List ℕ) (p : ℕ)
      → all_eligible fl w s l ≡ true
      → elem p l ≡ true
      → (d : Metadata) × (lookup p s.metadata ≡ some d)
        × ((d.is_scheduled || w.is_confirmed p) ≡ true)
  unfolding all_eligible is_eligible
  all_eligible-elem s [] p h e = ground arith
  all_eligible-elem s (x ∷ l) p h e = elim (Bool-cases (x == p)) [
    | inr differs ↦ all_eligible-elem s l p (ground arith) (ground arith)
    | inl now ↦
        let key : x ≡ p = ground (arith, now) in
        subst
          (λ (z : ℕ).
            (d : Metadata) × (lookup z s.metadata ≡ some d)
            × ((d.is_scheduled || w.is_confirmed z) ≡ true))
          key
          (elim (Option-cases (lookup x s.metadata)) [
            | inl n ↦ absurd (ground arith)
            | inr (d, g) ↦ (d, g, ground arith)
          ])
  ]

  elem-all_eligible :
      (s : Scheduler fl) (l : List ℕ)
      → ((p : ℕ)
          → elem p l ≡ true
          → (d : Metadata) × (lookup p s.metadata ≡ some d)
            × ((d.is_scheduled || w.is_confirmed p) ≡ true))
      → all_eligible fl w s l ≡ true
  unfolding all_eligible is_eligible
  elem-all_eligible s [] h = refl
  elem-all_eligible s (x ∷ l) h =
      let (d, g, e) = h x (ground (arith, ==_refl x)) in
      rw (all_eligible, is_eligible, g, e) (elem-all_eligible s l (λ p m. h p (ground arith)))

  is_ready-IsFree :
      (s : Scheduler fl) (id : ℕ) (block : Block)
      → lookup id w.blocks ≡ some block
      → is_ready fl w s id ≡ true
      → IsFree s.metadata id block
  unfolding is_ready
  is_ready-IsFree s id block e r =
      (e, λ p h. all_eligible-elem s block.parents p (rw (is_ready, e) at r) h)

  IsFree-is_ready :
      (s : Scheduler fl) (id : ℕ) (block : Block)
      → IsFree s.metadata id block
      → is_ready fl w s id ≡ true
  unfolding is_ready
  IsFree-is_ready s id block (e, h) = rw (is_ready, e) (elem-all_eligible s block.parents h)

  -- Nothing becomes ready.
  unchanged :
      (ids : List ℕ) (s s' : Scheduler fl)
      → s'.buffer ≡ s.buffer
      → s'.deficits ≡ s.deficits
      → s'.metadata ≡ s.metadata
      → IsValid s.buffer
      → ((id : ℕ) (block : Block)
          → elem id ids ≡ true
          → (IsFree s.metadata id block → false ≡ true))
      → Updates ids s s'
  unchanged ids s s' b f m v none_free = record {
    valid = subst IsValid (sym b) v;
    size = ap (λ z. z.size) b;
    same = λ weight. ap (holds weight) b;
    deficits = f;
    metadata = m;
    absent = λ k j n. ap (λ z. waiting z k j) b ∙ n;
    moves = λ id block h free. absurd (ground (arith, none_free id block h free));
    stays = λ k j e h. inl (ap (λ z. waiting z k j) b ∙ h);
  }

  -- The step on one child, whose block is free.
  readied :
      (id : ℕ) (block : Block) (s s' : Scheduler fl)
      → IsFree s.metadata id block
      → Readies s.buffer block.element s'.buffer
      → s'.deficits ≡ s.deficits
      → s'.metadata ≡ s.metadata
      → Updates (id ∷ []) s s'
  readied id block s s' free r f m = record {
    valid = r.valid;
    size = r.size;
    same = r.same;
    deficits = f;
    metadata = m;
    absent = λ k j n. ground (arith, r.waits k j, n);
    moves = λ x other h (e, _).
        let key : id ≡ x = ground (arith, h) in
        let same : block ≡ other =
          ground (arith, sym (free.0) ∙ ap (λ z. lookup z w.blocks) key ∙ e) in
        subst (λ (b : Block). waiting s'.buffer b.element.issuer b.element.id ≡ none) same
          (ground (
            arith,
            r.waits block.element.issuer block.element.id,
            ==_refl block.element.issuer,
            ==_refl block.element.id,
          ));
    stays = λ k j e h. elim (Bool-cases ((block.element.issuer == k) && (block.element.id == j))) [
      | inr differs ↦ inl (ground (arith, r.waits k j, h))
      | inl now ↦
          inr
            (id, block, ground (arith, ==_refl id), free, ground (arith, now), ground (arith, now))
    ];
  }

  ready_block_lem :
      (id : ℕ) (block : Block) (s : Scheduler fl)
      → IsValid s.buffer
      → IsFree s.metadata id block
      → Returns (Updates (id ∷ []) s) (ready_block fl block.element s)
  unfolding ready_block
  ready_block_lem id block s v free =
      let ((moved, b), ran, r) = ready_lem s.buffer block.element v in
      (
        record s { buffer = b },
        rw (ran, ready_block) refl,
        readied id block s (record s { buffer = b }) free r refl refl,
      )

  try_ready_lem :
      (id : ℕ) (s : Scheduler fl)
      → IsValid s.buffer
      → Returns (Updates (id ∷ []) s) (try_ready fl w id s)
  unfolding try_ready ready
  try_ready_lem id s v = elim (Bool-cases (is_ready fl w s id)) [
    | inr not_yet ↦
        rw (not_yet, try_ready)
          (
            s,
            refl,
            unchanged (id ∷ []) s s refl refl refl v (λ x block h free.
                let key : id ≡ x = ground (arith, h) in
                sym not_yet ∙ ap (is_ready fl w s) key ∙ IsFree-is_ready s x block free),
          )
    | inl now ↦ elim (Option-cases (lookup id w.blocks)) [
      | inl n ↦
          rw (now, try_ready, ready, n)
            (
              record s { events = s.events ++ failed ∷ [] },
              refl,
              unchanged (id ∷ []) s _ refl refl refl v (λ x block h free.
                  let key : id ≡ x = ground (arith, h) in
                  ground (arith, n, ap (λ z. lookup z w.blocks) key, free.0)),
            )
      | inr (block, e) ↦
          let (s', ran, k) = ready_block_lem id block s v (is_ready-IsFree s id block e now) in
          rw (now, try_ready, ready, e) (rw ran (s', refl, k))
    ]
  ]

  -- What is done for one child and then for the others.
  append-Updates :
      (id : ℕ) (ids : List ℕ) (s s1 s2 : Scheduler fl)
      → Updates (id ∷ []) s s1
      → Updates ids s1 s2
      → Updates (id ∷ ids) s s2
  append-Updates id ids s s1 s2 a b = record {
    valid = b.valid;
    size = b.size ∙ a.size;
    same = λ weight. b.same weight ∙ a.same weight;
    deficits = b.deficits ∙ a.deficits;
    metadata = b.metadata ∙ a.metadata;
    absent = λ k j n. b.absent k j (a.absent k j n);
    moves = λ x block h free. elim (Bool-cases (id == x)) [
      | inl now ↦
          b.absent block.element.issuer block.element.id (a.moves x block (ground arith) free)
      | inr later ↦
          b.moves x block (ground arith)
            (subst (λ (m : Entries). IsFree m x block) (sym a.metadata) free)
    ];
    stays = λ k j e h. elim (a.stays k j e h) [
      | inr (x, block, m, free, i, n) ↦ inr (x, block, ground arith, free, i, n)
      | inl still ↦ elim (b.stays k j e still) [
        | inl after ↦ inl after
        | inr (x, block, m, free, i, n) ↦ inr (
          x,
          block,
          ground arith,
          subst (λ (l : Entries). IsFree l x block) a.metadata free,
          i,
          n,
        )
      ]
    ];
  }

  -- updateChildren on a scheduler whose buffer is valid never panics, whatever the children are.
  -- Among the blocks that were submitted and are not ready it makes ready just those that are the
  -- block of a stored child of which all parents are scheduled or confirmed: after it none of these
  -- waits, and every other one still waits. No block waits that did not wait before. The buffer
  -- stays valid and holds the blocks that it held, and the deficits and the metadata are unchanged.
  pub update_children_lem :
      (ids : List ℕ) (s : Scheduler fl)
      → IsValid s.buffer
      → Returns (Updates ids s) (update_children fl w ids s)
  unfolding update_children
  update_children_lem [] s v =
      (s, refl, unchanged [] s s refl refl refl v (λ id block h free. ground arith))
  update_children_lem (id ∷ ids) s v =
      let (s1, ran, k) = try_ready_lem id s v in
      let (s2, ran', k') = update_children_lem ids s1 k.valid in
      (s2, rw (ran, update_children) ran', append-Updates id ids s s1 s2 k k')
