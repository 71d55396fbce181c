-- ===== src/Schedulerutils/BufferQueue/Waiting.antt =====
-- The submitted blocks of BufferQueue that wait for Ready.
use zipp.Base.{
  Option, Bool-cases, sym, ◌&&◌, ◌==◌, if◌then◌else◌, ℕ, ◌≡◌, refl, ap, ◌∙◌, inl, inr, none, some,
  arith,
}
use zipp.Base.Assoc.{lookup, insert, lookup-insert}
use zipp.Schedulerutils.ElementHeap.{Element}
use zipp.Schedulerutils.NodeQueue.{NodeQueue}
use zipp.Schedulerutils.BufferQueue.{BufferQueue}

-- The block with an ID that a node has submitted and that is not ready.
abbrev pub waiting : BufferQueue → ℕ → ℕ → Option Element
waiting b k j = elim (lookup k b.active_node) [ none ↦ none | some q ↦ lookup j q.submitted ]

pub insert-waiting :
    (b : BufferQueue) (q q' : NodeQueue) (i x k j : ℕ)
    → lookup i b.active_node ≡ some q
    → lookup j q'.submitted ≡ (if x == j then none else lookup j q.submitted)
    → waiting (record b { active_node = insert i q' b.active_node }) k j
      ≡ (if (i == k) && (x == j) then none else waiting b k j)
insert-waiting b q q' i x k j h e = elim (Bool-cases (i == k)) [
  | inr differs ↦ rw (waiting, lookup-insert i k q' b.active_node, differs) refl
  | inl now ↦
      let here : lookup k b.active_node ≡ some q =
        sym (ap (λ z. lookup z b.active_node) (ground (arith, now))) ∙ h in
      rw (waiting, lookup-insert i k q' b.active_node, now, here) e
]

pub missing :
    (q : NodeQueue) (x j : ℕ)
    → lookup x q.submitted ≡ none
    → lookup j q.submitted ≡ (if x == j then none else lookup j q.submitted)
missing q x j n = elim (Bool-cases (x == j)) [
  | inr differs ↦ rw differs refl
  | inl now ↦ rw now (sym (ap (λ z. lookup z q.submitted) (ground (arith, now))) ∙ n)
]

pub unwaited :
    (b : BufferQueue) (i x k j : ℕ)
    → waiting b i x ≡ none
    → waiting b k j ≡ (if (i == k) && (x == j) then none else waiting b k j)
unwaited b i x k j n = elim (Bool-cases ((i == k) && (x == j))) [
  | inr differs ↦ rw differs refl
  | inl now ↦
      let e : i ≡ k = ground (arith, now) in
      let f : x ≡ j = ground (arith, now) in
      rw now (sym (ap (waiting b k) f) ∙ sym (ap (λ z. waiting b z x) e) ∙ n)
]
