-- ===== src/Scheduler/Safety.antt =====
-- What submit and updateDeficit of the scheduler guarantee.
use zipp.Base.{
  ℕ, ◌≡◌, refl, ◌⊎◌, inl, inr, List, ◌++◌, map, some, true, false, ◌==◌, arith, panic, Returns,
  Bool-cases, ==_refl,
}
use zipp.Base.Assoc.{lookup, insert, lookup-insert}
use zipp.Base.Floats.{Float64}
use zipp.Schedulerutils.ElementHeap.{Element}
use zipp.Schedulerutils.NodeQueue.{NodeQueue}
use zipp.Schedulerutils.BufferQueue as Buffer
use zipp.Schedulerutils.BufferQueue.Submit.{Accepts}
use zipp.Schedulerutils.AccessManaCache as Cache
use zipp.Scheduler.{
  Scheduler, World, discarded, Reply, done, update_deficit, deficit_of, min_rat, max_deficit,
}
use zipp.Scheduler.Rat

-- What updateDeficit leaves: the node's deficit is within 0 and MaxDeficit, and those of the other
-- nodes are as they were.
pub record Updates (deficits : List (ℕ × Rat.Rat)) (id : ℕ) (deficits' : List (ℕ × Rat.Rat))
    : Type 0 where
  pub deficit : Rat.Rat
  pub at : lookup id deficits' ≡ some deficit
  pub lower : Rat.is_negative deficit ≡ false
  pub upper : Rat.lt max_deficit deficit ≡ false
  pub others : (k : ℕ) → (id == k) ≡ false → lookup k deficits' ≡ lookup k deficits

max-not_negative : Rat.is_negative max_deficit ≡ false
unfolding Rat.is_negative max_deficit
max-not_negative = refl

min_rat-upper : (x y : Rat.Rat) → Rat.lt y (min_rat x y) ≡ false
unfolding min_rat Rat.lt
min_rat-upper x y = ground arith

min_rat-lower :
    (x : Rat.Rat) → Rat.is_negative x ≡ false → Rat.is_negative (min_rat x max_deficit) ≡ false
unfolding min_rat
min_rat-lower x h = elim (Bool-cases (Rat.lt x max_deficit)) [
  | inl s ↦ rw s h
  | inr l ↦ rw l max-not_negative
]

-- updateDeficit panics if the sum of the deficit and the change is below 0. Otherwise it sets
-- the node's deficit to one between 0 and MaxDeficit, and leaves the deficits of the other
-- nodes.
pub update_deficit_lem :
    (deficits : List (ℕ × Rat.Rat)) (id : ℕ) (d : Rat.Rat)
    → ((Rat.is_negative (Rat.add (deficit_of deficits id) d) ≡ true)
        × (update_deficit deficits id d ≡ panic))
      ⊎ ((Rat.is_negative (Rat.add (deficit_of deficits id) d) ≡ false)
          × Returns (Updates deficits id) (update_deficit deficits id d))
unfolding update_deficit
update_deficit_lem deficits id d =
    let x = Rat.add (deficit_of deficits id) d in
    elim (Bool-cases (Rat.is_negative x)) [
      | inl below ↦ inl (below, rw (update_deficit, below) refl)
      | inr within ↦ inr (
        within,
        (
          insert id (min_rat x max_deficit) deficits,
          rw (update_deficit, within) refl,
          record {
            deficit = min_rat x max_deficit;
            at = ground (arith, lookup-insert id id (min_rat x max_deficit) deficits, ==_refl id);
            lower = min_rat-lower x within;
            upper = min_rat-upper x max_deficit;
            others = λ k h. ground (arith, lookup-insert id k (min_rat x max_deficit) deficits);
          },
        ),
      )
    ]

module _ (fl : Float64) (w : World fl) where
  -- What an accepted submit leaves: the buffer took the block, and each block that it dropped for
  -- it was reported, in order.
  pub record Takes (s : Scheduler fl) (blk : Element) (r : Reply × Scheduler fl) : Type 0 where
    pub reply : r.0 ≡ done
    pub dropped : List ℕ
    pub buffer : Accepts s.buffer blk dropped r.1.buffer
    pub events : r.1.events ≡ s.events ++ map discarded dropped
