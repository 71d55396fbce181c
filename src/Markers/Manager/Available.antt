-- ===== src/Markers/Manager/Available.antt =====
-- extendHighestAvailableSequence and createSequenceIfNecessary: the marker that they assign.
use zipp.Base.{ℕ, ◌<◌, ◌≡◌, ◌⊎◌, List, Option, none, some, Bool, true, false, ◌==◌, ◌&&◌, elem}
use zipp.Base.Assoc.{lookup, insert}
use zipp.Markers.Collection.{Marker, Markers, get}
use zipp.Markers.Sequence.{ThresholdMaps, Sequence}
use zipp.Markers.Manager.{Manager, register_referencing_marker}
use zipp.Markers.Manager.Register.{highest_of, IsConsistent}

module _ (lower upper : ThresholdMaps) where
  abbrev M : Type 0
  M = Manager lower upper

  abbrev S : Type 0
  S = Sequence lower.ThresholdMap upper.ThresholdMap

  abbrev extendable_at : Option S → Option ℕ → ℕ → (ℕ → ℕ → Bool) → Bool
  extendable_at (some s) (some i) k increase_index = (i == s.highest_index) && increase_index k i
  extendable_at (some s) none k increase_index = false
  extendable_at none past k increase_index = false

  -- The sequence is stored, the past markers end at its highest index, and the callback agrees.
  abbrev pub is_extendable : M → Markers → (ℕ → ℕ → Bool) → ℕ → Bool
  is_extendable m past increase_index k =
      extendable_at (lookup k m.sequences) (get past k) k increase_index

  -- The marker is a new one for the highest of the sequences that can be extended.
  pub record Assigned (m : M) (past : Markers) (increase_index : ℕ → ℕ → Bool) (ids : List ℕ)
      (marker : Marker) (m' : M) : Type 0 where
    pub listed : elem marker.sequence_id ids ≡ true
    pub extendable : is_extendable m past increase_index marker.sequence_id ≡ true
    pub above : (k i : ℕ) → get past k ≡ some i → i < marker.index
    pub stored : highest_of lower upper m' marker.sequence_id ≡ some marker.index
    pub first :
        (k : ℕ)
        → elem k ids ≡ true
        → marker.sequence_id < k
        → is_extendable m past increase_index k ≡ false
    pub others :
        (k : ℕ)
        → (marker.sequence_id == k) ≡ false
        → highest_of lower upper m' k ≡ highest_of lower upper m k
    pub consistent : IsConsistent lower upper m'

  abbrev pub ExtendsFirst : M → Markers → (ℕ → ℕ → Bool) → List ℕ → Option Marker × M → Type 0
  ExtendsFirst m past increase_index ids r =
      ((r.0 ≡ none)
        × (r.1 ≡ m)
        × ((k : ℕ) → elem k ids ≡ true → is_extendable m past increase_index k ≡ false))
      ⊎ ((marker : Marker) × (r.0 ≡ some marker) × Assigned m past increase_index ids marker r.1)

  assigned : M → ℕ → (ℕ × Option Markers × Bool) × S → Marker × M
  assigned m j q =
      let marker : Marker = record { sequence_id = j; index = q.0.0 } in
      (
        marker,
        register_referencing_marker lower upper (record m { sequences = insert j q.1 m.sequences })
            q.0.1 marker,
      )
