-- ===== src/Markers/Collection/Equals.antt =====
-- Equals against the indexes of the sequences.
use zipp.Base.{
  ℕ, suc, ◌≤◌, ◌≡◌, refl, sym, ◌∙◌, ◌↔◌, inl, inr, List, [], ◌∷◌, length, some, true, ◌==◌, arith,
  Bool-cases, Option-cases, ==_refl,
}
use zipp.Base.Assoc.{lookup, delete, IsMap, lookup-delete, delete-IsMap, delete_absent}
use zipp.Markers.Collection.{Markers, get, all_in, equals, merge}
use zipp.Markers.Collection.Merge.{merge_lem, merge-IsMap, later_comm}

abbrev Within : List (ℕ × ℕ) → List (ℕ × ℕ) → Type 0
Within l r = (k i : ℕ) → lookup k l ≡ some i → lookup k r ≡ some i

length-delete :
    (k i : ℕ) (l : List (ℕ × ℕ))
    → IsMap l
    → lookup k l ≡ some i
    → suc (length (delete k l)) ≡ length l
unfolding lookup delete
length-delete k i [] d h = ground arith
length-delete k i ((j, x) ∷ l) d h = ground (arith, length-delete k i l d.1, delete_absent k l)

tail-Within :
    (j x : ℕ) (l r : List (ℕ × ℕ))
    → IsMap ((j, x) ∷ l)
    → Within ((j, x) ∷ l) r
    → Within l (delete j r)
unfolding lookup
tail-Within j x l r d w k i h = ground (arith, lookup-delete j k r, w k i, d.0)

Within-length : (l r : List (ℕ × ℕ)) → IsMap l → IsMap r → Within l r → length l ≤ length r
unfolding lookup
Within-length [] r d e w = omega arith
Within-length ((j, x) ∷ l) r d e w =
    let here : lookup j r ≡ some x = w j x (ground (arith, ==_refl j)) in
    omega (
      arith,
      Within-length l (delete j r) d.1 (delete-IsMap j r e) (tail-Within j x l r d w),
      length-delete j x r e here,
    )

-- A map within another of the same length is all of it.
Within-sym :
    (l r : List (ℕ × ℕ)) → IsMap l → IsMap r → length l ≡ length r → Within l r → Within r l
unfolding lookup
Within-sym l r d e same w k i h = elim (Option-cases (lookup k l)) [
  | inr (x, f) ↦ ground (arith, w k x f)
  | inl n ↦ absurd (
      omega (
        arith,
        same,
        Within-length l (delete k r) d (delete-IsMap k r e)
            (λ j y g. ground (arith, lookup-delete k j r, w j y g)),
        length-delete k i r e h,
      ))
]

all_in_sound : (l : List (ℕ × ℕ)) (other : Markers) → all_in l other ≡ true → Within l other.markers
unfolding all_in lookup get
all_in_sound [] other h k i g = ground arith
all_in_sound ((j, x) ∷ l) other h k i g = elim (Option-cases (lookup j other.markers)) [
  | inl n ↦ absurd (ground arith)
  | inr (y, f) ↦ elim (Bool-cases (j == k)) [
    | inl same ↦ ground arith
    | inr differs ↦ all_in_sound l other (ground arith) k i (ground arith)
  ]
]

all_in_complete :
    (l : List (ℕ × ℕ)) (other : Markers) → IsMap l → Within l other.markers → all_in l other ≡ true
unfolding all_in lookup get
all_in_complete [] other d w = refl
all_in_complete ((j, x) ∷ l) other d w =
    ground (arith, all_in_complete l other d.1, w j x, ==_refl j, ==_refl x)

-- Equals returns true exactly if the two collections have the same index for every sequence, when
-- neither map has a key twice.
pub equals_iff :
    (m other : Markers)
    → IsMap m.markers
    → IsMap other.markers
    → (equals m other ≡ true) ↔ ((k : ℕ) → get m k ≡ get other k)
unfolding equals get
equals_iff m other d e = (sound, complete)
  where
    sound : equals m other ≡ true → (k : ℕ) → get m k ≡ get other k
    sound h k =
        let w : Within m.markers other.markers =
          all_in_sound m.markers other (unfold equals in ground arith) in
        let v : Within other.markers m.markers =
          Within-sym m.markers other.markers d e (unfold equals in ground arith) w in
        unfold get in
        elim (Option-cases (lookup k m.markers)) [
          | inr (x, f) ↦ ground (arith, w k x f)
          | inl n ↦ elim (Option-cases (lookup k other.markers)) [
            | inl o ↦ ground arith
            | inr (y, g) ↦ ground (arith, v k y g)
          ]
        ]

    complete : ((k : ℕ) → get m k ≡ get other k) → equals m other ≡ true
    complete same =
        let w : Within m.markers other.markers = λ k i h. unfold get in ground (arith, same k) in
        let v : Within other.markers m.markers = λ k i h. unfold get in ground (arith, same k) in
        let long = Within-length m.markers other.markers d e w in
        let short = Within-length other.markers m.markers e d v in
        unfold equals in ground (arith, all_in_complete m.markers other d w)

-- Merge in either order gives collections that Equals takes for equal, when neither map has a key
-- twice.
pub equals-merge :
    (m other : Markers)
    → IsMap m.markers
    → IsMap other.markers
    → equals (merge m other) (merge other m) ≡ true
equals-merge m other d e =
    (equals_iff (merge m other) (merge other m) (merge-IsMap m other d) (merge-IsMap other m e)).1
      (λ k.
        merge_lem m other k e ∙ later_comm (get m k) (get other k) ∙ sym (merge_lem other m k d))
