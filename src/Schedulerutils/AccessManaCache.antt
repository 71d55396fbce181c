-- ===== src/Schedulerutils/AccessManaCache.antt =====
-- packages/core/mesh_old/schedulerutils/accessmanacache.go: AccessManaCache. The two retrievers and
-- the clock are arguments; times are nanoseconds since Go's zero time, and mana is a float64.
use zipp.Base.{
  ℕ, ◌+◌, ◌*◌, ◌≡◌, List, [], none, some, true, ltb, if◌then◌else◌, Option-cases, Bool-cases, inl,
  inr,
}
use zipp.Base.Assoc.{lookup}
use zipp.Base.Floats.{Float64, max_float}

-- manaCacheLifeTime
abbrev pub mana_cache_life_time : ℕ
mana_cache_life_time = 5 * 1_000_000_000

module _ (fl : Float64) where
  open fl use {F, lt, le, of_int}

  pub record AccessManaCache : Type 0 where
    pub raw_access_mana_vector : List (ℕ × F)
    pub cache_refresh_time : ℕ
    pub min_mana : F
    pub total_mana : F

  -- NewAccessManaCache
  unfoldable pub create : F → AccessManaCache
  create min_mana = record {
    raw_access_mana_vector = [];
    cache_refresh_time = 0;
    min_mana = min_mana;
    total_mana = of_int 0;
  }

  unfoldable pub get_cached_mana : AccessManaCache → ℕ → F
  get_cached_mana a id = elim (lookup id a.raw_access_mana_vector) [
    | none ↦ a.min_mana
    | some mana ↦ if le a.min_mana mana then mana else a.min_mana
  ]

  unfoldable pub get_cached_total_mana : AccessManaCache → F
  unfolding max_float
  get_cached_total_mana a = max_float fl (of_int 1) a.total_mana

  -- RefreshCacheIfNecessary at the time `now`, with what the retrievers return.
  unfoldable pub refresh_cache_if_necessary :
      AccessManaCache → ℕ → List (ℕ × F) → F → AccessManaCache
  refresh_cache_if_necessary a now vector total =
      if ltb (a.cache_refresh_time + mana_cache_life_time) now
      then record a {
        raw_access_mana_vector = vector;
        total_mana = total;
        cache_refresh_time = now;
      }
      else a

  -- GetCachedMana never returns less than the minimum mana, if the minimum is not a NaN,
  -- whatever the cached vector holds.
  pub get_cached_mana-bounds :
      (a : AccessManaCache) (id : ℕ)
      → le a.min_mana a.min_mana ≡ true
      → le a.min_mana (get_cached_mana a id) ≡ true
  unfolding get_cached_mana
  get_cached_mana-bounds a id h = elim (Option-cases (lookup id a.raw_access_mana_vector)) [
    | inl n ↦ rw (n, get_cached_mana) h
    | inr (mana, e) ↦ elim (Bool-cases (le a.min_mana mana)) [
      | inl enough ↦ rw (e, get_cached_mana, enough) enough
      | inr less ↦ rw (e, get_cached_mana, less) h
    ]
  ]
