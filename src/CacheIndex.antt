-- ===== src/CacheIndex.antt =====
-- The device index: src/livox_ros_driver2/src/comm/cache_index.h and cache_index.cpp.
-- A key is the bytes of the std::string; `std::map` is an association list; the int8_t result and
-- the reference `index` are one option, with `none` for -1.
pub mod Table
pub mod Invariant
pub mod Answers
pub mod Race
use auto_fastlio.Prelude.{
  ℕ, zero, suc, ◌+◌, Bool, true, false, Option, none, some, List, [], ◌∷◌, ◌++◌, ◌==◌,
  if◌then◌else◌, set, replicate,
}
use auto_fastlio.Prelude.Decimal.{to_string, text_eq}
use auto_fastlio.Comm.Text.{codes}
use auto_fastlio.Comm.{max_source_lidar, livox_lidar_type}

abbrev pub Key : Type 0
Key = List ℕ

pub record CacheIndex : Type 0 where
  pub map_index : List (Key × ℕ)
  pub index_cache : List Bool

-- `std::map`: find, `map[key] = i` and erase.
unfoldable pub find : Key → List (Key × ℕ) → Option ℕ
find key [] = none
find key ((k, i) ∷ m) = if text_eq k key then some i else find key m

unfoldable pub assign : Key → ℕ → List (Key × ℕ) → List (Key × ℕ)
assign key v [] = (key, v) ∷ []
assign key v ((k, i) ∷ m) = if text_eq k key then (k, v) ∷ m else (k, i) ∷ assign key v m

unfoldable pub erase : Key → List (Key × ℕ) → List (Key × ℕ)
erase key [] = []
erase key ((k, i) ∷ m) = if text_eq k key then erase key m else (k, i) ∷ erase key m

-- The constructor.
unfoldable pub init : CacheIndex
init = record { map_index = []; index_cache = replicate max_source_lidar false }

unfoldable pub generate_index_key : ℕ → ℕ → Option Key
generate_index_key livox_lidar_type' handle =
    if livox_lidar_type' == livox_lidar_type
    then some (codes "livox_lidar_" ++ to_string handle)
    else none

-- The loop of GetFreeIndex from index i on: the first slot that is not taken.
unfoldable pub first_free : List Bool → ℕ → Option ℕ
first_free [] i = none
first_free (true ∷ slots) i = first_free slots (i + 1)
first_free (false ∷ slots) i = some i

-- The second locked section of GetFreeIndex.
unfoldable pub claim : CacheIndex → Key → Option ℕ × CacheIndex
unfolding first_free assign
claim c key = elim (first_free c.index_cache 0) [
  | none ↦ (none, c)
  | some i ↦ (
    some i,
    record { map_index = assign key i c.map_index; index_cache = set c.index_cache i true },
  )
]

-- Both locked sections, for a key.
unfoldable pub lookup_or_claim : CacheIndex → Key → Option ℕ × CacheIndex
unfolding find claim
lookup_or_claim c key = elim (find key c.map_index) [ some i ↦ (some i, c) | none ↦ claim c key ]

unfoldable pub get_free_index : CacheIndex → ℕ → ℕ → Option ℕ × CacheIndex
unfolding generate_index_key lookup_or_claim
get_free_index c lidar_type handle = elim (generate_index_key lidar_type handle) [
  | none ↦ (none, c)
  | some key ↦ lookup_or_claim c key
]

unfoldable pub get_index : CacheIndex → ℕ → ℕ → Option ℕ
unfolding generate_index_key find
get_index c lidar_type handle = elim (generate_index_key lidar_type handle) [
  | none ↦ none
  | some key ↦ find key c.map_index
]

unfoldable pub lvx_get_index : CacheIndex → ℕ → ℕ → Option ℕ × CacheIndex
unfolding generate_index_key find get_free_index
lvx_get_index c lidar_type handle = elim (generate_index_key lidar_type handle) [
  | none ↦ (none, c)
  | some key ↦ elim (find key c.map_index) [
    | some i ↦ (some i, c)
    | none ↦ get_free_index c lidar_type handle
  ]
]

-- `ResetIndex`, on a key.
unfoldable pub release : CacheIndex → Key → CacheIndex
unfolding find erase
release c key = elim (find key c.map_index) [
  | none ↦ c
  | some i ↦ record { map_index = erase key c.map_index; index_cache = set c.index_cache i false }
]

unfoldable pub reset_index : CacheIndex → ℕ → ℕ → CacheIndex
unfolding generate_index_key release
reset_index c lidar_type handle = elim (generate_index_key lidar_type handle) [
  | none ↦ c
  | some key ↦ release c key
]
