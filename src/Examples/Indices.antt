-- ===== src/Examples/Indices.antt =====
-- The device index.
use auto_fastlio.Prelude.{
  ℕ, ◌≡◌, ◌≢◌, ◌↔◌, refl, ◌<◌, none, some, [], ◌∷◌, true, false, get_elem?, arith,
}
use auto_fastlio.Prelude.Decimal.{text_eq, to_string}
use auto_fastlio.Comm.{max_source_lidar, livox_lidar_type}
use auto_fastlio.CacheIndex.{
  Key, CacheIndex, find, claim, init, get_free_index, get_index, reset_index,
}
use auto_fastlio.CacheIndex.Invariant.{IsConsistent, init-IsConsistent}
use auto_fastlio.CacheIndex.Answers.{
  get_free_index-found, get_free_index-none_iff, reset_index-frees,
}
use auto_fastlio.CacheIndex.Race.{claim_twice}

-- An index with one device, whose handle is 5.
abbrev pub one_device : CacheIndex
one_device = (get_free_index init livox_lidar_type 5).1

pub first_answer : (get_free_index init livox_lidar_type 5).0 ≡ some 0
unfolding get_free_index init
first_answer = refl

pub none_known : get_index init livox_lidar_type 5 ≡ none
unfolding get_index init
none_known = refl

get_free_index-found_example :
    IsConsistent one_device
    × (0 < max_source_lidar)
    × (get_index one_device livox_lidar_type 5 ≡ some 0)
    × (get_index one_device livox_lidar_type 6 ≡ get_index init livox_lidar_type 6)
    × (get_index one_device livox_lidar_type 6 ≢ some 0)
get_free_index-found_example =
    get_free_index-found init-IsConsistent 5 6 0 (λ e. omega (arith, e)) first_answer

pub one_device-IsConsistent : IsConsistent one_device
one_device-IsConsistent =
    (get_free_index-found init-IsConsistent 5 6 0 (λ e. omega (arith, e)) first_answer).0

pub one_device_known : get_index one_device livox_lidar_type 5 ≡ some 0
unfolding get_free_index init get_index text_eq to_string
one_device_known = refl

get_free_index-none_iff_example : ((get_free_index one_device livox_lidar_type 6).0 ≡ none) ↔ (
    (get_index one_device livox_lidar_type 6 ≡ none)
    × ((n : ℕ) → n < max_source_lidar → get_elem? one_device.index_cache n ≡ some true))
get_free_index-none_iff_example = get_free_index-none_iff one_device-IsConsistent 6

reset_index-frees_example :
    IsConsistent (reset_index one_device livox_lidar_type 5)
    × (get_index (reset_index one_device livox_lidar_type 5) livox_lidar_type 5 ≡ none)
    × (get_elem? (reset_index one_device livox_lidar_type 5).index_cache 0 ≡ some false)
    × (get_index (reset_index one_device livox_lidar_type 5) livox_lidar_type 6
        ≡ get_index one_device livox_lidar_type 6)
reset_index-frees_example =
    reset_index-frees one_device-IsConsistent 5 6 0 (λ e. omega (arith, e)) one_device_known

abbrev key : Key
key = b'a' ∷ []

claimed_once : (claim init key).0 ≡ some 0
unfolding claim init
claimed_once = refl

claimed_again : (claim (claim init key).1 key).0 ≡ some 1
unfolding claim init
claimed_again = refl

not_there : find key init.map_index ≡ none
unfolding find init
not_there = refl

claim_twice_example :
    (◌≢◌ {A = ℕ} 0 1)
    × (find key (claim (claim init key).1 key).1.map_index ≡ some 1)
    × (get_elem? (claim (claim init key).1 key).1.index_cache 0 ≡ some true)
    × (find key (claim (claim init key).1 key).1.map_index ≢ some 0)
claim_twice_example = claim_twice key key 0 1 init-IsConsistent not_there claimed_once claimed_again
