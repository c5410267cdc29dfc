-- ===== src/CacheIndex/Table.antt =====
-- Laws of the parts of the device index: the map, the slots and the keys.
use auto_fastlio.Prelude.{
  ℕ, zero, suc, ◌+◌, ◌<◌, ◌≡◌, refl, Bool, true, false, none, some, List, [], ◌∷◌, ◌++◌,
  if◌then◌else◌, get_elem?, length, arith,
}
use auto_fastlio.Prelude.Decimal.{to_string, text_eq, text_eq_iff, to_string_inj}
use auto_fastlio.Comm.{livox_lidar_type}
use auto_fastlio.Comm.Text.{codes}
use auto_fastlio.CacheIndex.{Key, find, assign, erase, first_free, generate_index_key}

pub text_eq_refl : (s : Key) → text_eq s s ≡ true
text_eq_refl s = (text_eq_iff s s).1 refl

pub find-assign :
    (k j : Key) (v : ℕ) (m : List (Key × ℕ))
    → find j (assign k v m) ≡ (if text_eq k j then some v else find j m)
unfolding find assign
find-assign k j v [] = refl
find-assign k j v ((i, w) ∷ m) =
    ground (arith, text_eq_iff k j, text_eq_iff i k, text_eq_iff i j, find-assign k j v m)

pub find-erase :
    (k j : Key) (m : List (Key × ℕ)) → find j (erase k m) ≡ (if text_eq k j then none else find j m)
unfolding find erase
find-erase k j [] = ground arith
find-erase k j ((i, w) ∷ m) =
    ground (arith, text_eq_iff k j, text_eq_iff i k, text_eq_iff i j, find-erase k j m)

-- The slot that the loop finds is the first free one, and it finds none only if all are taken.
pub first_free-some :
    (slots : List Bool) (i j : ℕ)
    → first_free slots i ≡ some j
    → (n : ℕ) × (j ≡ i + n) × (get_elem? slots n ≡ some false)
unfolding first_free
first_free-some [] i j e = ground arith
first_free-some (true ∷ slots) i j e =
    let (n, p, q) = first_free-some slots (i + 1) j e in (suc n, omega arith, q)
first_free-some (false ∷ slots) i j e = (0, ground arith, refl)

pub first_free-none :
    (slots : List Bool) (i n : ℕ)
    → first_free slots i ≡ none
    → n < length slots
    → get_elem? slots n ≡ some true
unfolding first_free
first_free-none [] i n e h = absurd (omega arith)
first_free-none (true ∷ slots) i zero e h = refl
first_free-none (true ∷ slots) i (suc n) e h = first_free-none slots (i + 1) n e (omega arith)
first_free-none (false ∷ slots) i n e h = ground arith

pub first_free-taken :
    (slots : List Bool) (i : ℕ)
    → ((n : ℕ) → n < length slots → get_elem? slots n ≡ some true)
    → first_free slots i ≡ none
unfolding first_free
first_free-taken [] i all = refl
first_free-taken (true ∷ slots) i all =
    first_free-taken slots (i + 1) (λ n h. all (suc n) (omega arith))
first_free-taken (false ∷ slots) i all = ground (arith, all 0 (omega arith))

append_cancel : (s t u : Key) → s ++ t ≡ s ++ u → t ≡ u
append_cancel [] t u e = e
append_cancel (x ∷ s) t u e = append_cancel s t u (cc)

-- Two handles of Livox lidars have the same key only if they are the same.
pub generate_index_key_inj :
    (a b : ℕ) {k : Key}
    → generate_index_key livox_lidar_type a ≡ some k
    → generate_index_key livox_lidar_type b ≡ some k
    → a ≡ b
unfolding generate_index_key
generate_index_key_inj a b p q =
    to_string_inj a b (append_cancel (codes "livox_lidar_") (to_string a) (to_string b) (cc))
