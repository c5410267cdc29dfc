-- ===== src/Ldq/Window.antt =====
-- Index arithmetic of the ring: free-running 32-bit indices, masked to a block of 2^k slots.
use Prim.Native.Nat.{◌∣◌}
use native.Mathlib.Nat.{
  pow-suc, mod-mod_of_dvd, mod-add-mod, mod-eq_of_lt, mod-eq-sub-mod, mod-lt, dvd_refl,
  dvd-mul_right_of_dvd,
}
use native.Mathlib.Decide.{dec_lt}
use auto_fastlio.Prelude.{
  ℕ, zero, suc, ◌+◌, ◌-◌, ◌%◌, ◌^◌, ◌≤◌, ◌<◌, ◌≡◌, refl, ◌≢◌, sym, subst, ap, ap₂, ◌∙◌, List, [],
  ◌∷◌, ◌++◌, Option, some, length, get_elem?, set, get_elem?-set_self, get_elem?-set_ne, arith,
}

pow_dvd : (k d : ℕ) → 2 ^ k ∣ 2 ^ (k + d)
pow_dvd k zero = subst (λ t. 2 ^ k ∣ 2 ^ t) (omega arith) (dvd_refl (2 ^ k))
pow_dvd k (suc d) =
    subst (λ t. 2 ^ k ∣ t) (sym (ap (λ t. 2 ^ t) (omega arith) ∙ pow-suc 2 (k + d)))
      (dvd-mul_right_of_dvd (2 ^ k) (pow_dvd k d) 2)

-- A wrap at 2^32 does not move the slot.
pub slot_wrap : (k a : ℕ) → k ≤ 32 → a % 2 ^ 32 % 2 ^ k ≡ a % 2 ^ k
slot_wrap k a h =
    let whole : k + (32 - k) ≡ 32 = omega arith in
    mod-mod_of_dvd (2 ^ k) a (subst (λ t. 2 ^ k ∣ 2 ^ t) whole (pow_dvd k (32 - k)))

near_ne : (m h n : ℕ) → h < m → suc n < m → (h + suc n) % m ≢ h
near_ne m h n hh hn = elim (dec_lt (h + suc n) m) [
  | yes p ↦ omega (arith, mod-eq_of_lt p)
  | no p ↦ omega (
    arith,
    mod-eq-sub-mod {n = h + suc n} {m = m} (omega arith),
    mod-eq_of_lt {n = h + suc n - m} {m = m} (omega arith),
  )
]

-- Fewer than 2^k steps on, the slot is another one.
pub slot_ne : (k a n : ℕ) → k ≤ 32 → suc n < 2 ^ k → (a + suc n) % 2 ^ 32 % 2 ^ k ≢ a % 2 ^ k
slot_ne k a n h hn e =
    near_ne (2 ^ k) (a % 2 ^ k) n (mod-lt a (omega arith)) hn
      (mod-add-mod a (2 ^ k) (suc n) ∙ sym (slot_wrap k (a + suc n) h) ∙ e)

module _ {A : Type 0} where
  -- The `n` elements from the free-running index `a` on.
  abbrev pub window : List A → ℕ → ℕ → ℕ → List (Option A)
  window buf k a zero = []
  window buf k a (suc n) = get_elem? buf (a % 2 ^ k) ∷ window buf k ((a + 1) % 2 ^ 32) n

  pub length-window : (buf : List A) (k a n : ℕ) → length (window buf k a n) ≡ n
  length-window buf k a zero = refl
  length-window buf k a (suc n) = ap suc (length-window buf k ((a + 1) % 2 ^ 32) n)

  -- A write just past a window extends it by what was written.
  pub window-set :
      (buf : List A) (k a n i : ℕ) (v : A)
      → k ≤ 31
      → length buf ≡ 2 ^ k
      → n < 2 ^ k
      → a < 2 ^ 32
      → i ≡ (a + n) % 2 ^ 32 % 2 ^ k
      → window (set buf i v) k a (suc n) ≡ window buf k a n ++ some v ∷ []
  window-set buf k a zero i v hk hl hn ha e =
      ap (λ o. o ∷ []) (ap (get_elem? (set buf i v)) (sym here) ∙ get_elem?-set_self buf i v inside)
    where
      here : i ≡ a % 2 ^ k
      here = e ∙ ap (λ t. t % 2 ^ k) (omega arith)

      inside : i < length buf
      inside = omega (arith, here, mod-lt a {m = 2 ^ k} (omega arith))
  window-set buf k a (suc n) i v hk hl hn ha e =
      ap₂ ◌∷◌
        (get_elem?-set_ne buf i (a % 2 ^ k) v (λ q. slot_ne k a n (omega arith) hn (sym e ∙ q)))
        (window-set buf k ((a + 1) % 2 ^ 32) n i v hk hl (omega arith) (omega arith)
          (e ∙ ap (λ t. t % 2 ^ k) (omega arith)))
