-- ===== src/Prelude/Decimal.antt =====
-- `std::to_string` of an unsigned integer: its decimal digits, as bytes.
use Prim.Native.Nat.{ℕ, zero, suc, ◌+◌, ◌-◌, ◌*◌, ◌/◌, ◌%◌, ◌<◌}
use mathlib.Core.Path.{◌≡◌, refl, sym, ap, ◌∙◌}
use mathlib.Core.Bool.{Bool, true, false, ◌&&◌}
use mathlib.Core.Logic.{◌↔◌}
use mathlib.Core.List.{List, [], ◌∷◌}
use native.Mathlib.Omega.{arith}
use auto_fastlio.Prelude.Tests.{ltb, ◌==◌, if◌then◌else◌}

-- Last digit first; the fuel bounds the number of digits.
unfoldable pub digits_from : ℕ → ℕ → List ℕ
digits_from zero n = []
digits_from (suc fuel) n =
    let more = digits_from fuel (n / 10) in (b'0' + n % 10) ∷ (if ltb n 10 then [] else more)

unfoldable pub snoc_all : List ℕ → List ℕ → List ℕ
snoc_all [] out = out
snoc_all (d ∷ ds) out = snoc_all ds (d ∷ out)

-- A number below 10 ^ 20 (every uint64_t) has at most 20 digits.
unfoldable pub to_string : ℕ → List ℕ
unfolding digits_from snoc_all
to_string n = snoc_all (digits_from (suc n) n) []

-- The number that digits, last first, stand for.
value_rev : List ℕ → ℕ
value_rev [] = 0
value_rev (d ∷ ds) = (d - b'0') + 10 * value_rev ds

value_rev-digits_from : (fuel n : ℕ) → n < fuel → value_rev (digits_from fuel n) ≡ n
unfolding digits_from value_rev
value_rev-digits_from zero n h = absurd (omega arith)
value_rev-digits_from (suc fuel) n h = ground (arith, value_rev-digits_from fuel (n / 10))

-- Undoing the reversal.
snoc_all_back : (ds out : List ℕ) → snoc_all (snoc_all ds out) [] ≡ snoc_all out ds
unfolding snoc_all
snoc_all_back [] out = refl
snoc_all_back (d ∷ ds) out = snoc_all_back ds (d ∷ out)

value : List ℕ → ℕ
value s = value_rev (snoc_all s [])

value-to_string : (n : ℕ) → value (to_string n) ≡ n
unfolding value to_string
value-to_string n =
    ap value_rev (snoc_all_back (digits_from (suc n) n) [])
    ∙ unfold snoc_all in value_rev-digits_from (suc n) n (omega arith)

-- No two numbers print alike.
pub to_string_inj : (a b : ℕ) → to_string a ≡ to_string b → a ≡ b
to_string_inj a b e = sym (value-to_string a) ∙ ap value e ∙ value-to_string b

-- `==` of byte strings.
unfoldable pub text_eq : List ℕ → List ℕ → Bool
text_eq [] [] = true
text_eq (a ∷ s) (b ∷ t) = a == b && text_eq s t
text_eq _ _ = false

pub text_eq_iff : (s t : List ℕ) → (text_eq s t ≡ true) ↔ (s ≡ t)
unfolding text_eq
text_eq_iff [] [] = ground arith
text_eq_iff [] (b ∷ t) = ground arith
text_eq_iff (a ∷ s) [] = ground arith
text_eq_iff (a ∷ s) (b ∷ t) = ground (arith, text_eq_iff s t)
