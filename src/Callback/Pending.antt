-- ===== src/Callback/Pending.antt =====
-- The bits of `set_bits` as the settings that wait for an answer.
use auto_fastlio.Prelude.{
  ℕ, ◌+◌, ◌-◌, ◌≡◌, refl, Bool, true, false, not, if◌then◌else◌, ◌==◌, ◌||◌, ◌&&◌, ==_iff, bit_and,
  bit_or, arith,
}
use auto_fastlio.Comm.{u32}
use auto_fastlio.Callback.{Setting, pcl_data_type, pattern_mode, blind_spot, dual_emit, config_bit}

-- Which settings wait.
pub record Waiting : Type 0 where
  pub on_data_type : Bool
  pub on_pattern : Bool
  pub on_blind_spot : Bool
  pub on_dual_emit : Bool

abbrev bit_of : Bool → ℕ → ℕ
bit_of b n = if b then n else 0

abbrev pub bits_of : Waiting → ℕ
bits_of w =
    bit_of w.on_data_type 1
    + bit_of w.on_pattern 2
    + bit_of w.on_blind_spot 4
    + bit_of w.on_dual_emit 8

abbrev pub mark : Setting → Bool → Waiting → Waiting
mark pcl_data_type b w = record w { on_data_type = b }
mark pattern_mode b w = record w { on_pattern = b }
mark blind_spot b w = record w { on_blind_spot = b }
mark dual_emit b w = record w { on_dual_emit = b }

abbrev pub nothing_waits : Waiting → Bool
nothing_waits w = not (w.on_data_type || w.on_pattern || w.on_blind_spot || w.on_dual_emit)

-- A test of a Boolean that both pass.
abbrev both : (Bool → Bool) → Bool
both f = f true && f false

both_lem : (f : Bool → Bool) → both f ≡ true → (b : Bool) → f b ≡ true
both_lem f h true = ground (arith, h)
both_lem f h false = ground (arith, h)

-- A test that all values of `Waiting` pass.
abbrev all_pass : (Waiting → Bool) → Bool
all_pass f = both (λ a. both (λ b. both (λ c.
    both
      (λ d. f (record { on_data_type = a; on_pattern = b; on_blind_spot = c; on_dual_emit = d })))))

all_pass_lem : (f : Waiting → Bool) → all_pass f ≡ true → (w : Waiting) → f w ≡ true
all_pass_lem f h w =
    let at = λ (a b c d : Bool).
      f (record { on_data_type = a; on_pattern = b; on_blind_spot = c; on_dual_emit = d }) in
    both_lem (λ d. at w.on_data_type w.on_pattern w.on_blind_spot d)
      (both_lem (λ c. both (λ d. at w.on_data_type w.on_pattern c d))
        (both_lem (λ b. both (λ c. both (λ d. at w.on_data_type b c d)))
          (both_lem (λ a. both (λ b. both (λ c. both (λ d. at a b c d)))) h w.on_data_type)
          w.on_pattern)
        w.on_blind_spot)
      w.on_dual_emit

-- Two numbers that are equal for all values of `Waiting`.
same_number : (f g : Waiting → ℕ) → all_pass (λ w. f w == g w) ≡ true → (w : Waiting) → f w ≡ g w
same_number f g h w = (==_iff (f w) (g w)).0 (all_pass_lem (λ v. f v == g v) h w)

-- `set_bits |= …` makes a setting wait.
pub bits_of-marked :
    (s : Setting) (w : Waiting) → bit_or (bits_of w) (config_bit s) ≡ bits_of (mark s true w)
bits_of-marked pcl_data_type w =
    same_number (λ v. bit_or (bits_of v) 1) (λ v. bits_of (mark pcl_data_type true v)) refl w
bits_of-marked pattern_mode w =
    same_number (λ v. bit_or (bits_of v) 2) (λ v. bits_of (mark pattern_mode true v)) refl w
bits_of-marked blind_spot w =
    same_number (λ v. bit_or (bits_of v) 4) (λ v. bits_of (mark blind_spot true v)) refl w
bits_of-marked dual_emit w =
    same_number (λ v. bit_or (bits_of v) 8) (λ v. bits_of (mark dual_emit true v)) refl w

-- `set_bits &= ~…` ends the wait.
pub bits_of-unmarked :
    (s : Setting) (w : Waiting)
    → bit_and (bits_of w) (u32 - 1 - config_bit s) ≡ bits_of (mark s false w)
bits_of-unmarked pcl_data_type w =
    same_number (λ v. bit_and (bits_of v) (u32 - 1 - 1)) (λ v. bits_of (mark pcl_data_type false v))
      refl w
bits_of-unmarked pattern_mode w =
    same_number (λ v. bit_and (bits_of v) (u32 - 1 - 2)) (λ v. bits_of (mark pattern_mode false v))
      refl w
bits_of-unmarked blind_spot w =
    same_number (λ v. bit_and (bits_of v) (u32 - 1 - 4)) (λ v. bits_of (mark blind_spot false v))
      refl w
bits_of-unmarked dual_emit w =
    same_number (λ v. bit_and (bits_of v) (u32 - 1 - 8)) (λ v. bits_of (mark dual_emit false v))
      refl w

pub bits_of-zero : (w : Waiting) → (bits_of w == 0) ≡ nothing_waits w
bits_of-zero w = ground arith

pub nothing_waits-mark :
    (s : Setting) (w : Waiting) → nothing_waits w ≡ true → nothing_waits (mark s false w) ≡ true
nothing_waits-mark pcl_data_type w h = ground (arith, h)
nothing_waits-mark pattern_mode w h = ground (arith, h)
nothing_waits-mark blind_spot w h = ground (arith, h)
nothing_waits-mark dual_emit w h = ground (arith, h)
