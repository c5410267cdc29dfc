-- ===== src/Callback/Sampling.antt =====
-- When a device is sampled: after the callbacks of livox_lidar_callback.cpp, in whatever order the
-- answers come.
use auto_fastlio.Prelude.{
  ℕ, ◌-◌, ◌≡◌, refl, ◌∙◌, ap, Bool, true, false, List, [], ◌∷◌, if◌then◌else◌, bit_and, Bool-cases,
  inl, inr,
}
use auto_fastlio.Prelude.Int.{is_minus_one}
use auto_fastlio.Comm.{u32, UserLivoxLidarConfig, LidarConnectState, sampling}
use auto_fastlio.Lds.{LidarDevice}
use auto_fastlio.Callback.{
  Setting, pcl_data_type, pattern_mode, blind_spot, dual_emit, config_bit, Status, success, timeout,
  failure, value_of, request_setting, with_bits, configure, acknowledge,
}
use auto_fastlio.Callback.Pending.{
  Waiting, bits_of, mark, nothing_waits, bits_of-marked, bits_of-unmarked, bits_of-zero,
  nothing_waits-mark,
}

-- Whether a device waits, and its state: sampling as soon as nothing waits, else what it was.
pub record Stands {F : Type 0} (w : Waiting) (before : LidarConnectState) (lidar : LidarDevice F)
    : Type 0 where
  pub bits : lidar.livox_config.set_bits ≡ bits_of w
  pub state : lidar.connect_state ≡ (if nothing_waits w then sampling else before)

-- An answer of the SDK about a setting, and whether it comes with a response.
abbrev pub Answer : Type 0
Answer = Setting × Status × Bool

-- The answers of the SDK about one setting, and who waits after them.
abbrev pub after_answer : Waiting → Answer → Waiting
after_answer w (s, success, r) = mark s false w
after_answer w (s, timeout, r) = w
after_answer w (s, failure, r) = w

abbrev pub after_answers : Waiting → List Answer → Waiting
after_answers w [] = w
after_answers w (a ∷ answers) = after_answers (after_answer w a) answers

-- A setting that the configuration holds waits for its answer.
abbrev pub asked_for : {F : Type 0} → Setting → UserLivoxLidarConfig F → Waiting → Waiting
asked_for s config w = if is_minus_one (value_of s config) then w else mark s true w

abbrev pub configured : {F : Type 0} → UserLivoxLidarConfig F → Waiting → Waiting
configured config w =
    asked_for dual_emit config (
      asked_for blind_spot config
        (asked_for pattern_mode config (asked_for pcl_data_type config w)))

module _ {F : Type 0} where
  request_setting-bits :
      (s : Setting) (handle : ℕ) (config : UserLivoxLidarConfig F) (bits : ℕ) (w : Waiting)
      → bits ≡ bits_of w
      → (request_setting s handle config bits).0 ≡ bits_of (asked_for s config w)
  unfolding request_setting
  request_setting-bits s handle config bits w e =
      elim (Bool-cases (is_minus_one (value_of s config))) [
        | inl absent ↦ rw absent e
        | inr given ↦ rw (given, e) (bits_of-marked s w)
      ]

  with_bits-Stands :
      (lidar : LidarDevice F) (bits : ℕ) (w : Waiting)
      → bits ≡ bits_of w
      → Stands w lidar.connect_state (with_bits lidar bits)
  unfolding with_bits
  with_bits-Stands lidar bits w e = record { bits = e; state = rw (e, bits_of-zero w) refl }

  pub configure-Stands :
      (handle : ℕ) (lidar : LidarDevice F) (w : Waiting)
      → lidar.livox_config.set_bits ≡ bits_of w
      → Stands (configured lidar.livox_config w) lidar.connect_state (configure handle lidar).0
  unfolding configure
  configure-Stands handle lidar w e =
      let config = lidar.livox_config in
      let e₁ = request_setting-bits pcl_data_type handle config config.set_bits w e in
      let e₂ = request_setting-bits pattern_mode handle config _ _ e₁ in
      let e₃ = request_setting-bits blind_spot handle config _ _ e₂ in
      with_bits-Stands lidar _ (configured config w)
        (request_setting-bits dual_emit handle config _ _ e₃)

  -- An answer that ends the last wait starts the sampling; no answer stops it.
  pub acknowledge-Stands :
      (s : Setting) (before : LidarConnectState) (lidar : LidarDevice F) (w : Waiting)
      → Stands w before lidar
      → Stands (mark s false w) before (acknowledge s lidar)
  unfolding acknowledge with_bits
  acknowledge-Stands s before lidar w h =
      let e = ap (λ b. bit_and b (u32 - 1 - config_bit s)) h.bits ∙ bits_of-unmarked s w in
      record { bits = e; state = rw (e, bits_of-zero (mark s false w)) still }
    where
      still :
          (if nothing_waits (mark s false w) then sampling else lidar.connect_state)
          ≡ (if nothing_waits (mark s false w) then sampling else before)
      still = elim (Bool-cases (nothing_waits w)) [
        | inl idle ↦ rw (nothing_waits-mark s w idle) refl
        | inr busy ↦
            ap (λ c. if nothing_waits (mark s false w) then sampling else c)
              (h.state ∙ rw busy refl)
      ]
