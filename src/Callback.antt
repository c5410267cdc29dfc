-- ===== src/Callback.antt =====
-- The answers of the SDK about devices: src/livox_ros_driver2/src/call_back/livox_lidar_callback.cpp,
-- and the frame callbacks of lidar_common_callback.cpp. The SDK is what receives the requests: they
-- are a log. A callback holds `config_mutex_` while it changes `set_bits`, so it is one step; its
-- client data is the data source. `none` is undefined behaviour.
pub mod Pending
pub mod Sampling
pub mod Answers
use auto_fastlio.Prelude.{
  ℕ, ◌-◌, Bool, true, false, not, Option, none, some, List, [], ◌∷◌, ◌++◌, ◌==◌, if◌then◌else◌,
  get_elem?, set, ◌>>=◌, bit_and, bit_or,
}
use auto_fastlio.Prelude.Int.{ℤ, is_minus_one, is_zero}
use auto_fastlio.Comm.{
  u32, ImuData, PointFrame, UserLivoxLidarConfig, ExtParameter, LidarConnectState, sampling,
  livox_lidar_type,
}
use auto_fastlio.Numerics.{Numerics}
use auto_fastlio.CacheIndex.{get_index, get_free_index}
use auto_fastlio.Lds.{LidarDevice, Lds, storage_point_data, storage_imu_data}

-- The four settings that `set_bits` follows.
pub data Setting : Type 0 where
  pcl_data_type pattern_mode blind_spot dual_emit : Setting

-- `kConfigDataType`, `kConfigScanPattern`, `kConfigBlindSpot` and `kConfigDualEmit`.
abbrev pub config_bit : Setting → ℕ
config_bit pcl_data_type = 1
config_bit pattern_mode = 2
config_bit blind_spot = 4
config_bit dual_emit = 8

-- The calls of the SDK, with their arguments. The attitude is that of the user's configuration.
pub data Request (F : Type 0) : Type 0 where
  set_pcl_data_type : ℕ → ℤ → Request F
  set_scan_pattern : ℕ → ℤ → Request F
  set_blind_spot : ℕ → ℤ → Request F
  set_dual_emit : ℕ → Bool → Request F
  set_install_attitude : ℕ → ExtParameter F → Request F
  set_work_mode_normal : ℕ → Request F
  enable_imu_data : ℕ → Request F

-- `livox_status`, by the tests that the callbacks make.
pub data Status : Type 0 where
  success timeout failure : Status

module _ {F : Type 0} where
  unfoldable pub value_of : Setting → UserLivoxLidarConfig F → ℤ
  value_of pcl_data_type config = config.pcl_data_type
  value_of pattern_mode config = config.pattern_mode
  value_of blind_spot config = config.blind_spot_set
  value_of dual_emit config = config.dual_emit_en

  unfoldable pub request_of : Setting → ℕ → UserLivoxLidarConfig F → Request F
  request_of pcl_data_type handle config = set_pcl_data_type handle config.pcl_data_type
  request_of pattern_mode handle config = set_scan_pattern handle config.pattern_mode
  request_of blind_spot handle config = set_blind_spot handle config.blind_spot_set
  request_of dual_emit handle config = set_dual_emit handle (not (is_zero config.dual_emit_en))

  -- `if (config.… != -1) { set_bits |= …; SetLivoxLidar…(…); }`, for one setting: what becomes of
  -- `set_bits`, and the request made.
  unfoldable pub request_setting : Setting → ℕ → UserLivoxLidarConfig F → ℕ → ℕ × List (Request F)
  request_setting s handle config bits =
      if is_minus_one (value_of s config)
      then (bits, [])
      else (bit_or bits (config_bit s), request_of s handle config ∷ [])

  -- `if (!set_bits) connect_state = kConnectStateSampling;`
  unfoldable pub with_bits : LidarDevice F → ℕ → LidarDevice F
  with_bits lidar bits = record lidar {
    livox_config = record lidar.livox_config { set_bits = bits };
    connect_state = if bits == 0 then sampling else lidar.connect_state;
  }

  -- The locked block of `LidarInfoChangeCallback`.
  unfoldable pub configure : ℕ → LidarDevice F → LidarDevice F × List (Request F)
  configure handle lidar =
      let config = lidar.livox_config in
      let (b₁, r₁) = request_setting pcl_data_type handle config config.set_bits in
      let (b₂, r₂) = request_setting pattern_mode handle config b₁ in
      let (b₃, r₃) = request_setting blind_spot handle config b₂ in
      let (b₄, r₄) = request_setting dual_emit handle config b₃ in
      (with_bits lidar b₄, r₁ ++ r₂ ++ r₃ ++ r₄)

  -- `set_bits &= ~((uint32_t)(…))`, and the test.
  unfoldable pub acknowledge : Setting → LidarDevice F → LidarDevice F
  acknowledge s lidar =
      with_bits lidar (bit_and lidar.livox_config.set_bits (u32 - 1 - config_bit s))

-- The data source, and the requests made so far, oldest first.
pub record Session (N : Numerics) : Type 0 where
  pub lds : Lds N
  pub requests : List (Request N.Float)

module _ (N : Numerics) where
  -- More requests, and a device written back.
  unfoldable pub ask : Session N → List (Request N.Float) → Session N
  ask session more = record session { requests = session.requests ++ more }

  unfoldable pub put_lidar : Session N → ℕ → LidarDevice N.Float → Session N
  put_lidar session index lidar = record session {
    lds = record session.lds { lidars = set session.lds.lidars index lidar };
  }

  -- The end of `LidarInfoChangeCallback`.
  unfoldable pub start_lidar : ℕ → Session N → Session N
  start_lidar handle session =
      ask session (set_work_mode_normal handle ∷ enable_imu_data handle ∷ [])

  -- A device that the configuration does not name gets an index and a type.
  unfoldable pub add_lidar : ℕ → Session N → Option (Session N)
  add_lidar handle session =
      let (found, cache) = get_free_index session.lds.cache_index livox_lidar_type handle in
      let session' = record session { lds = record session.lds { cache_index = cache } } in
      elim found [
        | none ↦ some session'
        | some index ↦ get_elem? session.lds.lidars index >>= λ lidar. some (
            start_lidar handle
              (put_lidar session' index (record lidar { lidar_type = livox_lidar_type })))
      ]

  unfoldable pub lidar_info_change_callback : ℕ → Session N → Option (Session N)
  lidar_info_change_callback handle session =
      elim (get_index session.lds.cache_index livox_lidar_type handle) [
        | none ↦ add_lidar handle session
        | some index ↦ get_elem? session.lds.lidars index >>= λ lidar.
            let config = lidar.livox_config in
            let (lidar', asked) = configure handle lidar in
            let attitude = set_install_attitude config.handle config.extrinsic_param ∷ [] in
            some (start_lidar handle (ask (put_lidar session index lidar') (asked ++ attitude)))
      ]

  unfoldable pub work_mode_changed_callback : Status → ℕ → Session N → Session N
  work_mode_changed_callback success handle session = session
  work_mode_changed_callback timeout handle session = ask session (set_work_mode_normal handle ∷ [])
  work_mode_changed_callback failure handle session = ask session (set_work_mode_normal handle ∷ [])

  -- `SetDataTypeCallback`, `SetPatternModeCallback`, `SetBlindSpotCallback` and
  -- `SetDualEmitCallback`, which differ in the setting. `responded` is whether the response pointer
  -- is not null: after a failure it is followed untested, for the log.
  unfoldable pub setting_callback : Setting → Status → Bool → ℕ → Session N → Option (Session N)
  setting_callback s status responded handle session =
      elim (get_index session.lds.cache_index livox_lidar_type handle) [
        | none ↦ some session
        | some index ↦ get_elem? session.lds.lidars index >>= λ lidar. elim status [
          | success ↦ some (put_lidar session index (acknowledge s lidar))
          | timeout ↦ some (ask session (request_of s handle lidar.livox_config ∷ []))
          | failure ↦ if responded then some session else none
        ]
      ]

  unfoldable pub set_attitude_callback : Status → ℕ → Session N → Option (Session N)
  set_attitude_callback status handle session =
      elim (get_index session.lds.cache_index livox_lidar_type handle) [
        | none ↦ some session
        | some index ↦ get_elem? session.lds.lidars index >>= λ lidar.
            let config = lidar.livox_config in
            elim status [
              | success ↦ some session
              | timeout ↦
                  some
                    (ask session (set_install_attitude config.handle config.extrinsic_param ∷ []))
              | failure ↦ some session
            ]
      ]

  -- `responded` is whether the response pointer is not null.
  unfoldable pub enable_imu_data_callback : Bool → Status → ℕ → Session N → Session N
  enable_imu_data_callback responded status handle session =
      elim (get_index session.lds.cache_index livox_lidar_type handle) [
        | none ↦ session
        | some index ↦ if not responded then session else elim status [
          | success ↦ session
          | timeout ↦ ask session (enable_imu_data handle ∷ [])
          | failure ↦ session
        ]
      ]

  -- `OnLidarPointClounCb` and `LidarImuDataCallback`.
  unfoldable pub on_lidar_point_cloud : PointFrame N.Float → Lds N → Option (Lds N)
  on_lidar_point_cloud frame lds =
      if frame.lidar_num == 0 then some lds else storage_point_data N lds frame

  unfoldable pub lidar_imu_data_callback :
      ImuData N.Float → ImuData N.Float → Lds N → Option (Lds N)
  lidar_imu_data_callback fresh imu_data lds = storage_imu_data N fresh lds imu_data
