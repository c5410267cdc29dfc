-- ===== src/LdsLidar.antt =====
-- The Livox data source: livox_ros_driver2/src/lds_lidar.h and lds_lidar.cpp. There is one object,
-- `GetInstance`'s, which `g_lds_ldiar` points to. The SDK is what receives the calls: they are a
-- log. `none` is undefined behaviour, or an assertion of RapidJSON that fails.
pub mod Setup
use auto_fastlio.Prelude.{
  ℕ, Bool, true, false, not, Option, none, some, List, [], ◌∷◌, ◌++◌, ◌==◌, ◌>>=◌, if◌then◌else◌,
  get_elem?, set, bit_and,
}
use auto_fastlio.Prelude.Int.{ℤ, int_eq, quot}
use auto_fastlio.Comm.{UserLivoxLidarConfig, ExtParameter, LidarExtParameter, livox_lidar_type}
use auto_fastlio.Numerics.{Numerics}
use auto_fastlio.CacheIndex.{get_free_index}
use auto_fastlio.Config.{Json, LidarSummaryInfo, Parsed, parse_summary_info, parse}
use auto_fastlio.Lds.{Lds, reset_lds}
use auto_fastlio.PubHandler.Queue.{
  PubProcess, add_lidars_ext_param, set_point_clouds_callback, set_imu_data_callback,
  set_point_cloud_config,
}

pub data SdkCall : Type 0 where
  disable_console_logger : SdkCall
  sdk_init : List ℕ → SdkCall
  set_info_change_callback : SdkCall
  sdk_uninit : SdkCall

-- What the SDK answers, and its `kLivoxLidarCartesianCoordinateLowData`.
pub record LivoxSdk : Type 0 where
  pub init_answer : List ℕ → Bool
  pub cartesian_low_data : ℤ

pub record LdsLidar (N : Numerics) : Type 0 where
  pub lds : Lds N
  pub path : List ℕ
  pub lidar_summary_info : LidarSummaryInfo
  pub is_initialized : Bool
  pub pub_handler : PubProcess N.Float
  pub sdk_calls : List SdkCall

-- `lidar_summary_info_.lidar_type & kLivoxLidarType`
abbrev pub has_livox : LidarSummaryInfo → Bool
has_livox info = not (bit_and info.lidar_type livox_lidar_type == 0)

module _ (N : Numerics) where
  -- The extrinsic parameters of a device: in centimetres for the low resolution.
  unfoldable pub lidar_param_of :
      LivoxSdk → UserLivoxLidarConfig N.Float → LidarExtParameter N.Float
  lidar_param_of sdk config =
      let p : ExtParameter N.Float = config.extrinsic_param in
      record {
        lidar_type = livox_lidar_type;
        handle = config.handle;
        param =
            if int_eq config.pcl_data_type sdk.cartesian_low_data
            then record p { x = quot p.x 10; y = quot p.y 10; z = quot p.z 10 }
            else p;
      }

  -- One round of "fill in lidar devices", and the loop.
  unfoldable pub fill_device :
      LivoxSdk → UserLivoxLidarConfig N.Float → LdsLidar N → Option (LdsLidar N)
  fill_device sdk config s =
      let answer = get_free_index s.lds.cache_index livox_lidar_type config.handle in
      elim answer.0 [
        | none ↦ some (record s { lds = record s.lds { cache_index = answer.1 } })
        | some index ↦
            (get_elem? s.lds.lidars index >>= λ lidar. some (record s {
              lds = record s.lds {
                cache_index = answer.1;
                lidars = set s.lds.lidars index (record lidar {
                  lidar_type = livox_lidar_type;
                  livox_config = config;
                  handle = config.handle;
                });
              };
              pub_handler = add_lidars_ext_param (lidar_param_of sdk config) s.pub_handler;
            }))
      ]

  unfoldable pub fill_devices :
      LivoxSdk → List (UserLivoxLidarConfig N.Float) → LdsLidar N → Option (LdsLidar N)
  fill_devices sdk [] s = some s
  fill_devices sdk (config ∷ configs) s =
      fill_device sdk config s >>= λ s'. fill_devices sdk configs s'

  abbrev call : SdkCall → LdsLidar N → LdsLidar N
  call c s = record s { sdk_calls = s.sdk_calls ++ c ∷ [] }

  module _ (J : Json N.Float) (sdk : LivoxSdk) where
    -- `InitLivoxLidar`. A configuration that cannot be parsed leaves no user configurations, and
    -- the set-up goes on.
    unfoldable pub init_livox_lidar : LdsLidar N → Option (Bool × LdsLidar N)
    init_livox_lidar s = parse J (N.narrow (N.literal 0 1)) s.path [] >>= λ parsed.
        let started : LdsLidar N = call (sdk_init s.path) (call disable_console_logger s) in
        if sdk.init_answer s.path
        then (fill_devices sdk parsed.value started >>= λ s'.
            some (true, call set_info_change_callback s'))
        else some (false, started)

    -- `InitLidars`, with `ParseSummaryConfig`.
    unfoldable pub init_lidars : LdsLidar N → Option (Bool × LdsLidar N)
    init_lidars s = parse_summary_info J s.path s.lidar_summary_info >>= λ parsed.
        let s' : LdsLidar N = record s { lidar_summary_info = parsed.value } in
        if parsed.answer
        then (if has_livox parsed.value then init_livox_lidar s' else some (true, s'))
        else some (false, s')

    unfoldable pub set_lidar_pub_handle : LdsLidar N → LdsLidar N
    set_lidar_pub_handle s = record s {
      pub_handler =
          set_point_cloud_config N s.lds.publish_freq
            (set_imu_data_callback (set_point_clouds_callback s.pub_handler));
    }

    -- `InitLdsLidar`. `Start` always succeeds.
    unfoldable pub init_lds_lidar : List ℕ → LdsLidar N → Option (Bool × LdsLidar N)
    init_lds_lidar path_name s =
        if s.is_initialized
        then some (false, s)
        else (init_lidars (record s { path = path_name }) >>= λ r. some (
            if r.0
            then (true, record (set_lidar_pub_handle r.1) { is_initialized = true })
            else (false, r.1)))

  -- `DeInitLdsLidar`, with true for 0 and false for -1, and `PrepareExit`.
  unfoldable pub deinit_lds_lidar : LdsLidar N → Bool × LdsLidar N
  deinit_lds_lidar s =
      if s.is_initialized
      then (if has_livox s.lidar_summary_info then (true, call sdk_uninit s) else (true, s))
      else (false, s)

  unfoldable pub prepare_exit : LdsLidar N → LdsLidar N
  prepare_exit s = (deinit_lds_lidar s).1
