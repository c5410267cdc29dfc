-- ===== src/Driver.antt =====
-- The node of the driver, as built for ROS 2: livox_ros_driver2/src/livox_ros_driver2.cpp,
-- driver_node.h and driver_node.cpp, with the constructors of Lddc and LdsLidar. The two polling
-- threads and the destructor are in Threads. `none` is undefined behaviour, or an assertion of
-- RapidJSON that fails.
pub mod Threads
pub mod Exit
use auto_fastlio.Prelude.{
  ℕ, Bool, true, false, Option, none, some, List, [], ◌>>=◌, if◌then◌else◌, replicate,
}
use auto_fastlio.Prelude.Int.{ℤ, is_zero, uint8_of}
use auto_fastlio.Comm.{max_source_lidar}
use auto_fastlio.Numerics.{Numerics}
use auto_fastlio.CacheIndex.{init}
use auto_fastlio.Config.{Json}
use auto_fastlio.Lds.{LidarDevice, Lds, reset_lds, request_exit}
use auto_fastlio.Lddc.Publish.{Lddc}
use auto_fastlio.PubHandler.Queue.{PubProcess}
use auto_fastlio.LdsLidar.{LivoxSdk, LdsLidar, init_lds_lidar}

-- The parameters that the constructor reads.
pub record NodeParameters (N : Numerics) : Type 0 where
  pub xfer_format : ℤ
  pub multi_topic : ℤ
  pub data_src : ℤ
  pub publish_freq : N.Double
  pub output_type : ℤ
  pub frame_id : List ℕ
  pub user_config_path : List ℕ

-- `lds` is null until a data source is registered.
pub record DriverNode (N : Numerics) : Type 0 where
  pub lddc : Lddc N
  pub lds : Option (LdsLidar N)
  pub exit_signal : Bool

module _ (N : Numerics) where
  -- Between half a hertz and a hundred.
  unfoldable pub clamp_publish_freq : N.Double → N.Double
  clamp_publish_freq publish_freq =
      if N.lt (N.literal 100 1) publish_freq
      then N.literal 100 1
      else if N.lt publish_freq (N.literal 1 2)
      then N.literal 1 2
      else publish_freq

  -- The constructor of Lddc. Its `publish_frq_` and `publish_period_ns_` are read nowhere.
  unfoldable pub new_lddc : ℤ → ℤ → ℤ → List ℕ → Lddc N
  new_lddc format multi_topic output_type frame_id = record {
    transfer_format = uint8_of format;
    use_multi_topic = uint8_of multi_topic;
    output_type = uint8_of output_type;
    frame_id = frame_id;
    private_pub = replicate max_source_lidar none;
    global_pub = none;
    private_imu_pub = replicate max_source_lidar none;
    global_imu_pub = none;
    published = [];
  }

  -- The constructors of Lds and LdsLidar, each with its reset, on the 32 devices and the point processing as they are.
  unfoldable pub new_lds_lidar :
      List (LidarDevice N.Float) → PubProcess N.Float → N.Double → Option (LdsLidar N)
  new_lds_lidar devices pub_handler publish_freq =
      reset_lds N
        (record {
          lidar_count = max_source_lidar;
          lidars = devices;
          pcd_semaphore = 0;
          imu_semaphore = 0;
          cache_index = init;
          publish_freq = publish_freq;
          data_src = 0;
          request_exit = false;
        })
        0
      >>= λ built. reset_lds N built 0 >>= λ lds. some (record {
        lds = lds;
        path = [];
        lidar_summary_info = record { lidar_type = 0 };
        is_initialized = false;
        pub_handler = pub_handler;
        sdk_calls = [];
      })

  -- The constructor of the node. A data source that does not start is registered all the same, and
  -- with a `data_src` other than 0 (`kSourceRawLidar`) none is.
  unfoldable pub new_driver_node :
      Json N.Float
      → LivoxSdk
      → List (LidarDevice N.Float)
      → PubProcess N.Float
      → NodeParameters N
      → Option (DriverNode N)
  new_driver_node J sdk devices pub_handler p =
      let lddc : Lddc N = new_lddc p.xfer_format p.multi_topic p.output_type p.frame_id in
      if is_zero p.data_src
      then (new_lds_lidar devices pub_handler (clamp_publish_freq p.publish_freq) >>= λ read_lidar.
          init_lds_lidar N J sdk p.user_config_path read_lidar >>= λ r.
          some (record { lddc = lddc; lds = some r.1; exit_signal = false }))
      else some (record { lddc = lddc; lds = none; exit_signal = false })

  -- The destructor up to its joins: without a data source it follows a null pointer.
  unfoldable pub begin_exit : DriverNode N → Option (DriverNode N)
  begin_exit node = node.lds >>= λ source. some (record node {
    lds = some (record source { lds = request_exit N source.lds });
    exit_signal = true;
  })
