-- ===== src/Lddc/Publish.antt =====
-- The publishers of lddc.cpp (ROS 2) and what is published on them. `none` is undefined behaviour:
-- an index past an array, or a publish through a null publisher.
use auto_fastlio.Prelude.{
  ℕ, ◌*◌, ◌==◌, Option, none, some, List, [], ◌∷◌, ◌++◌, if◌then◌else◌, get_elem?, set, ◌>>=◌,
}
use auto_fastlio.Comm.Text.{codes, ip_num_to_string, replace_period_by_underline}
use auto_fastlio.Comm.{StoragePacket, ImuData}
use auto_fastlio.Numerics.{Numerics}
use auto_fastlio.Lds.{Lds}
use auto_fastlio.Lddc.Messages.{
  PointCloud2, CustomMsg, ImuMsg, init_pointcloud2_msg, init_custom_msg, fill_points_to_custom_msg,
  init_imu_msg,
}

-- `TransferType`, and `kOutputToRos`.
abbrev pub point_cloud2_msg : ℕ
point_cloud2_msg = 0

abbrev pub livox_custom_msg : ℕ
livox_custom_msg = 1

abbrev pub pcl_pxyzi_msg : ℕ
pcl_pxyzi_msg = 2

abbrev pub livox_imu_msg : ℕ
livox_imu_msg = 3

abbrev pub output_to_ros : ℕ
output_to_ros = 0

-- `kMinEthPacketQueueSize`
abbrev pub min_eth_packet_queue_size : ℕ
min_eth_packet_queue_size = 32

pub record Publisher : Type 0 where
  pub msg_type : ℕ
  pub topic_name : List ℕ
  pub queue_size : ℕ

pub data Message (N : Numerics) : Type 0 where
  cloud : PointCloud2 N → Message N
  custom : CustomMsg N.Float → Message N
  imu : ImuMsg N.Float → Message N

-- `published` is everything published so far, oldest first.
pub record Lddc (N : Numerics) : Type 0 where
  pub transfer_format : ℕ
  pub use_multi_topic : ℕ
  pub output_type : ℕ
  pub frame_id : List ℕ
  pub private_pub : List (Option Publisher)
  pub global_pub : Option Publisher
  pub private_imu_pub : List (Option Publisher)
  pub global_imu_pub : Option Publisher
  pub published : List (Publisher × Message N)

-- `CreatePublisher`: null for a type that is none of the three.
unfoldable pub create_publisher : ℕ → List ℕ → ℕ → Option Publisher
create_publisher msg_type topic_name queue_size =
    if msg_type == point_cloud2_msg
    then some (record { msg_type = msg_type; topic_name = topic_name; queue_size = queue_size })
    else if msg_type == livox_custom_msg
    then some (record { msg_type = msg_type; topic_name = topic_name; queue_size = queue_size })
    else if msg_type == livox_imu_msg
    then some (record { msg_type = msg_type; topic_name = topic_name; queue_size = queue_size })
    else none

module _ (N : Numerics) where
  -- The topic of one lidar: a prefix and its address, with underlines.
  unfoldable pub private_topic : List ℕ → Lds N → ℕ → Option (List ℕ)
  private_topic prefix lds index = get_elem? lds.lidars index >>= λ lidar.
      replace_period_by_underline (ip_num_to_string lidar.handle) >>= λ ip. some (prefix ++ ip)

  unfoldable pub get_current_publisher : Lddc N → Lds N → ℕ → Option (Option Publisher × Lddc N)
  get_current_publisher lddc lds index =
      if lddc.use_multi_topic == 0
      then elim lddc.global_pub [
        | some pub_ ↦ some (some pub_, lddc)
        | none ↦
            let made =
              create_publisher lddc.transfer_format (codes "livox/lidar")
                (min_eth_packet_queue_size * 8) in
            some (made, record lddc { global_pub = made })
      ]
      else (get_elem? lddc.private_pub index >>= λ slot. elim slot [
        | some pub_ ↦ some (some pub_, lddc)
        | none ↦ private_topic (codes "livox/lidar_") lds index >>= λ topic_name.
            let made =
              create_publisher lddc.transfer_format topic_name (min_eth_packet_queue_size * 2) in
            some (made, record lddc { private_pub = set lddc.private_pub index made })
      ])

  unfoldable pub get_current_imu_publisher : Lddc N → Lds N → ℕ → Option (Option Publisher × Lddc N)
  get_current_imu_publisher lddc lds index =
      if lddc.use_multi_topic == 0
      then elim lddc.global_imu_pub [
        | some pub_ ↦ some (some pub_, lddc)
        | none ↦
            let made =
              create_publisher livox_imu_msg (codes "livox/imu") (min_eth_packet_queue_size * 8) in
            some (made, record lddc { global_imu_pub = made })
      ]
      else (get_elem? lddc.private_imu_pub index >>= λ slot. elim slot [
        | some pub_ ↦ some (some pub_, lddc)
        | none ↦ private_topic (codes "livox/imu_") lds index >>= λ topic_name.
            let made = create_publisher livox_imu_msg topic_name (min_eth_packet_queue_size * 2) in
            some (made, record lddc { private_imu_pub = set lddc.private_imu_pub index made })
      ])

  -- `dynamic_pointer_cast`: null if the publisher is of another type.
  unfoldable pub cast_to : ℕ → Option Publisher → Option Publisher
  cast_to msg_type none = none
  cast_to msg_type (some p) = if p.msg_type == msg_type then some p else none

  -- `publisher_ptr->publish(msg)`, when the output is ROS.
  unfoldable pub publish : Lddc N → Option Publisher → Message N → Option (Lddc N)
  publish lddc publisher_ptr msg =
      if lddc.output_type == output_to_ros
      then (publisher_ptr >>= λ p.
          some (record lddc { published = lddc.published ++ (p, msg) ∷ [] }))
      else some lddc

  unfoldable pub publish_pointcloud2_data : Lds N → ℕ → PointCloud2 N → Lddc N → Option (Lddc N)
  publish_pointcloud2_data lds index msg lddc =
      get_current_publisher lddc lds index >>= λ (p, lddc').
      publish lddc' (cast_to point_cloud2_msg p) (cloud msg)

  unfoldable pub publish_custom_point_data :
      Lds N → ℕ → CustomMsg N.Float → Lddc N → Option (Lddc N)
  publish_custom_point_data lds index msg lddc =
      get_current_publisher lddc lds index >>= λ (p, lddc').
      publish lddc' (cast_to livox_custom_msg p) (custom msg)

  -- The body of the loop of `PublishPointcloud2` for a packet with points.
  unfoldable pub deliver_pointcloud2 : Lds N → ℕ → StoragePacket N.Float → Lddc N → Option (Lddc N)
  deliver_pointcloud2 lds index pkg lddc = init_pointcloud2_msg N lddc.frame_id pkg >>= λ msg.
      publish_pointcloud2_data lds index msg lddc

  -- And of `PublishCustomPointcloud`.
  unfoldable pub deliver_custom : Lds N → ℕ → StoragePacket N.Float → Lddc N → Option (Lddc N)
  deliver_custom lds index pkg lddc = init_custom_msg N lddc.frame_id lds pkg index >>= λ msg.
      fill_points_to_custom_msg N msg pkg >>= λ filled.
      publish_custom_point_data lds index filled lddc

  -- The body of `PublishImuData` after the pop.
  unfoldable pub deliver_imu : Lds N → ℕ → ImuData N.Float → Lddc N → Option (Lddc N)
  deliver_imu lds index imu_data lddc = get_current_imu_publisher lddc lds index >>= λ (p, lddc').
      publish lddc' (cast_to livox_imu_msg p) (imu (init_imu_msg N imu_data))
