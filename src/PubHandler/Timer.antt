-- ===== src/PubHandler/Timer.antt =====
-- The timers of `PubHandler::CheckTimer` and the frames that they publish. The handlers are in the
-- order of their keys, as in the std::map. A frame is shown as far as `lidar_num` covers its arrays.
use auto_fastlio.Prelude.{
  ℕ, ◌+◌, ◌-◌, ◌/◌, ◌%◌, Bool, false, not, ◌||◌, Option, none, some, List, [], ◌∷◌, ◌++◌, ◌==◌, ltb,
  if◌then◌else◌, ◌>>=◌, length,
}
use auto_fastlio.Comm.{
  u64, PointXyzlt, PointPacket, PointFrame, livox_lidar_type, max_source_lidar, ratio_of_ms_to_ns,
}
use auto_fastlio.PubHandler.{LidarPubHandler}

-- `is_timestamp_sync_`, whether `points_callback_` is set, the configured intervals, `last_pub_time_` and the static `first`, the
-- handlers, and every frame handed to the callback, oldest first.
pub record PubHandler (F : Type 0) : Type 0 where
  pub is_timestamp_sync : Bool
  pub points_callback : Bool
  pub publish_interval : ℕ
  pub publish_interval_tolerance : ℕ
  pub publish_interval_ms : ℕ
  pub last_pub_time : ℕ
  pub first : Bool
  pub handlers : List (ℕ × LidarPubHandler F)
  pub published : List (PointFrame F)

module _ {F : Type 0} where
  -- `GetLidarBaseTime` and `GetRecentTimeStamp`.
  unfoldable pub get_lidar_base_time : List (PointXyzlt F) → ℕ
  get_lidar_base_time [] = 0
  get_lidar_base_time (p ∷ ps) = p.offset_time

  unfoldable pub get_recent_time_stamp : List (PointXyzlt F) → ℕ
  get_recent_time_stamp [] = 0
  get_recent_time_stamp (p ∷ []) = p.offset_time
  get_recent_time_stamp (p ∷ r ∷ ps) = get_recent_time_stamp (r ∷ ps)

  unfoldable pub handler_of : ℕ → List (ℕ × LidarPubHandler F) → Option (LidarPubHandler F)
  handler_of id [] = none
  handler_of id ((j, h) ∷ hs) = if j == id then some h else handler_of id hs

  -- `GetLidarPointClouds` into an emptied vector: the handler is left without points.
  unfoldable pub without_points : LidarPubHandler F → LidarPubHandler F
  without_points h = record h { points_clouds = [] }

  unfoldable pub take_points_of : ℕ → List (ℕ × LidarPubHandler F) → List (ℕ × LidarPubHandler F)
  take_points_of id [] = []
  take_points_of id ((j, h) ∷ hs) =
      if j == id then (j, without_points h) ∷ hs else (j, h) ∷ take_points_of id hs

  unfoldable pub packet_of : ℕ → List (PointXyzlt F) → PointPacket F
  packet_of handle points = record {
    lidar_type = livox_lidar_type;
    handle = handle;
    points_num = length points;
    points = points;
  }

  -- `PublishPointCloud`: without a callback the frame goes nowhere.
  unfoldable pub publish_point_cloud : PointFrame F → PubHandler F → PubHandler F
  publish_point_cloud frame s =
      if s.points_callback then record s { published = s.published ++ frame ∷ [] } else s

  -- With the time of the sensors synchronised: the handler of one lidar.
  unfoldable pub check_timer_synced : ℕ → PubHandler F → Option (PubHandler F)
  check_timer_synced id s = handler_of id s.handlers >>= λ h.
      if s.publish_interval_ms == 0
      then none
      else let points = h.points_clouds in
        let recent_time_ms = get_recent_time_stamp points / ratio_of_ms_to_ns in
        let diff = (get_recent_time_stamp points + u64 - get_lidar_base_time points) % u64 in
        let taken = record s { handlers = take_points_of id s.handlers } in
        if not (recent_time_ms % s.publish_interval_ms == 0) || recent_time_ms == 0
        then some s
        else if ltb diff s.publish_interval_tolerance
        then some s
        else if length points == 0
        then some taken
        else some (
            publish_point_cloud
              (record {
                base_time = get_lidar_base_time points ∷ [];
                lidar_num = 1;
                lidar_point = packet_of id points ∷ [];
              })
              taken)

  -- The loop over all handlers: the frame so far, with the next free place `lidar_num`.
  unfoldable pub collect : List (ℕ × LidarPubHandler F) → PointFrame F → Option (PointFrame F)
  collect [] frame = some frame
  collect ((id, h) ∷ hs) frame =
      if not (ltb frame.lidar_num max_source_lidar)
      then none
      else if length h.points_clouds == 0
      then collect hs frame
      else collect hs (record {
        base_time = frame.base_time ++ get_lidar_base_time h.points_clouds ∷ [];
        lidar_num = frame.lidar_num + 1;
        lidar_point = frame.lidar_point ++ packet_of id h.points_clouds ∷ [];
      })

  unfoldable pub take_all_points : List (ℕ × LidarPubHandler F) → List (ℕ × LidarPubHandler F)
  take_all_points [] = []
  take_all_points ((id, h) ∷ hs) = (id, without_points h) ∷ take_all_points hs

  -- Without synchronisation: by the host's clock, all lidars at once.
  unfoldable pub check_timer_unsynced : ℕ → PubHandler F → Option (PubHandler F)
  check_timer_unsynced now s =
      if s.first
      then some (record s { last_pub_time = now; first = false })
      else if ltb now (s.last_pub_time + s.publish_interval)
      then some s
      else (collect s.handlers (record { base_time = []; lidar_num = 0; lidar_point = [] })
          >>= λ frame. some (
              publish_point_cloud frame (record s {
                last_pub_time = s.last_pub_time + s.publish_interval;
                handlers = take_all_points s.handlers;
              })))

  unfoldable pub check_timer : ℕ → ℕ → PubHandler F → Option (PubHandler F)
  check_timer now id s =
      if s.is_timestamp_sync then check_timer_synced id s else check_timer_unsynced now s
