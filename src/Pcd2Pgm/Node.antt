-- ===== src/Pcd2Pgm/Node.antt =====
-- The node of pcd2pgm/src/pcd2pgm.cpp: its constructor and its callbacks. What it publishes is
-- the list `published`, the oldest first.
use auto_fastlio.Prelude.{
  ℕ, Bool, true, false, Option, none, some, List, [], ◌∷◌, ◌++◌, ◌>>=◌, get_elem?,
}
use auto_fastlio.Comm.Text.{codes}
use auto_fastlio.Numerics.{Numerics, Rounding}
use auto_fastlio.Pcd2Pgm.{
  Cloud, Pcl, Overrides, Parameters, OccupancyGrid, declare_parameters, get_parameters,
}
use auto_fastlio.Pcd2Pgm.Raster.{
  set_map_topic_msg_fixed_bounds, set_map_topic_msg_dynamic_bounds, level,
}

module _ (N : Numerics) (P : Pcl N) where
  -- A cloud with its `frame_id`, or a map.
  pub data Message : Type 0 where
    cloud_message : P.PointCloud2 → List ℕ → Message
    map_message : OccupancyGrid N → Message

  -- A cloud is `none` while its pointer is null. `subscribed` and `timed`: the live subscription
  -- and the timer of one second were created.
  pub record Pcd2PgmNode : Type 0 where
    pub parameters : Parameters N
    pub pcd_cloud : Option (Cloud N)
    pub cloud_after_pass_through : Option (Cloud N)
    pub cloud_after_radius : Option (Cloud N)
    pub map_topic_msg : OccupancyGrid N
    pub subscribed : Bool
    pub timed : Bool
    pub published : List Message

module _ (N : Numerics) (R : Rounding N) (P : Pcl N) where
  -- Both filters read the cloud of a step before through its pointer.
  unfoldable pub pass_through_filter :
      N.Double → N.Double → Bool → Pcd2PgmNode N P → Option (Pcd2PgmNode N P)
  pass_through_filter low high flag_in node = node.pcd_cloud >>= λ cloud.
      some (record node { cloud_after_pass_through = some (P.pass_through low high flag_in cloud) })

  unfoldable pub radius_outlier_filter : Cloud N → N.Double → Pcd2PgmNode N P → Pcd2PgmNode N P
  radius_outlier_filter input_cloud radius node = record node {
    cloud_after_radius =
        some (P.radius_outlier radius node.parameters.thres_point_count input_cloud);
  }

  unfoldable pub publish_callback : Pcd2PgmNode N P → Pcd2PgmNode N P
  publish_callback node = elim node.cloud_after_radius [
    | none ↦ node
    | some cloud ↦ record node {
      published =
          node.published
          ++ (cloud_message (P.to_ros_msg cloud) (codes "map")
              ∷ map_message node.map_topic_msg
              ∷ []);
    }
  ]

  -- `applyTransform`: a vector of fewer than six elements is read out of bounds.
  unfoldable pub apply_transform : Pcd2PgmNode N P → Option (Pcd2PgmNode N P)
  apply_transform node =
      let at : ℕ → Option N.Double = get_elem? node.parameters.odom_to_lidar_odom in
      node.pcd_cloud >>= λ cloud. at 0 >>= λ x. at 1 >>= λ y. at 2 >>= λ z. at 3 >>= λ roll.
      at 4 >>= λ pitch. at 5 >>= λ yaw.
      some (record node { pcd_cloud = some (P.move_back x y z roll pitch yaw cloud) })

  -- The pass-through filter with the node's limits.
  abbrev pub within_limits : Pcd2PgmNode N P → Option (Pcd2PgmNode N P)
  within_limits node =
      pass_through_filter (N.widen node.parameters.thre_z_min) (N.widen node.parameters.thre_z_max)
        node.parameters.flag_pass_through node

  -- The last steps of `liveCloudCallback`: the map of the cloud that is left, published at once.
  unfoldable pub update_map : ℕ → ℕ → Cloud N → Pcd2PgmNode N P → Option (Pcd2PgmNode N P)
  update_map stamp load_time [] node = some node
  update_map stamp load_time (p ∷ ps) node =
      set_map_topic_msg_fixed_bounds N R node.parameters stamp load_time (p ∷ ps) node.map_topic_msg
      >>= λ r. some (publish_callback (record node { map_topic_msg = r.0 }))

  unfoldable pub remove_outliers : ℕ → ℕ → Cloud N → Pcd2PgmNode N P → Option (Pcd2PgmNode N P)
  remove_outliers stamp load_time [] node = some node
  remove_outliers stamp load_time (p ∷ ps) node =
      let filtered : Pcd2PgmNode N P =
        radius_outlier_filter (p ∷ ps) (N.widen node.parameters.thre_radius) node in
      filtered.cloud_after_radius >>= λ cloud. update_map stamp load_time cloud filtered

  unfoldable pub live_cloud_callback :
      ℕ → ℕ → P.PointCloud2 → Pcd2PgmNode N P → Option (Pcd2PgmNode N P)
  live_cloud_callback stamp load_time msg node =
      within_limits (record node { pcd_cloud = some (P.from_ros_msg msg) }) >>= λ passed.
      passed.cloud_after_pass_through >>= λ cloud. remove_outliers stamp load_time cloud passed

  -- A message before it is first filled in.
  abbrev pub blank_map : OccupancyGrid N
  blank_map = record {
    stamp = 0;
    frame_id = [];
    map_load_time = 0;
    resolution = N.narrow (N.literal 0 1);
    width = 0;
    height = 0;
    origin = level N R (N.literal 0 1) (N.literal 0 1);
    data_cells = [];
  }

  -- The part of the constructor for a file that was read.
  unfoldable pub map_of_file : ℕ → ℕ → Cloud N → Pcd2PgmNode N P → Option (Pcd2PgmNode N P)
  map_of_file stamp load_time cloud node =
      apply_transform (record node { pcd_cloud = some cloud }) >>= λ moved.
      within_limits moved >>= λ passed. passed.cloud_after_pass_through >>= λ left.
      let filtered : Pcd2PgmNode N P =
        radius_outlier_filter left (N.widen passed.parameters.thre_radius) passed in
      filtered.cloud_after_radius >>= λ cloud.
      set_map_topic_msg_dynamic_bounds N R filtered.parameters stamp load_time cloud
        filtered.map_topic_msg
      >>= λ msg. some (record filtered { map_topic_msg = msg; timed = true })

  -- The constructor. In file mode a file that cannot be read ends it before the timer is created.
  unfoldable pub new_node : ℕ → ℕ → Overrides N → Option (Pcd2PgmNode N P)
  new_node stamp load_time overrides =
      let params : Parameters N = get_parameters N (declare_parameters N overrides) in
      let node : Pcd2PgmNode N P = record {
        parameters = params;
        pcd_cloud = some [];
        cloud_after_pass_through = none;
        cloud_after_radius = none;
        map_topic_msg = blank_map;
        subscribed = false;
        timed = false;
        published = [];
      } in
      elim params.live_topic [
        | [] ↦ elim (P.load_file params.pcd_file) [
          | none ↦ some node
          | some cloud ↦ map_of_file stamp load_time cloud node
        ]
        | c ∷ cs ↦ some (record node { subscribed = true })
      ]
