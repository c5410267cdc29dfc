-- ===== src/Pcd2Pgm/Live.antt =====
-- What a live cloud does to the map: liveCloudCallback of pcd2pgm/src/pcd2pgm.cpp.
use auto_fastlio.Prelude.{
  ℕ, ◌≡◌, refl, ap, ◌∙◌, ◌⊎◌, inl, inr, some, List, [], ◌∷◌, ◌++◌, arith, List-cases,
}
use auto_fastlio.Prelude.Int.{ℤ}
use auto_fastlio.Comm.Text.{codes}
use auto_fastlio.Numerics.{Numerics, Rounding}
use auto_fastlio.Pcd2Pgm.{PointXyz, Cloud, Pcl, Parameters, OccupancyGrid}
use auto_fastlio.Pcd2Pgm.Raster.{set_map_topic_msg_fixed_bounds, filled_map}
use auto_fastlio.Pcd2Pgm.Node.{
  Pcd2PgmNode, cloud_message, map_message, pass_through_filter, radius_outlier_filter,
  publish_callback, update_map, remove_outliers, live_cloud_callback,
}
use auto_fastlio.Pcd2Pgm.Cells.{Shows, Fits, occupied}
use auto_fastlio.Pcd2Pgm.Bounds.{cells_of, set_map_topic_msg_fixed_bounds-Shows}

module _ (N : Numerics) (R : Rounding N) (P : Pcl N) where
  -- The cloud after the first filter, and after both.
  abbrev pub after_pass_through : Parameters N → Cloud N → Cloud N
  after_pass_through params cloud =
      P.pass_through (N.widen params.thre_z_min) (N.widen params.thre_z_max)
        params.flag_pass_through cloud

  abbrev pub after_both : Parameters N → Cloud N → Cloud N
  after_both params cloud =
      P.radius_outlier (N.widen params.thre_radius) params.thres_point_count
        (after_pass_through params cloud)

  -- The node after the first filter.
  abbrev passed : P.PointCloud2 → Pcd2PgmNode N P → Pcd2PgmNode N P
  passed msg node = record node {
    pcd_cloud = some (P.from_ros_msg msg);
    cloud_after_pass_through = some (after_pass_through node.parameters (P.from_ros_msg msg));
  }

  abbrev filtered : Cloud N → Pcd2PgmNode N P → Pcd2PgmNode N P
  filtered cloud node = record node {
    cloud_after_radius = some (
        P.radius_outlier (N.widen node.parameters.thre_radius) node.parameters.thres_point_count
          cloud);
  }

  callback-outliers :
      (stamp load_time : ℕ) (msg : P.PointCloud2) (node : Pcd2PgmNode N P)
      → live_cloud_callback N R P stamp load_time msg node
        ≡ remove_outliers N R P stamp load_time
            (after_pass_through node.parameters (P.from_ros_msg msg))
            (passed msg node)
  unfolding live_cloud_callback pass_through_filter
  callback-outliers stamp load_time msg node = refl

  outliers-nil :
      (stamp load_time : ℕ) (cloud : Cloud N) (node : Pcd2PgmNode N P)
      → cloud ≡ []
      → remove_outliers N R P stamp load_time cloud node ≡ some node
  unfolding remove_outliers
  outliers-nil stamp load_time cloud node e = rw e refl

  outliers-cons :
      (stamp load_time : ℕ) (p : PointXyz N.Float) (ps : Cloud N) (node : Pcd2PgmNode N P)
      → remove_outliers N R P stamp load_time (p ∷ ps) node
        ≡ update_map N R P stamp load_time
            (P.radius_outlier
              (N.widen node.parameters.thre_radius)
              node.parameters.thres_point_count
              (p ∷ ps))
            (filtered (p ∷ ps) node)
  unfolding remove_outliers radius_outlier_filter
  outliers-cons stamp load_time p ps node = refl

  -- With a point left, the second filter runs.
  callback-update :
      (stamp load_time : ℕ) (msg : P.PointCloud2) (node : Pcd2PgmNode N P) (p : PointXyz N.Float)
      (ps : Cloud N)
      → after_pass_through node.parameters (P.from_ros_msg msg) ≡ p ∷ ps
      → live_cloud_callback N R P stamp load_time msg node
        ≡ update_map N R P stamp load_time
            (after_both node.parameters (P.from_ros_msg msg))
            (filtered (after_pass_through node.parameters (P.from_ros_msg msg)) (passed msg node))
  callback-update stamp load_time msg node p ps e =
      callback-outliers stamp load_time msg node
      ∙ reach (after_pass_through node.parameters (P.from_ros_msg msg)) e
    where
      reach :
          (cloud : Cloud N)
          → cloud ≡ p ∷ ps
          → remove_outliers N R P stamp load_time cloud (passed msg node)
            ≡ update_map N R P stamp load_time
                (P.radius_outlier
                  (N.widen node.parameters.thre_radius)
                  node.parameters.thres_point_count
                  cloud)
                (filtered cloud (passed msg node))
      reach cloud e = rw e (outliers-cons stamp load_time p ps (passed msg node))

  update-nil :
      (stamp load_time : ℕ) (cloud : Cloud N) (node : Pcd2PgmNode N P)
      → cloud ≡ []
      → update_map N R P stamp load_time cloud node ≡ some node
  unfolding update_map
  update-nil stamp load_time cloud node e = rw e refl

  -- A new map, published after its cloud.
  abbrev updated : Pcd2PgmNode N P → OccupancyGrid N → Cloud N → Pcd2PgmNode N P
  updated node grid cloud = record node {
    map_topic_msg = grid;
    published =
        node.published
        ++ (cloud_message (P.to_ros_msg cloud) (codes "map") ∷ map_message grid ∷ []);
  }

  update-cons :
      (stamp load_time : ℕ) (cloud : Cloud N) (q : PointXyz N.Float) (qs : Cloud N)
      (node : Pcd2PgmNode N P) (grid : OccupancyGrid N) (dropped : ℕ)
      → cloud ≡ q ∷ qs
      → node.cloud_after_radius ≡ some (q ∷ qs)
      → set_map_topic_msg_fixed_bounds N R node.parameters stamp load_time
          (q ∷ qs)
          node.map_topic_msg
        ≡ some (grid, dropped)
      → update_map N R P stamp load_time cloud node ≡ some (updated node grid (q ∷ qs))
  unfolding update_map publish_callback
  update-cons stamp load_time cloud q qs node grid dropped e held m =
      rw e (rw m (ground (arith, held)))

  keeps :
      (node : Pcd2PgmNode N P) (msg : P.PointCloud2) (stamp load_time : ℕ)
      → after_pass_through node.parameters (P.from_ros_msg msg) ≡ []
      → (node' : Pcd2PgmNode N P) × (live_cloud_callback N R P stamp load_time msg node
          ≡ some node')
        × (node'.map_topic_msg ≡ node.map_topic_msg)
        × (node'.published ≡ node.published)
  keeps node msg stamp load_time e = (
    passed msg node,
    callback-outliers stamp load_time msg node ∙ outliers-nil stamp load_time _ _ e,
    refl,
    refl,
  )

  -- If a filter leaves no point, `liveCloudCallback` keeps the map and publishes nothing.
  pub live_cloud_callback-empty :
      (node : Pcd2PgmNode N P) (msg : P.PointCloud2) (stamp load_time : ℕ)
      → (after_pass_through node.parameters (P.from_ros_msg msg) ≡ [])
        ⊎ (after_both node.parameters (P.from_ros_msg msg) ≡ [])
      → (node' : Pcd2PgmNode N P) × (live_cloud_callback N R P stamp load_time msg node
          ≡ some node')
        × (node'.map_topic_msg ≡ node.map_topic_msg)
        × (node'.published ≡ node.published)
  live_cloud_callback-empty node msg stamp load_time (inl e) = keeps node msg stamp load_time e
  live_cloud_callback-empty node msg stamp load_time (inr e) =
      let here : Cloud N = after_pass_through node.parameters (P.from_ros_msg msg) in
      elim (List-cases here) [
        | inl none_left ↦ keeps node msg stamp load_time none_left
        | inr (p, ps, left) ↦ (
          filtered here (passed msg node),
          callback-update stamp load_time msg node p ps left ∙ update-nil stamp load_time _ _ e,
          refl,
          refl,
        )
      ]

  -- A live cloud that leaves points, each with a cell in the range of int, in a grid that fits:
  -- `liveCloudCallback` returns, and publishes at once, last, the filtered cloud and the map it
  -- holds from then on. That map has the size and the origin of the parameters, and shows exactly
  -- the cells of the points that are left, whatever the map before was.
  pub live_cloud_callback-Shows :
      (node : Pcd2PgmNode N P) (msg : P.PointCloud2) (stamp load_time w h : ℕ)
      (p q : PointXyz N.Float) (ps qs : Cloud N) (cs : List (ℤ × ℤ))
      → after_pass_through node.parameters (P.from_ros_msg msg) ≡ p ∷ ps
      → after_both node.parameters (P.from_ros_msg msg) ≡ q ∷ qs
      → R.to_u32
          (R.ceil (N.div node.parameters.fixed_width_m (N.widen node.parameters.map_resolution)))
        ≡ some w
      → R.to_u32
          (R.ceil (N.div node.parameters.fixed_height_m (N.widen node.parameters.map_resolution)))
        ≡ some h
      → Fits w h
      → cells_of N R node.parameters.map_resolution node.parameters.fixed_origin_x
          node.parameters.fixed_origin_y
          (q ∷ qs)
        ≡ some cs
      → (cells : List ℕ) × (node' : Pcd2PgmNode N P) × (live_cloud_callback N R P stamp load_time
            msg node
          ≡ some node')
        × (node'.map_topic_msg
            ≡ filled_map N R node.parameters stamp load_time w h node.parameters.fixed_origin_x
                node.parameters.fixed_origin_y cells)
        × (node'.published
            ≡ node.published
              ++ (cloud_message (P.to_ros_msg (q ∷ qs)) (codes "map")
                  ∷ map_message node'.map_topic_msg
                  ∷ []))
        × Shows w h (occupied cs) cells
  live_cloud_callback-Shows node msg stamp load_time w h p q ps qs cs left both ew eh f e =
      let (cells, m, shows) =
        set_map_topic_msg_fixed_bounds-Shows N R node.parameters stamp load_time w h (q ∷ qs) cs
          node.map_topic_msg ew eh f e in
      let here : Cloud N = after_pass_through node.parameters (P.from_ros_msg msg) in
      let before : Pcd2PgmNode N P = filtered here (passed msg node) in
      (
        cells,
        updated before
            (filled_map N R node.parameters stamp load_time w h node.parameters.fixed_origin_x
              node.parameters.fixed_origin_y cells)
            (q ∷ qs),
        callback-update stamp load_time msg node p ps left
            ∙ update-cons stamp load_time _ q qs before _ _ both (ap some both) m,
        refl,
        refl,
        shows,
      )
