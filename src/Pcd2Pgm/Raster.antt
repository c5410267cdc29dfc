-- ===== src/Pcd2Pgm/Raster.antt =====
-- The two rasterisers of pcd2pgm/src/pcd2pgm.cpp: setMapTopicMsgFixedBounds and
-- setMapTopicMsgDynamicBounds. Each takes the two readings of the clock.
use auto_fastlio.Prelude.{
  ℕ, ◌+◌, ◌*◌, ◌%◌, Bool, ◌&&◌, Option, some, List, [], ◌∷◌, ◌>>=◌, if◌then◌else◌, replicate, ltb,
}
use auto_fastlio.Prelude.Int.{ℤ, at_least_zero, int_lt, int_of_u32, u32_of_int}
use auto_fastlio.Comm.{u32}
use auto_fastlio.Comm.Text.{codes}
use auto_fastlio.Numerics.{Numerics, Rounding}
use auto_fastlio.Pcd2Pgm.{PointXyz, Cloud, Parameters, Origin, OccupancyGrid, write_cell}

-- The guard of the fixed grid, in int32_t, and that of the other, where `i` becomes uint32_t.
unfoldable pub is_inside_int : ℕ → ℕ → ℤ → ℤ → Bool
is_inside_int width height i j =
    at_least_zero i
    && int_lt i (int_of_u32 width)
    && at_least_zero j
    && int_lt j (int_of_u32 height)

unfoldable pub is_inside_u32 : ℕ → ℕ → ℤ → ℤ → Bool
is_inside_u32 width height i j =
    at_least_zero i && ltb (u32_of_int i) width && at_least_zero j && ltb (u32_of_int j) height

-- One point of the fixed grid: its cell is marked, or the point is counted as dropped.
unfoldable pub mark_or_drop : ℕ → ℕ → ℤ → ℤ → List ℕ → ℕ → Option (List ℕ × ℕ)
mark_or_drop width height i j cells dropped =
    if is_inside_int width height i j
    then (write_cell width i j cells >>= λ cells'. some (cells', dropped))
    else some (cells, dropped + 1)

-- One point of the other grid.
unfoldable pub mark_or_skip : ℕ → ℕ → ℤ → ℤ → List ℕ → Option (List ℕ)
mark_or_skip width height i j cells =
    if is_inside_u32 width height i j then write_cell width i j cells else some cells

module _ (N : Numerics) (R : Rounding N) where
  -- `std::min` and `std::max`
  abbrev pub min_of : N.Double → N.Double → N.Double
  min_of a b = if N.lt b a then b else a

  abbrev pub max_of : N.Double → N.Double → N.Double
  max_of a b = if N.lt a b then b else a

  -- `std::floor((value - origin) / map_resolution_)` as an int.
  unfoldable pub cell_along : N.Float → N.Double → N.Float → Option ℤ
  cell_along resolution origin value =
      R.to_int (R.floor (N.div (N.sub (N.widen value) origin) (N.widen resolution)))

  -- The column and the row of a point.
  unfoldable pub cell_of : N.Float → N.Double → N.Double → PointXyz N.Float → Option (ℤ × ℤ)
  cell_of resolution ox oy p =
      cell_along resolution ox p.x >>= λ i. cell_along resolution oy p.y >>= λ j. some (i, j)

  abbrev pub level : N.Double → N.Double → Origin N
  level x y = record {
    x = x;
    y = y;
    z = N.literal 0 1;
    qx = N.literal 0 1;
    qy = N.literal 0 1;
    qz = N.literal 0 1;
    qw = N.literal 1 1;
  }

  -- The message, all of its fields written.
  abbrev pub filled_map :
      Parameters N → ℕ → ℕ → ℕ → ℕ → N.Double → N.Double → List ℕ → OccupancyGrid N
  filled_map params stamp load_time width height ox oy cells = record {
    stamp = stamp;
    frame_id = codes "map";
    map_load_time = load_time;
    resolution = params.map_resolution;
    width = width;
    height = height;
    origin = level ox oy;
    data_cells = cells;
  }

  -- The loop of the fixed grid: the cells, and how many points were dropped.
  unfoldable pub fixed_from :
      N.Float → N.Double → N.Double → ℕ → ℕ → Cloud N → List ℕ → ℕ → Option (List ℕ × ℕ)
  fixed_from resolution ox oy width height [] cells dropped = some (cells, dropped)
  fixed_from resolution ox oy width height (p ∷ ps) cells dropped =
      cell_of resolution ox oy p >>= λ c. mark_or_drop width height c.0 c.1 cells dropped >>= λ r.
      fixed_from resolution ox oy width height ps r.0 r.1

  unfoldable pub set_map_topic_msg_fixed_bounds :
      Parameters N → ℕ → ℕ → Cloud N → OccupancyGrid N → Option (OccupancyGrid N × ℕ)
  set_map_topic_msg_fixed_bounds params stamp load_time cloud msg =
      R.to_u32 (R.ceil (N.div params.fixed_width_m (N.widen params.map_resolution))) >>= λ width.
      R.to_u32 (R.ceil (N.div params.fixed_height_m (N.widen params.map_resolution))) >>= λ height.
      fixed_from params.map_resolution params.fixed_origin_x params.fixed_origin_y width height
        cloud (replicate (width * height % u32) 0) 0
      >>= λ r. some (
        filled_map params stamp load_time width height params.fixed_origin_x params.fixed_origin_y
            r.0,
        r.1,
      )

  -- The first loop of the other: `x_min` and `x_max` of the points, by either coordinate.
  unfoldable pub extent :
      (PointXyz N.Float → N.Float) → Cloud N → N.Double → N.Double → N.Double × N.Double
  extent along [] low high = (low, high)
  extent along (p ∷ ps) low high =
      extent along ps (min_of low (N.widen (along p))) (max_of high (N.widen (along p)))

  unfoldable pub dynamic_from :
      N.Float → N.Double → N.Double → ℕ → ℕ → Cloud N → List ℕ → Option (List ℕ)
  dynamic_from resolution ox oy width height [] cells = some cells
  dynamic_from resolution ox oy width height (p ∷ ps) cells = cell_of resolution ox oy p >>= λ c.
      mark_or_skip width height c.0 c.1 cells >>= λ cells'.
      dynamic_from resolution ox oy width height ps cells'

  abbrev pub cells_across : N.Float → N.Double × N.Double → Option ℕ
  cells_across resolution range =
      R.to_u32 (R.ceil (N.div (N.sub range.1 range.0) (N.widen resolution)))

  -- An empty cloud writes the header and the resolution, and leaves the rest of the message.
  unfoldable pub set_map_topic_msg_dynamic_bounds :
      Parameters N → ℕ → ℕ → Cloud N → OccupancyGrid N → Option (OccupancyGrid N)
  set_map_topic_msg_dynamic_bounds params stamp load_time [] msg = some (record msg {
    stamp = stamp;
    frame_id = codes "map";
    map_load_time = load_time;
    resolution = params.map_resolution;
  })
  set_map_topic_msg_dynamic_bounds params stamp load_time (p ∷ ps) msg =
      let across : N.Double × N.Double = extent (λ q. q.x) (p ∷ ps) R.max R.lowest in
      let up : N.Double × N.Double = extent (λ q. q.y) (p ∷ ps) R.max R.lowest in
      cells_across params.map_resolution across >>= λ width.
      cells_across params.map_resolution up >>= λ height.
      dynamic_from params.map_resolution across.0 up.0 width height (p ∷ ps)
        (replicate (width * height % u32) 0)
      >>= λ cells. some (filled_map params stamp load_time width height across.0 up.0 cells)
