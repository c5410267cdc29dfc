-- ===== src/AngleFilter/Errors.antt =====
-- Any scan: filter_cloud of lidar_angle_filter_node.cpp returns, and a bad scan changes nothing.
use native.Mathlib.Decide.{ℕ_discrete}
use auto_fastlio.Prelude.{
  subst, ℕ, zero, suc, ◌+◌, ◌*◌, ◌%◌, ◌^◌, ◌≤◌, ◌<◌, ◌≡◌, refl, ◌⊎◌, inl, inr, Bool, true, false,
  some, List, [], ◌∷◌, if◌then◌else◌, length, drop, arith, ltb, not, Option-cases, ◌==◌, ◌&&◌,
}
use auto_fastlio.Comm.Text.{codes}
use auto_fastlio.Numerics.{Numerics}
use auto_fastlio.AngleFilter.{
  Angles, Host, Parameters, Failure, Run, ok, throws, ◌>>>◌, short_data, missing_field,
  wrong_datatype, beyond_point_step,
}
use auto_fastlio.AngleFilter.Cloud.{
  SensorMsgs, PointCloud2, field_size, find_coordinate_field, field_named,
}
use auto_fastlio.AngleFilter.Node.{
  LidarAngleFilterNode, Tally, Fields, no_points, filter_point, filter_columns, filter_rows,
  find_fields, try_filter, filter_cloud,
}
use auto_fastlio.AngleFilter.Spec.{add_points}
use auto_fastlio.AngleFilter.Scan.{
  AreInside, IsComplete, IsSmall, outcome, filter_point-adds, find_fields-AreInside,
  filter_cloud_lem, filter_cloud-throws,
}

-- The dimensions are uint32_t.
pub record HasSizes {M : SensorMsgs} (cloud : PointCloud2 M) : Type 0 where
  pub step : cloud.point_step < 2 ^ 32
  pub row : cloud.row_step < 2 ^ 32
  pub small : IsSmall M cloud

-- A run that throws or ends normally.
abbrev Ends {ℓ} : {A : Type ℓ} → Run A → Type ℓ
Ends {A = A} m = ((failure : Failure) × (m ≡ throws failure)) ⊎ ((a : A) × (m ≡ ok a))

Ends-if {ℓ} : {A : Type ℓ} (b : Bool) {x y : Run A} → Ends x → Ends y → Ends (if b then x else y)
Ends-if true h k = h
Ends-if false h k = k

Ends-bind {ℓ κ} :
    {A : Type ℓ} {B : Type κ} (m : Run A) (f : A → Run B)
    → Ends m
    → ((a : A) → Ends (f a))
    → Ends (m >>> f)
Ends-bind m f (inl (failure, e)) h = rw e (inl (failure, refl))
Ends-bind m f (inr (a, e)) h = rw e (h a)

module _ (M : SensorMsgs) where
  -- The search for the fields finds them or throws.
  find_coordinate_field-Ends :
      (cloud : PointCloud2 M) (name : List ℕ) → Ends (find_coordinate_field M cloud name)
  unfolding find_coordinate_field
  find_coordinate_field-Ends cloud name = elim (Option-cases (field_named name cloud.fields)) [
    | inl missing ↦ rw (missing, find_coordinate_field) (inl (missing_field name, refl))
    | inr (field, found) ↦
        rw (found, find_coordinate_field)
          (Ends-if (not (field.datatype == M.float32) && not (field.datatype == M.float64))
            (inl (wrong_datatype name, refl))
            (Ends-if (ltb cloud.point_step (field.offset + field_size M field.datatype))
              (inl (beyond_point_step name, refl)) (inr (_, refl))))
  ]

  find_fields-Ends : (cloud : PointCloud2 M) → Ends (find_fields M cloud)
  unfolding find_fields
  find_fields-Ends cloud = Ends-bind _ _ (find_coordinate_field-Ends cloud (codes "x")) (λ x.
      Ends-bind _ _ (find_coordinate_field-Ends cloud (codes "y"))
        (λ y. Ends-bind _ _ (find_coordinate_field-Ends cloud (codes "z")) (λ z. inr (_, refl))))

module _ (N : Numerics) (A : Angles N) (H : Host N) (M : SensorMsgs) where
  module _ (p : Parameters N) (f : Fields) (cloud : PointCloud2 M) (sizes : HasSizes cloud)
      (inside : AreInside M cloud f) where
    -- A point beyond the data.
    filter_point-throws :
        (offset : ℕ) (t : Tally)
        → offset ≤ length cloud.data_bytes + 2 ^ 32
        → length cloud.data_bytes < offset + cloud.point_step
        → filter_point N A H M p f cloud offset t ≡ throws short_data
    unfolding filter_point
    filter_point-throws offset t near beyond =
        let caught : ltb (length cloud.data_bytes) ((offset + cloud.point_step) % 2 ^ 64) ≡ true =
          ground (arith, sizes.step, sizes.small) in
        rw caught refl

    -- The points of one row from a column on are all in the data.
    abbrev RowFrom : ℕ → ℕ → Type 0
    RowFrom row column =
        (c : ℕ)
        → column ≤ c
        → c < cloud.width
        → row * cloud.row_step + c * cloud.point_step + cloud.point_step ≤ length cloud.data_bytes

    columns-cases :
        (row left column : ℕ) (t : Tally)
        → column + left ≡ cloud.width
        → row * cloud.row_step + column * cloud.point_step ≤ length cloud.data_bytes + 2 ^ 32
        → (filter_columns N A H M p f cloud (row * cloud.row_step) left column t
            ≡ throws short_data)
          ⊎ ((t' : Tally) × (filter_columns N A H M p f cloud (row * cloud.row_step) left column t
                ≡ ok t')
              × RowFrom row column)
    unfolding filter_columns
    columns-cases row zero column t w near = inr (t, refl, λ c a b. absurd (omega arith))
    columns-cases row (suc left) column t w near =
        let o : ℕ = row * cloud.row_step + column * cloud.point_step in
        let at : (row * cloud.row_step + column * cloud.point_step % 2 ^ 64) % 2 ^ 64
            ≡ row * cloud.row_step + column * cloud.point_step =
          omega (arith, near, sizes.small) in
        elim (split (o + cloud.point_step) (length cloud.data_bytes)) [
          | inl room ↦
              let here = filter_point-adds N A H M p f cloud o t inside sizes.small room in
              elim (columns-cases row left (column + 1)
                (add_points N A H M p f cloud t (drop o cloud.data_bytes ∷ [])) (omega (arith, w))
                (omega (arith, room))) [
                  | inl fails ↦ inl (rw (at, here) fails)
                  | inr (t', goes, rest) ↦
                      inr (t', rw (at, here) goes, λ c a b. from_first c column room rest a b)
                ]
          | inr beyond ↦ inl (rw (at, filter_point-throws o t near beyond) refl)
        ]
      where
        split : (a b : ℕ) → (a ≤ b) ⊎ (b < a)
        split a b = omega arith

        from_first :
            (c column : ℕ)
            → row * cloud.row_step + column * cloud.point_step + cloud.point_step
              ≤ length cloud.data_bytes
            → RowFrom row (column + 1)
            → column ≤ c
            → c < cloud.width
            → row * cloud.row_step + c * cloud.point_step + cloud.point_step
              ≤ length cloud.data_bytes
        from_first c column room rest a b = elim (ℕ_discrete column c) [
          | yes same ↦
              subst
                (λ t.
                  row * cloud.row_step + t * cloud.point_step + cloud.point_step
                  ≤ length cloud.data_bytes)
                same room
          | no later ↦ rest c (omega (arith, a, later)) b
        ]

    -- The rows from one on, in a scan that has columns.
    rows-cases :
        (left row : ℕ) (t : Tally)
        → 0 < cloud.width
        → row + left ≡ cloud.height
        → row * cloud.row_step ≤ length cloud.data_bytes + 2 ^ 32
        → (filter_rows N A H M p f cloud left row t ≡ throws short_data)
          ⊎ ((r : ℕ) → row ≤ r → r < cloud.height → RowFrom r 0)
    unfolding filter_rows
    rows-cases zero row t w h near = inr (λ r a b. absurd (omega arith))
    rows-cases (suc left) row t w h near =
        let at : row * cloud.row_step % 2 ^ 64 ≡ row * cloud.row_step =
          omega (arith, near, sizes.small) in
        elim (columns-cases row cloud.width 0 t (omega arith) (omega (arith, near))) [
          | inl fails ↦ inl (rw (at, fails) refl)
          | inr (t', goes, all) ↦
              let first = all 0 (omega arith) w in
              elim (rows-cases left (row + 1) t' w (omega (arith, h))
                (omega (arith, first, sizes.row))) [
                  | inl fails ↦ inl (rw (at, goes) fails)
                  | inr rest ↦ inr (λ r a b. from_row r row all rest a b)
                ]
        ]
      where
        from_row :
            (r row : ℕ)
            → RowFrom row 0
            → ((r : ℕ) → row + 1 ≤ r → r < cloud.height → RowFrom r 0)
            → row ≤ r
            → r < cloud.height
            → RowFrom r 0
        from_row r row all rest a b = elim (ℕ_discrete row r) [
          | yes same ↦ subst (λ t. RowFrom t 0) same all
          | no later ↦ rest r (omega (arith, a, later)) b
        ]

    pub loops-cases :
        (filter_rows N A H M p f cloud cloud.height 0 no_points ≡ throws short_data)
        ⊎ IsComplete M cloud
    loops-cases = elim (ℕ_discrete cloud.width 0) [
      | yes none_wide ↦ inr (λ r c a b. absurd (omega (arith, none_wide, b)))
      | no wide ↦
          elim (rows-cases cloud.height 0 no_points (omega (arith, wide)) (omega arith)
            (omega arith)) [
              | inl fails ↦ inl fails
              | inr all ↦ inr (λ r c a b. all r (omega arith) a c (omega arith) b)
            ]
    ]

  fields_throw :
      (cloud : PointCloud2 M) (node : LidarAngleFilterNode N M) (failure : Failure)
      → find_fields M cloud ≡ throws failure
      → try_filter N A H M cloud node ≡ throws failure
  unfolding try_filter
  fields_throw cloud node failure e = rw e refl

  loops_throw :
      (cloud : PointCloud2 M) (node : LidarAngleFilterNode N M) (f : Fields)
      → find_fields M cloud ≡ ok f
      → filter_rows N A H M node.parameters f cloud cloud.height 0 no_points ≡ throws short_data
      → try_filter N A H M cloud node ≡ throws short_data
  unfolding try_filter
  loops_throw cloud node f e short = rw (e, short) refl

  -- Every scan whose data fits in memory: `filter_cloud` reads nothing out of bounds and returns.
  -- Either the node is as before (an exception, which publishes nothing and counts nothing), or the
  -- fields were found, the scan has all points that its dimensions declare, and the node is that of
  -- a complete scan.
  pub filter_cloud-total :
      (cloud : PointCloud2 M) (node : LidarAngleFilterNode N M)
      → HasSizes cloud
      → (node' : LidarAngleFilterNode N M) × (filter_cloud N A H M cloud node ≡ some node')
        × ((node' ≡ node)
            ⊎ ((f : Fields) × (find_fields M cloud ≡ ok f)
                × IsComplete M cloud
                × (node' ≡ outcome N A H M cloud f node)))
  filter_cloud-total cloud node sizes = elim (find_fields-Ends M cloud) [
    | inl (failure, e) ↦ (
      node,
      filter_cloud-throws N A H M cloud node failure (fields_throw cloud node failure e),
      inl refl,
    )
    | inr (f, e) ↦
        elim (loops-cases node.parameters f cloud sizes (find_fields-AreInside M cloud f e)) [
          | inl short ↦ (
            node,
            filter_cloud-throws N A H M cloud node short_data (loops_throw cloud node f e short),
            inl refl,
          )
          | inr complete ↦ (
            outcome N A H M cloud f node,
            filter_cloud_lem N A H M cloud f node e sizes.small complete,
            inr (f, e, complete, refl),
          )
        ]
  ]
