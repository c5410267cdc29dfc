-- ===== src/Lds/Deliveries.antt =====
-- The packets of a frame, and what a queue receives of them.
use auto_fastlio.Prelude.{
  ℕ, zero, suc, ◌+◌, ◌≡◌, Option, none, some, List, [], ◌∷◌, ◌==◌, if◌then◌else◌, get_elem?, ◌>>=◌,
  >>=-eq-some, read,
}
use auto_fastlio.Comm.{PointPacket, PointFrame, PointXyzlt}
use auto_fastlio.CacheIndex.{CacheIndex, get_index}
use auto_fastlio.Ldq.Refine.{Entry}
use auto_fastlio.Lds.Ready.{offered, capacity}

-- One packet of a frame, as far as the driver reads it.
pub record Delivery (F : Type 0) : Type 0 where
  pub lidar_type : ℕ
  pub handle : ℕ
  pub entry : Entry F

-- The packets i, i + 1, … of a frame; `none` if one of them cannot be read.
unfoldable pub deliveries : {F : Type 0} → ℕ → ℕ → PointFrame F → Option (List (Delivery F))
deliveries zero i frame = some []
deliveries (suc rounds) i frame = get_elem? frame.lidar_point i >>= λ p.
    get_elem? frame.base_time i >>= λ t. read p.points_num p.points >>= λ pts.
    deliveries rounds (i + 1) frame >>= λ rest. some (
      record {
        lidar_type = p.lidar_type;
        handle = p.handle;
        entry = record { base_time = t; points = pts };
      }
      ∷ rest)

abbrev pub delivery : {F : Type 0} → PointPacket F → ℕ → List (PointXyzlt F) → Delivery F
delivery p t pts = record {
  lidar_type = p.lidar_type;
  handle = p.handle;
  entry = record { base_time = t; points = pts };
}

pub deliveries-zero :
    {F : Type 0} (i : ℕ) (frame : PointFrame F) {ds : List (Delivery F)}
    → deliveries zero i frame ≡ some ds
    → ds ≡ []
unfolding deliveries
deliveries-zero i frame e = cc

pub deliveries-suc :
    {F : Type 0} (rounds i : ℕ) (frame : PointFrame F) {ds : List (Delivery F)}
    → deliveries (suc rounds) i frame ≡ some ds
    → (p : PointPacket F) × (t : ℕ) × (pts : List (PointXyzlt F)) × (rest : List (Delivery F))
      × (get_elem? frame.lidar_point i ≡ some p)
      × (get_elem? frame.base_time i ≡ some t)
      × (read p.points_num p.points ≡ some pts)
      × (deliveries rounds (i + 1) frame ≡ some rest)
      × (ds ≡ delivery p t pts ∷ rest)
unfolding deliveries
deliveries-suc rounds i frame e =
    let (p, at_p, e₁) = >>=-eq-some (get_elem? frame.lidar_point i) _ e in
    let (t, at_t, e₂) = >>=-eq-some (get_elem? frame.base_time i) _ e₁ in
    let (pts, readable, e₃) = >>=-eq-some (read p.points_num p.points) _ e₂ in
    let (rest, later, e₄) = >>=-eq-some (deliveries rounds (i + 1) frame) _ e₃ in
    (p, t, pts, rest, at_p, at_t, readable, later, cc)

-- What the queue of device `index` keeps of one packet: it is offered those of its own handle.
unfoldable pub accepted :
    {F : Type 0} → ℕ → CacheIndex → ℕ → List (Entry F) → Delivery F → List (Entry F)
accepted capacity cache index es d = elim (get_index cache d.lidar_type d.handle) [
  | none ↦ es
  | some i ↦ if i == index then offered capacity es d.entry else es
]

-- And what it holds after all of them, in order.
unfoldable pub received :
    {F : Type 0} → ℕ → CacheIndex → ℕ → List (Entry F) → List (Delivery F) → List (Entry F)
received capacity cache index es [] = es
received capacity cache index es (d ∷ ds) =
    received capacity cache index (accepted capacity cache index es d) ds
