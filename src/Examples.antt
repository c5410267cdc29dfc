-- ===== src/Examples.antt =====
-- Concrete inputs: each property is applied to one, and a few runs are computed.
mod Queues
mod Indices
mod Sources
mod Callbacks
mod Waypoints
mod Timers
mod Maps
mod Scans
mod Words
mod Setup
mod Exit
mod Tags
use auto_fastlio.Prelude.{
  ℕ, ◌+◌, ◌-◌, ◌*◌, ◌/◌, ltb, List, [], ◌∷◌, replicate, ◌≡◌, refl, ◌≢◌, true, false, arith,
}
use auto_fastlio.Prelude.Int.{ℤ, pos, negsuc, minus_one}
use auto_fastlio.Numerics.{Numerics}
use auto_fastlio.Comm.{
  PointXyzlt, PointPacket, StoragePacket, UserLivoxLidarConfig, off, livox_lidar_type,
}
use auto_fastlio.Ldq.{null, block, LidarDataQueue, blank}
use auto_fastlio.Ldq.Refine.{Entry, Holds}
use auto_fastlio.Lds.{LidarDevice}

abbrev pub magnitude : ℤ → ℕ
magnitude (pos n) = n
magnitude (negsuc n) = n + 1

-- Whole numbers in place of floating-point ones.
abbrev pub whole_numbers : Numerics
whole_numbers = record {
  Float = ℕ;
  Double = ℕ;
  of_int = magnitude;
  of_nat = λ n. n;
  literal = λ a b. a / b;
  widen = λ n. n;
  narrow = λ n. n;
  trunc = λ n. n;
  byte = λ n. n;
  add = λ a b. a + b;
  sub = λ a b. a - b;
  mul = λ a b. a * b;
  div = λ a b. a / b;
  neg = λ a. a;
  sin = λ a. a;
  cos = λ a. a;
  lt = ltb;
}

abbrev pub point : PointXyzlt ℕ
point = record { x = 1; y = 2; z = 3; intensity = 40; tag = 0; line = 1; offset_time = 1007 }

abbrev pub entry : Entry ℕ
entry = record { base_time = 1000; points = point ∷ [] }

abbrev pub packet : PointPacket ℕ
packet = record { handle = 5; lidar_type = livox_lidar_type; points_num = 1; points = point ∷ [] }

abbrev pub stored : StoragePacket ℕ
stored = record {
  lidar_type = 0;
  handle = 0;
  base_time = 1000;
  points_num = 1;
  points = point ∷ [];
}

-- Queues of four slots: empty, and with one entry.
abbrev pub empty_queue : LidarDataQueue ℕ
empty_queue = record {
  storage_packet = block (replicate 4 blank);
  rd_idx = 0;
  wr_idx = 0;
  mask = 3;
  size = 4;
}

abbrev pub full_block : List (StoragePacket ℕ)
full_block = stored ∷ replicate 3 blank

abbrev pub one_queue : LidarDataQueue ℕ
one_queue = record { storage_packet = block full_block; rd_idx = 0; wr_idx = 1; mask = 3; size = 4 }

pub empty_queue-Holds : Holds 4 empty_queue []
empty_queue-Holds = record {
  k = 2;
  buf = replicate 4 blank;
  storage = refl;
  len = refl;
  width = omega arith;
  cap_eq = refl;
  mask = refl;
  size = refl;
  rd_small = omega arith;
  wr_eq = refl;
  fits = omega arith;
  shows = tt;
}

pub one_queue-Holds : Holds 4 one_queue (entry ∷ [])
one_queue-Holds = record {
  k = 2;
  buf = full_block;
  storage = refl;
  len = refl;
  width = omega arith;
  cap_eq = refl;
  mask = refl;
  size = refl;
  rd_small = omega arith;
  wr_eq = refl;
  fits = omega arith;
  shows = (refl, refl, refl, tt);
}

-- A device with the user's choice of a data type and of dual emission, and a queue.
abbrev pub user_config : UserLivoxLidarConfig ℕ
user_config = record {
  handle = 5;
  pcl_data_type = pos 1;
  pattern_mode = minus_one;
  blind_spot_set = minus_one;
  dual_emit_en = pos 1;
  extrinsic_param = record { roll = 0; pitch = 0; yaw = 0; x = pos 0; y = pos 0; z = pos 0 };
  set_bits = 0;
  get_bits = 0;
}

abbrev pub device_with : LidarDataQueue ℕ → LidarDevice ℕ
device_with queue = record {
  lidar_type = livox_lidar_type;
  handle = 5;
  data_src = 0;
  connect_state = off;
  queue = queue;
  imu_data = [];
  firmware_ver = 0;
  livox_config = user_config;
}
