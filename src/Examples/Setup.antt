-- ===== src/Examples/Setup.antt =====
-- The configuration of two entries, the devices that it sets up, and the first packet of a lidar.
use auto_fastlio.Prelude.{
  ℕ, ◌≡◌, refl, true, false, not, ◌&&◌, Option, none, some, List, [], ◌∷◌, ◌==◌, if◌then◌else◌,
  length, map, replicate,
}
use auto_fastlio.Prelude.Int.{pos, negsuc, minus_one}
use auto_fastlio.Prelude.Decimal.{text_eq}
use auto_fastlio.Comm.{UserLivoxLidarConfig}
use auto_fastlio.Comm.Text.{codes}
use auto_fastlio.CacheIndex.{init}
use auto_fastlio.Config.{
  Json, document, Parsed, parse, parse_document, parse_user_configs, parse_entries, entry_configs,
  parse_entry, member_or,
}
use auto_fastlio.Config.Entries.{All, HasInt8Settings, addresses, parse_lem}
use auto_fastlio.PubHandler.{RawPacket}
use auto_fastlio.PubHandler.Queue.{PubProcess}
use auto_fastlio.LdsLidar.{LivoxSdk, LdsLidar, deinit_lds_lidar, init_lds_lidar}
use auto_fastlio.LdsLidar.Setup.{deinit_lds_lidar-twice, uninit_called}
use auto_fastlio.Examples.{whole_numbers, device_with, empty_queue, user_config, point}
use auto_fastlio.Examples.Timers.{echo_packet, four_points, handler_with, timers}

-- Value 0 is the document, 1 its array, 2 and 3 the entries, of which only 2 has an address and a
-- blind spot of 200; 4 is the address and 5 the number.
abbrev member : ℕ → List ℕ → Option ℕ
member value name =
    if (value == 0) && text_eq name (codes "lidar_configs")
    then some 1
    else if (value == 2) && text_eq name (codes "ip")
    then some 4
    else if (value == 2) && text_eq name (codes "blind_spot_set")
    then some 5
    else none

abbrev json : Json ℕ
json = record {
  Value = ℕ;
  load = λ path. document 0;
  find_member = λ value name. some (member value name);
  is_object = λ value. true;
  elements = λ value. if value == 1 then some (2 ∷ 3 ∷ []) else none;
  get_int = λ value. some (pos 200);
  get_uint = λ value. none;
  get_float = λ value. none;
  get_string = λ value. some (codes "192.168.1.3");
  inet_addr = λ text. 50_440_384;
}

-- The blind spot of 200 comes out as -56.
abbrev parsed : Parsed (List (UserLivoxLidarConfig ℕ))
parsed = record {
  answer = true;
  value =
      record user_config {
        handle = 50_440_384;
        pcl_data_type = minus_one;
        dual_emit_en = minus_one;
        blind_spot_set = negsuc 55;
      }
      ∷ [];
  left_open = 1;
}

parse_run : parse json 0 [] [] ≡ some parsed
unfolding parse parse_document parse_user_configs parse_entries entry_configs parse_entry member_or
    text_eq
parse_run = refl

parse_lem_example :
    (texts : List (List ℕ)) × (addresses json 0 (2 ∷ 3 ∷ []) ≡ some texts)
    × (map (λ c. c.handle) parsed.value ≡ map json.inet_addr texts)
    × All HasInt8Settings parsed.value
    × (true ≡ not (length parsed.value == 0))
    × (parsed.left_open ≡ (if parsed.answer then 1 else 0))
unfolding text_eq
parse_lem_example = parse_lem json 0 [] [] 0 1 2 (3 ∷ []) parsed refl refl refl parse_run

abbrev process : PubProcess ℕ
process = record {
  timers = timers (point ∷ []) [];
  raw_packet_queue = [];
  lidar_extrinsics = [];
  is_quit = false;
  point_process_thread = true;
  imu_callback = true;
  imu_sent = [];
}

-- The first packet of the lidar 9.
abbrev first_packet : RawPacket
first_packet = record echo_packet { handle = 9 }

abbrev processed : PubProcess ℕ
processed = record process {
  timers = record (timers (point ∷ []) []) {
    handlers = (5, handler_with (point ∷ [])) ∷ (9, handler_with four_points) ∷ [];
  };
}

abbrev sdk : LivoxSdk
sdk = record { init_answer = λ path. true; cartesian_low_data = pos 2 }

abbrev source : LdsLidar whole_numbers
source = record {
  lds = record {
    lidar_count = 32;
    lidars = replicate 32 (device_with empty_queue);
    pcd_semaphore = 0;
    imu_semaphore = 0;
    cache_index = init;
    publish_freq = 10;
    data_src = 0;
    request_exit = false;
  };
  path = codes "config.json";
  lidar_summary_info = record { lidar_type = 8 };
  is_initialized = true;
  pub_handler = process;
  sdk_calls = [];
}

abbrev two_configs : List (UserLivoxLidarConfig ℕ)
two_configs = user_config ∷ record user_config { handle = 6 } ∷ []

deinit_lds_lidar-twice_example :
    let once = (deinit_lds_lidar whole_numbers source).1 in
    (deinit_lds_lidar whole_numbers once
      ≡ (true, uninit_called whole_numbers (uninit_called whole_numbers source)))
    × (init_lds_lidar whole_numbers json sdk [] once ≡ some (false, once))
deinit_lds_lidar-twice_example = deinit_lds_lidar-twice whole_numbers json sdk [] source refl refl
