-- ===== src/Examples/Callbacks.antt =====
-- The callbacks of the SDK.
use auto_fastlio.Prelude.{
  true, ◌≡◌, refl, ◌>>=◌, some, List, [], ◌∷◌, false, get_elem?, replicate, arith,
}
use auto_fastlio.Comm.{off, livox_lidar_type}
use auto_fastlio.CacheIndex.{get_index, init}
use auto_fastlio.Callback.{
  failure, Session, pcl_data_type, dual_emit, success, timeout, lidar_info_change_callback,
  set_work_mode_normal, enable_imu_data, value_of,
}
use auto_fastlio.Callback.Pending.{Waiting}
use auto_fastlio.Callback.Sampling.{after_answers, configured}
use auto_fastlio.CacheIndex.Invariant.{IsConsistent, init-IsConsistent}
use auto_fastlio.Callback.Sampling.{Answer}
use auto_fastlio.Callback.Answers.{setting_callbacks, Follows, found_then_answers, add_lidar_lem}
use auto_fastlio.Examples.{whole_numbers, one_queue, device_with, user_config}
use auto_fastlio.Examples.Indices.{one_device, one_device_known, none_known, first_answer}

abbrev session : Session whole_numbers
session = record {
  lds = record {
    lidar_count = 1;
    lidars = replicate 2 (device_with one_queue);
    pcd_semaphore = 0;
    imu_semaphore = 0;
    cache_index = one_device;
    publish_freq = 10;
    data_src = 0;
    request_exit = false;
  };
  requests = [];
}

abbrev nobody : Waiting
nobody = record {
  on_data_type = false;
  on_pattern = false;
  on_blind_spot = false;
  on_dual_emit = false;
}

-- The SDK times out once on the data type, refuses the other setting once, and then accepts both.
abbrev answers : List Answer
answers =
    (pcl_data_type, timeout, false)
    ∷ (dual_emit, failure, true)
    ∷ (dual_emit, success, false)
    ∷ (pcl_data_type, success, true)
    ∷ []

found_then_answers_example :
    (session' : Session whole_numbers) × ((lidar_info_change_callback whole_numbers 5 session
        >>= setting_callbacks whole_numbers 5 answers)
      ≡ some session')
    × Follows whole_numbers 5 0 off (after_answers (configured user_config nobody) answers) session'
    × (get_elem? session'.lds.lidars 1 ≡ get_elem? session.lds.lidars 1)
found_then_answers_example =
    found_then_answers whole_numbers 5 0 nobody session (device_with one_queue) 1 answers
      (tt, (refl, (tt, (tt, tt)))) one_device_known refl refl (λ e. omega (arith, e))

-- Both settings are answered: nothing waits.
all_answered : after_answers (configured user_config nobody) answers ≡ nobody
unfolding configured value_of
all_answered = refl

abbrev new_session : Session whole_numbers
new_session = record session { lds = record session.lds { cache_index = init } }

add_lidar_lem_example :
    (session' : Session whole_numbers) × (lidar_info_change_callback whole_numbers 5 new_session
      ≡ some session')
    × (get_elem? session'.lds.lidars 0
        ≡ some (record (device_with one_queue) { lidar_type = livox_lidar_type }))
    × IsConsistent session'.lds.cache_index
    × (get_index session'.lds.cache_index livox_lidar_type 5 ≡ some 0)
    × (get_index session'.lds.cache_index livox_lidar_type 6 ≡ get_index init livox_lidar_type 6)
    × (get_elem? session'.lds.lidars 1 ≡ get_elem? new_session.lds.lidars 1)
    × (session'.requests ≡ set_work_mode_normal 5 ∷ enable_imu_data 5 ∷ [])
add_lidar_lem_example =
    add_lidar_lem whole_numbers 5 0 new_session (device_with one_queue) 6 1 init-IsConsistent
      (λ e. omega (arith, e)) (λ e. omega (arith, e)) none_known first_answer refl
