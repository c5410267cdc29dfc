-- ===== src/Callback/Answers.antt =====
-- The callbacks of livox_lidar_callback.cpp in sequence: a device is found, and then the answers
-- about its settings come in.
use auto_fastlio.Prelude.{
  ℕ, inl, inr, Bool, true, false, Option-cases, ◌≡◌, ◌≢◌, refl, sym, ◌∙◌, Option, some, none, ◌++◌,
  List, [], ◌∷◌, get_elem?, ◌>>=◌, get_elem?-set_self, get_elem?-set_ne, get_elem?-some-lt,
}
use auto_fastlio.Comm.{LidarConnectState, livox_lidar_type}
use auto_fastlio.Numerics.{Numerics}
use auto_fastlio.CacheIndex.{get_index, get_free_index}
use auto_fastlio.CacheIndex.Invariant.{IsConsistent}
use auto_fastlio.CacheIndex.Answers.{get_free_index-found}
use auto_fastlio.Lds.{LidarDevice}
use auto_fastlio.Callback.{
  Setting, Status, success, timeout, failure, configure, acknowledge, Session, ask, put_lidar,
  start_lidar, add_lidar, request_of, set_install_attitude, set_work_mode_normal, enable_imu_data,
  lidar_info_change_callback, setting_callback,
}
use auto_fastlio.Callback.Pending.{Waiting, bits_of}
use auto_fastlio.Callback.Sampling.{
  Answer, Stands, after_answer, after_answers, configured, configure-Stands, acknowledge-Stands,
}

-- A failure comes with a response.
abbrev pub HasResponse : Answer → Type 0
HasResponse (s, success, responded) = Unit {0}
HasResponse (s, timeout, responded) = Unit {0}
HasResponse (s, failure, responded) = responded ≡ true

abbrev pub HaveResponses : List Answer → Type 0
HaveResponses [] = Unit {0}
HaveResponses (a ∷ answers) = HasResponse a × HaveResponses answers

module _ (N : Numerics) (handle : ℕ) where
  -- A failure without a response follows a null pointer, whichever known device it is about.
  pub setting_callback-no_response :
      (s : Setting) (session : Session N) (index : ℕ)
      → get_index session.lds.cache_index livox_lidar_type handle ≡ some index
      → setting_callback N s failure false handle session ≡ none
  unfolding setting_callback
  setting_callback-no_response s session index known =
      elim (Option-cases (get_elem? session.lds.lidars index)) [
        | inl missing ↦ rw (known, setting_callback, missing) refl
        | inr (lidar, at) ↦ rw (known, setting_callback, at) refl
      ]

  -- The answers of the SDK, as they come.
  unfoldable pub setting_callbacks : List Answer → Session N → Option (Session N)
  setting_callbacks [] session = some session
  setting_callbacks ((s, status, responded) ∷ answers) session =
      setting_callback N s status responded handle session >>= λ session'.
      setting_callbacks answers session'

  module _ (index : ℕ) (before : LidarConnectState) where
    -- The device has its index, and its bits and state are those of the settings that wait.
    pub record Follows (w : Waiting) (session : Session N) : Type 0 where
      pub lidar : LidarDevice N.Float
      pub known : get_index session.lds.cache_index livox_lidar_type handle ≡ some index
      pub at : get_elem? session.lds.lidars index ≡ some lidar
      pub stands : Stands w before lidar

    setting_callback-Follows :
        (s : Setting) (status : Status) (responded : Bool) (w : Waiting) (session : Session N)
        (j : ℕ)
        → HasResponse (s, status, responded)
        → Follows w session
        → j ≢ index
        → (session' : Session N) × (setting_callback N s status responded handle session
            ≡ some session')
          × Follows (after_answer w (s, status, responded)) session'
          × (get_elem? session'.lds.lidars j ≡ get_elem? session.lds.lidars j)
    unfolding setting_callback put_lidar ask
    setting_callback-Follows s success responded w session j given h other = (
      put_lidar N session index (acknowledge s h.lidar),
      rw (h.known, setting_callback, h.at) refl,
      record {
        lidar = acknowledge s h.lidar;
        known = h.known;
        at =
            get_elem?-set_self session.lds.lidars index (acknowledge s h.lidar)
              (get_elem?-some-lt session.lds.lidars index h.lidar h.at);
        stands = acknowledge-Stands s before h.lidar w h.stands;
      },
      get_elem?-set_ne session.lds.lidars index j (acknowledge s h.lidar) (λ e. other (sym e)),
    )
    setting_callback-Follows s timeout responded w session j given h other = (
      ask N session (request_of s handle h.lidar.livox_config ∷ []),
      rw (h.known, setting_callback, h.at) refl,
      record { lidar = h.lidar; known = h.known; at = h.at; stands = h.stands },
      refl,
    )
    setting_callback-Follows s failure responded w session j given h other =
        (session, rw (h.known, setting_callback, h.at, given) refl, h, refl)

    -- Any number of answers: what waits is what has not been answered with success, the device is
    -- sampled as soon as nothing waits, and no other device changes.
    pub setting_callbacks-Follows :
        (answers : List Answer) (w : Waiting) (session : Session N) (j : ℕ)
        → HaveResponses answers
        → Follows w session
        → j ≢ index
        → (session' : Session N) × (setting_callbacks answers session ≡ some session')
          × Follows (after_answers w answers) session'
          × (get_elem? session'.lds.lidars j ≡ get_elem? session.lds.lidars j)
    unfolding setting_callbacks
    setting_callbacks-Follows [] w session j given h other = (session, refl, h, refl)
    setting_callbacks-Follows ((s, status, responded) ∷ answers) w session j (given, more) h other =
        let (next, one, h', same) =
          setting_callback-Follows s status responded w session j given h other in
        let (last, rest, h'', same') =
          setting_callbacks-Follows answers (after_answer w (s, status, responded)) next j more h'
            other in
        (last, rw one rest, h'', same' ∙ same)

  -- The device that `LidarInfoChangeCallback` finds is given the settings of its configuration: it
  -- waits for those that the configuration holds besides what it waited for before, it is sampled
  -- at once if that is nothing, and no other device changes.
  pub lidar_info_change_callback-Follows :
      (index : ℕ) (w : Waiting) (session : Session N) (lidar : LidarDevice N.Float) (j : ℕ)
      → get_index session.lds.cache_index livox_lidar_type handle ≡ some index
      → get_elem? session.lds.lidars index ≡ some lidar
      → lidar.livox_config.set_bits ≡ bits_of w
      → j ≢ index
      → (session' : Session N) × (lidar_info_change_callback N handle session ≡ some session')
        × Follows index lidar.connect_state (configured lidar.livox_config w) session'
        × (get_elem? session'.lds.lidars j ≡ get_elem? session.lds.lidars j)
  unfolding lidar_info_change_callback put_lidar ask start_lidar
  lidar_info_change_callback-Follows index w session lidar j known at bits other =
      let config = lidar.livox_config in
      let lidar' = (configure handle lidar).0 in
      let attitude = set_install_attitude config.handle config.extrinsic_param ∷ [] in
      (
        start_lidar N handle
            (ask N (put_lidar N session index lidar') ((configure handle lidar).1 ++ attitude)),
        rw (known, lidar_info_change_callback, at) refl,
        record {
          lidar = lidar';
          known = known;
          at =
              get_elem?-set_self session.lds.lidars index lidar'
                (get_elem?-some-lt session.lds.lidars index lidar at);
          stands = configure-Stands handle lidar w bits;
        },
        get_elem?-set_ne session.lds.lidars index j lidar' (λ e. other (sym e)),
      )

  -- A known device whose bits are those of w is found, and then any answers about its settings come,
  -- those of a failure with a response (without one the callback follows a null pointer):
  -- all callbacks are defined, what waits is w and the settings that its configuration holds, less
  -- those answered with success, the device is sampled if that is nothing and in its old state if
  -- not, and any other device j is as before.
  pub found_then_answers :
      (index : ℕ) (w : Waiting) (session : Session N) (lidar : LidarDevice N.Float) (j : ℕ)
      (answers : List Answer)
      → HaveResponses answers
      → get_index session.lds.cache_index livox_lidar_type handle ≡ some index
      → get_elem? session.lds.lidars index ≡ some lidar
      → lidar.livox_config.set_bits ≡ bits_of w
      → j ≢ index
      → (session' : Session N) × ((lidar_info_change_callback N handle session
            >>= setting_callbacks answers)
          ≡ some session')
        × Follows index lidar.connect_state
            (after_answers (configured lidar.livox_config w) answers)
            session'
        × (get_elem? session'.lds.lidars j ≡ get_elem? session.lds.lidars j)
  found_then_answers index w session lidar j answers given known at bits other =
      let (next, one, h, same) =
        lidar_info_change_callback-Follows index w session lidar j known at bits other in
      let (last, rest, h', same') =
        setting_callbacks-Follows index lidar.connect_state answers
          (configured lidar.livox_config w) next j given h other in
      (last, rw one rest, h', same' ∙ same)

  -- With a consistent device index, a device that is not known and for which there is a free index
  -- gets that index, by which it is found from then on, and its type, and nothing else: its address,
  -- state and queues are as they were, every other device j and the index of every other handle
  -- stay, the device index is still consistent, and what is requested of the SDK is the work mode
  -- and the IMU data, no setting.
  pub add_lidar_lem :
      (index : ℕ) (session : Session N) (lidar : LidarDevice N.Float) (other j : ℕ)
      → IsConsistent session.lds.cache_index
      → other ≢ handle
      → j ≢ index
      → get_index session.lds.cache_index livox_lidar_type handle ≡ none
      → (get_free_index session.lds.cache_index livox_lidar_type handle).0 ≡ some index
      → get_elem? session.lds.lidars index ≡ some lidar
      → (session' : Session N) × (lidar_info_change_callback N handle session ≡ some session')
        × (get_elem? session'.lds.lidars index
            ≡ some (record lidar { lidar_type = livox_lidar_type }))
        × IsConsistent session'.lds.cache_index
        × (get_index session'.lds.cache_index livox_lidar_type handle ≡ some index)
        × (get_index session'.lds.cache_index livox_lidar_type other
            ≡ get_index session.lds.cache_index livox_lidar_type other)
        × (get_elem? session'.lds.lidars j ≡ get_elem? session.lds.lidars j)
        × (session'.requests
            ≡ session.requests ++ set_work_mode_normal handle ∷ enable_imu_data handle ∷ [])
  unfolding lidar_info_change_callback add_lidar start_lidar ask put_lidar
  add_lidar_lem index session lidar other j consistent apart beside unknown free at =
      let (kept, _, found, same, _) =
        get_free_index-found consistent handle other index apart free in
      let lidar' = record lidar { lidar_type = livox_lidar_type } in
      let cache = (get_free_index session.lds.cache_index livox_lidar_type handle).1 in
      (
        start_lidar N handle (
            put_lidar N (record session { lds = record session.lds { cache_index = cache } }) index
              lidar'),
        rw (unknown, lidar_info_change_callback, free, add_lidar, at) refl,
        get_elem?-set_self session.lds.lidars index lidar'
            (get_elem?-some-lt session.lds.lidars index lidar at),
        kept,
        found,
        same,
        get_elem?-set_ne session.lds.lidars index j lidar' (λ e. beside (sym e)),
        refl,
      )
