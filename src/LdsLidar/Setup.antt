-- ===== src/LdsLidar/Setup.antt =====
-- The devices after the set-up of livox_ros_driver2/src/lds_lidar.cpp, and its end.
use auto_fastlio.Prelude.{
  ℕ, ◌<◌, ◌≡◌, ◌≢◌, sym, ap, subst, ◌⊎◌, true, false, none, some, List, [], ◌∷◌, ◌++◌, length,
  get_elem?, set, arith,
}
use auto_fastlio.Comm.{UserLivoxLidarConfig, livox_lidar_type, max_source_lidar}
use auto_fastlio.Numerics.{Numerics}
use auto_fastlio.CacheIndex.{get_free_index, get_index}
use auto_fastlio.CacheIndex.Invariant.{IsConsistent}
use auto_fastlio.Config.{Json}
use auto_fastlio.Config.Entries.{All}
use auto_fastlio.PubHandler.Queue.{add_lidars_ext_param}
use auto_fastlio.Lds.{LidarDevice}
use auto_fastlio.LdsLidar.{
  LivoxSdk, LdsLidar, sdk_uninit, has_livox, fill_device, init_lds_lidar, deinit_lds_lidar,
  lidar_param_of,
}

module _ (N : Numerics) where
  -- The device of the handle's index has a user configuration.
  abbrev HasDevice : LdsLidar N → UserLivoxLidarConfig N.Float → Type 0
  HasDevice s c =
      (i : ℕ) × (lidar : LidarDevice N.Float) × (get_index s.lds.cache_index livox_lidar_type
          c.handle
        ≡ some i)
      × (get_elem? s.lds.lidars i ≡ some lidar)
      × (lidar.livox_config ≡ c)
      × (lidar.handle ≡ c.handle)

  -- All 32 slots are taken.
  abbrev pub IsFull : LdsLidar N → Type 0
  IsFull s = (n : ℕ) → n < max_source_lidar → get_elem? s.lds.cache_index.index_cache n ≡ some true

  -- The device has it, or there was no slot left for its handle.
  abbrev pub IsSettled : LdsLidar N → UserLivoxLidarConfig N.Float → Type 0
  IsSettled s c =
      HasDevice s c ⊎ ((get_index s.lds.cache_index livox_lidar_type c.handle ≡ none) × IsFull s)

  pub record HasSlots (s : LdsLidar N) : Type 0 where
    pub index : IsConsistent s.lds.cache_index
    pub lidars : length s.lds.lidars ≡ max_source_lidar

  -- The handle of a configuration is not among those of others.
  abbrev pub IsApart : UserLivoxLidarConfig N.Float → List (UserLivoxLidarConfig N.Float) → Type 0
  IsApart c = All (λ d. d.handle ≢ c.handle)

  abbrev pub AreDistinct : List (UserLivoxLidarConfig N.Float) → Type 0
  AreDistinct [] = Unit {0}
  AreDistinct (c ∷ cs) = IsApart c cs × AreDistinct cs

  abbrev Step : LivoxSdk → UserLivoxLidarConfig N.Float → LdsLidar N → Type 0
  Step sdk c s =
      (s' : LdsLidar N) × (fill_device N sdk c s ≡ some s')
      × HasSlots s'
      × IsSettled s' c
      × ((d : UserLivoxLidarConfig N.Float) → c.handle ≢ d.handle → IsSettled s d → IsSettled s' d)

  -- The data source with a device written, and the device.
  abbrev filled :
      LivoxSdk → UserLivoxLidarConfig N.Float → LidarDevice N.Float → LidarDevice N.Float
  filled sdk c lidar = record lidar {
    lidar_type = livox_lidar_type;
    livox_config = c;
    handle = c.handle;
  }

  abbrev with_device :
      LivoxSdk → UserLivoxLidarConfig N.Float → LdsLidar N → ℕ → LidarDevice N.Float → LdsLidar N
  with_device sdk c s i lidar = record s {
    lds = record s.lds {
      cache_index = (get_free_index s.lds.cache_index livox_lidar_type c.handle).1;
      lidars = set s.lds.lidars i (filled sdk c lidar);
    };
    pub_handler = add_lidars_ext_param (lidar_param_of N sdk c) s.pub_handler;
  }

  abbrev pub uninit_called : LdsLidar N → LdsLidar N
  uninit_called s = record s { sdk_calls = s.sdk_calls ++ sdk_uninit ∷ [] }

  deinit_live :
      (s : LdsLidar N)
      → s.is_initialized ≡ true
      → has_livox s.lidar_summary_info ≡ true
      → deinit_lds_lidar N s ≡ (true, uninit_called s)
  unfolding deinit_lds_lidar
  deinit_live s ready livox = ground (arith, ready, livox)

  init_refused :
      (J : Json N.Float) (sdk : LivoxSdk) (path : List ℕ) (s : LdsLidar N)
      → s.is_initialized ≡ true
      → init_lds_lidar N J sdk path s ≡ some (false, s)
  unfolding init_lds_lidar
  init_refused J sdk path s ready = ground (arith, ready)

  -- `DeInitLdsLidar` leaves the data source initialised: on one with a Livox lidar a second call
  -- answers 0 as well and shuts the SDK down again, and `InitLdsLidar` answers false after it.
  pub deinit_lds_lidar-twice :
      (J : Json N.Float) (sdk : LivoxSdk) (path : List ℕ) (s : LdsLidar N)
      → s.is_initialized ≡ true
      → has_livox s.lidar_summary_info ≡ true
      → let once = (deinit_lds_lidar N s).1 in
        (deinit_lds_lidar N once ≡ (true, uninit_called (uninit_called s)))
        × (init_lds_lidar N J sdk path once ≡ some (false, once))
  deinit_lds_lidar-twice J sdk path s ready livox =
      let first = deinit_live s ready livox in
      subst
        (λ t.
          (deinit_lds_lidar N t ≡ (true, uninit_called (uninit_called s)))
          × (init_lds_lidar N J sdk path t ≡ some (false, t)))
        (ap (λ r. r.1) (sym first))
        (deinit_live (uninit_called s) ready livox, init_refused J sdk path (uninit_called s) ready)
