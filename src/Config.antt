-- ===== src/Config.antt =====
-- The configuration file: livox_ros_driver2/src/parse_cfg_file/parse_cfg_file.cpp and
-- parse_livox_lidar_cfg.cpp. RapidJSON and the file system are the record `Json`; `inet_addr` is
-- its own. `none` is an assertion of RapidJSON that fails.
pub mod Entries
use auto_fastlio.Prelude.{
  ℕ, ◌+◌, ◌%◌, Bool, true, false, not, Option, none, some, List, [], ◌∷◌, ◌++◌, ◌>>=◌, length, ◌==◌,
  if◌then◌else◌,
}
use auto_fastlio.Prelude.Int.{ℤ, pos, minus_one, int8_of, uint8_of}
use auto_fastlio.Comm.{UserLivoxLidarConfig, ExtParameter}
use auto_fastlio.Comm.Text.{codes}
use auto_fastlio.Numerics.{Numerics}

-- What `fopen` and `ParseStream` make of a path.
pub data Loaded (V : Type 0) : Type 0 where
  no_file : Loaded V
  parse_error : Loaded V
  document : V → Loaded V

-- Values of JSON. `find_member` fails on a value that is not an object, and answers `some none` for
-- a member that is missing; the others fail on a value of another kind.
pub record Json (F : Type 0) : Type 1 where
  pub Value : Type 0
  pub load : List ℕ → Loaded Value
  pub find_member : Value → List ℕ → Option (Option Value)
  pub is_object : Value → Bool
  pub elements : Value → Option (List Value)
  pub get_int : Value → Option ℤ
  pub get_uint : Value → Option ℕ
  pub get_float : Value → Option F
  pub get_string : Value → Option (List ℕ)
  pub inet_addr : List ℕ → ℕ

-- `LidarSummaryInfo`
pub record LidarSummaryInfo : Type 0 where
  pub lidar_type : ℕ

-- The result of a parser: what it answers, what it leaves in its argument, and how many files it
-- opened and did not close.
pub record Parsed (T : Type 0) : Type 0 where
  pub answer : Bool
  pub value : T
  pub left_open : ℕ

module _ {F : Type 0} (J : Json F) where
  abbrev closed : {T : Type 0} → Bool → T → Option (Parsed T)
  closed answer value = some (record { answer = answer; value = value; left_open = 0 })

  -- The checks of `ParseSummaryInfo` in the object, and in the document.
  unfoldable pub summary_of_object : J.Value → LidarSummaryInfo → Option (Parsed LidarSummaryInfo)
  summary_of_object object info = J.find_member object (codes "lidar_type") >>= λ member.
      elim member [
        | none ↦ closed false info
        | some v ↦ elim (J.get_uint v) [
          | none ↦ closed false info
          | some n ↦ closed true (record { lidar_type = n % 256 })
        ]
      ]

  unfoldable pub summary_of_document : J.Value → LidarSummaryInfo → Option (Parsed LidarSummaryInfo)
  summary_of_document doc info = J.find_member doc (codes "lidar_summary_info") >>= λ member.
      elim member [
        | none ↦ closed false info
        | some object ↦
            if J.is_object object then summary_of_object object info else closed false info
      ]

  unfoldable pub parse_summary_info : List ℕ → LidarSummaryInfo → Option (Parsed LidarSummaryInfo)
  parse_summary_info path info = elim (J.load path) [
    | no_file ↦ closed false info
    | parse_error ↦ closed false info
    | document doc ↦ summary_of_document doc info
  ]

  -- `if (!value.HasMember(name)) ... = missing; else ... = value[name].Get...()`
  unfoldable pub member_or {ℓ} :
      {T : Type ℓ} → (J.Value → Option T) → J.Value → List ℕ → T → Option T
  member_or get value name missing =
      J.find_member value name >>= λ member. elim member [ none ↦ some missing | some v ↦ get v ]

  module _ (zero_float : F) where
    -- `ParseExtrinsics`; its answer is always true.
    unfoldable pub parse_extrinsics : J.Value → Option (ExtParameter F)
    parse_extrinsics value = member_or J.get_float value (codes "roll") zero_float >>= λ roll.
        member_or J.get_float value (codes "pitch") zero_float >>= λ pitch.
        member_or J.get_float value (codes "yaw") zero_float >>= λ yaw.
        member_or J.get_int value (codes "x") (pos 0) >>= λ x.
        member_or J.get_int value (codes "y") (pos 0) >>= λ y.
        member_or J.get_int value (codes "z") (pos 0) >>= λ z.
        some (record { roll = roll; pitch = pitch; yaw = yaw; x = x; y = y; z = z })

    abbrev no_extrinsics : ExtParameter F
    no_extrinsics = record {
      roll = zero_float;
      pitch = zero_float;
      yaw = zero_float;
      x = pos 0;
      y = pos 0;
      z = pos 0;
    }

    abbrev get_int8 : J.Value → Option ℤ
    get_int8 v = J.get_int v >>= λ i. some (int8_of i)

    -- `static_cast<uint8_t>`, kept in an int8_t.
    abbrev get_uint8 : J.Value → Option ℤ
    get_uint8 v = J.get_int v >>= λ i. some (int8_of (pos (uint8_of i)))

    -- An entry that has the member "ip", of this value.
    unfoldable pub parse_entry : J.Value → J.Value → Option (UserLivoxLidarConfig F)
    parse_entry config ip = J.get_string ip >>= λ ip_string.
        member_or get_int8 config (codes "pcl_data_type") minus_one >>= λ pcl_data_type.
        member_or get_int8 config (codes "pattern_mode") minus_one >>= λ pattern_mode.
        member_or get_int8 config (codes "blind_spot_set") minus_one >>= λ blind_spot_set.
        member_or get_uint8 config (codes "dual_emit_en") minus_one >>= λ dual_emit_en.
        member_or parse_extrinsics config (codes "extrinsic_parameter") no_extrinsics
        >>= λ extrinsic_param. some (record {
          handle = J.inet_addr ip_string;
          pcl_data_type = pcl_data_type;
          pattern_mode = pattern_mode;
          blind_spot_set = blind_spot_set;
          dual_emit_en = dual_emit_en;
          extrinsic_param = extrinsic_param;
          set_bits = 0;
          get_bits = 0;
        })

    -- One round of the loop: the configurations that it adds.
    unfoldable pub entry_configs : J.Value → Option (List (UserLivoxLidarConfig F))
    entry_configs config = J.find_member config (codes "ip") >>= λ member. elim member [
      | none ↦ some []
      | some ip ↦ (parse_entry config ip >>= λ c. some (c ∷ []))
    ]

    unfoldable pub parse_entries :
        List J.Value → List (UserLivoxLidarConfig F) → Option (List (UserLivoxLidarConfig F))
    parse_entries [] user_configs = some user_configs
    parse_entries (config ∷ configs) user_configs =
        entry_configs config >>= λ more. parse_entries configs (user_configs ++ more)

    -- `ParseUserConfigs`, on the elements of the array, and then the end of `Parse`: on success the
    -- file is left open.
    unfoldable pub parse_user_configs :
        List J.Value → Option (Parsed (List (UserLivoxLidarConfig F)))
    parse_user_configs configs = parse_entries configs [] >>= λ user_configs.
        if length user_configs == 0
        then closed false user_configs
        else some (record { answer = true; value = user_configs; left_open = 1 })

    unfoldable pub parse_document : J.Value → Option (Parsed (List (UserLivoxLidarConfig F)))
    parse_document doc = J.find_member doc (codes "lidar_configs") >>= λ member. elim member [
      | none ↦ closed false []
      | some array ↦ elim (J.elements array) [
        | none ↦ closed false []
        | some [] ↦ closed false []
        | some (config ∷ configs) ↦ parse_user_configs (config ∷ configs)
      ]
    ]

    -- `Parse`. A file that cannot be opened leaves the argument as it is.
    unfoldable pub parse :
        List ℕ → List (UserLivoxLidarConfig F) → Option (Parsed (List (UserLivoxLidarConfig F)))
    parse path lidar_configs = elim (J.load path) [
      | no_file ↦ closed false lidar_configs
      | parse_error ↦ closed false []
      | document doc ↦ parse_document doc
    ]
