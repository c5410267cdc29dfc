-- ===== src/Config/Entries.antt =====
-- What the parser of livox_ros_driver2/src/parse_cfg_file/parse_livox_lidar_cfg.cpp answers.
use auto_fastlio.Prelude.{
  some_injective, ℕ, ◌-◌, ◌%◌, ◌≤◌, ◌≡◌, refl, sym, ap, ◌∙◌, subst, inl, inr, not, Option, none,
  some, List, [], ◌∷◌, ◌++◌, ◌>>=◌, append_assoc, append-nil, map, length, ◌==◌, ltb, if◌then◌else◌,
  arith, Bool-cases, >>=-eq-some,
}
use auto_fastlio.Prelude.Int.{ℤ, pos, negsuc, minus_one, int8_of, uint8_of, u32_of_int}
use auto_fastlio.Comm.{UserLivoxLidarConfig}
use auto_fastlio.Comm.Text.{codes}
use auto_fastlio.Config.{
  Json, document, Parsed, member_or, parse_entry, parse_extrinsics, entry_configs, parse_entries,
  parse_user_configs, parse_document, parse, get_int8, get_uint8,
}

-- The range of int8_t.
abbrev pub IsInt8 : ℤ → Type 0
IsInt8 (pos n) = n ≤ 127
IsInt8 (negsuc n) = n ≤ 127

IsInt8-of_byte : (b : ℕ) → IsInt8 (if ltb b 128 then pos b else negsuc (255 - b))
IsInt8-of_byte b = elim (Bool-cases (ltb b 128)) [
  | inl low ↦ rw low (ground arith)
  | inr high ↦ rw high (ground arith)
]

int8_of-IsInt8 : (i : ℤ) → IsInt8 (int8_of i)
int8_of-IsInt8 i = IsInt8-of_byte (u32_of_int i % 256)

pub record HasInt8Settings {F : Type 0} (c : UserLivoxLidarConfig F) : Type 0 where
  pub pcl_data_type : IsInt8 c.pcl_data_type
  pub pattern_mode : IsInt8 c.pattern_mode
  pub blind_spot_set : IsInt8 c.blind_spot_set
  pub dual_emit_en : IsInt8 c.dual_emit_en

abbrev pub All {ℓ} : {A : Type ℓ} → (A → Type 0) → List A → Type 0
All P [] = Unit {0}
All P (x ∷ xs) = P x × All P xs

All-append {ℓ} :
    {A : Type ℓ} (P : A → Type 0) (xs ys : List A) → All P xs → All P ys → All P (xs ++ ys)
All-append P [] ys p q = q
All-append P (x ∷ xs) ys (p, ps) q = (p, All-append P xs ys ps q)

module _ {F : Type 0} (J : Json F) (zero_float : F) where
  -- The addresses in an array, of the entries that have the member "ip".
  unfoldable pub addresses : List J.Value → Option (List (List ℕ))
  addresses [] = some []
  addresses (config ∷ configs) = J.find_member config (codes "ip") >>= λ member.
      addresses configs >>= λ rest. elim member [
        | none ↦ some rest
        | some ip ↦ (J.get_string ip >>= λ text. some (text ∷ rest))
      ]

  chosen-IsInt8 :
      (get : J.Value → Option ℤ) (member : Option J.Value) (i : ℤ)
      → ((v : J.Value) (j : ℤ) → get v ≡ some j → IsInt8 j)
      → elim member [ none ↦ some minus_one | some v ↦ get v ] ≡ some i
      → IsInt8 i
  chosen-IsInt8 get none i h e = subst IsInt8 (some_injective e) (omega arith)
  chosen-IsInt8 get (some v) i h e = h v i e

  member_or-IsInt8 :
      (get : J.Value → Option ℤ) (value : J.Value) (name : List ℕ) (i : ℤ)
      → ((v : J.Value) (j : ℤ) → get v ≡ some j → IsInt8 j)
      → member_or J get value name minus_one ≡ some i
      → IsInt8 i
  unfolding member_or
  member_or-IsInt8 get value name i h e =
      let (m, found, rest) = >>=-eq-some (J.find_member value name) _ e in
      chosen-IsInt8 get m i h rest

  get_int8-IsInt8 : (v : J.Value) (j : ℤ) → get_int8 J zero_float v ≡ some j → IsInt8 j
  get_int8-IsInt8 v j e =
      let (i, got, last) = >>=-eq-some (J.get_int v) _ e in
      subst IsInt8 (some_injective last) (int8_of-IsInt8 i)

  get_uint8-IsInt8 : (v : J.Value) (j : ℤ) → get_uint8 J zero_float v ≡ some j → IsInt8 j
  get_uint8-IsInt8 v j e =
      let (i, got, last) = >>=-eq-some (J.get_int v) _ e in
      subst IsInt8 (some_injective last) (int8_of-IsInt8 (pos (uint8_of i)))

  parse_entry_lem :
      (config ip : J.Value) (c : UserLivoxLidarConfig F)
      → parse_entry J zero_float config ip ≡ some c
      → (text : List ℕ) × (J.get_string ip ≡ some text)
        × (c.handle ≡ J.inet_addr text)
        × HasInt8Settings c
  unfolding parse_entry
  parse_entry_lem config ip c e =
      let (text, e0, r0) = >>=-eq-some (J.get_string ip) _ e in
      let (p, e1, r1) =
        >>=-eq-some (member_or J (get_int8 J zero_float) config (codes "pcl_data_type") minus_one) _
          r0 in
      let (q, e2, r2) =
        >>=-eq-some (member_or J (get_int8 J zero_float) config (codes "pattern_mode") minus_one) _
          r1 in
      let (b, e3, r3) =
        >>=-eq-some (member_or J (get_int8 J zero_float) config (codes "blind_spot_set") minus_one)
          _ r2 in
      let (d, e4, r4) =
        >>=-eq-some (member_or J (get_uint8 J zero_float) config (codes "dual_emit_en") minus_one) _
          r3 in
      let (x, e5, r5) =
        >>=-eq-some
          (member_or J (parse_extrinsics J zero_float) config (codes "extrinsic_parameter") _) _
          r4 in
      (
        text,
        e0,
        ap (λ t. t.handle) (sym (some_injective r5)),
        subst HasInt8Settings (some_injective r5) (record {
          pcl_data_type = member_or-IsInt8 (get_int8 J zero_float) config _ p get_int8-IsInt8 e1;
          pattern_mode = member_or-IsInt8 (get_int8 J zero_float) config _ q get_int8-IsInt8 e2;
          blind_spot_set = member_or-IsInt8 (get_int8 J zero_float) config _ b get_int8-IsInt8 e3;
          dual_emit_en = member_or-IsInt8 (get_uint8 J zero_float) config _ d get_uint8-IsInt8 e4;
        }),
      )

  -- The configurations that are read so far, and what the loop adds.
  abbrev handles : List (UserLivoxLidarConfig F) → List ℕ
  handles = map (λ c. c.handle)

  map-append {ℓ κ} :
      {A : Type ℓ} {B : Type κ} (f : A → B) (xs ys : List A)
      → map f (xs ++ ys) ≡ map f xs ++ map f ys
  map-append f [] ys = refl
  map-append f (x ∷ xs) ys = ap (λ t. f x ∷ t) (map-append f xs ys)

  -- What the loop leaves after these entries.
  abbrev Rest :
      List J.Value → List (UserLivoxLidarConfig F) → List (UserLivoxLidarConfig F) → Type 0
  Rest configs before after =
      (texts : List (List ℕ)) × (addresses configs ≡ some texts)
      × (handles after ≡ handles before ++ map J.inet_addr texts)
      × All HasInt8Settings after

  parse_entries_lem :
      (configs : List J.Value) (before after : List (UserLivoxLidarConfig F))
      → All HasInt8Settings before
      → parse_entries J zero_float configs before ≡ some after
      → Rest configs before after
  unfolding parse_entries addresses entry_configs
  parse_entries_lem [] before after h e =
      let same = some_injective e in
      (
        [],
        refl,
        ap handles (sym same) ∙ sym (append-nil (handles before)),
        subst (All HasInt8Settings) same h,
      )
  parse_entries_lem (config ∷ configs) before after h e =
      let (more, e1, r1) = >>=-eq-some (entry_configs J zero_float config) _ e in
      let (m, e2, r2) = >>=-eq-some (J.find_member config (codes "ip")) _ e1 in
      round m more e2 r2 r1 (λ b hb eb. parse_entries_lem configs b after hb eb)
    where
      round :
          (m : Option J.Value) (more : List (UserLivoxLidarConfig F))
          → J.find_member config (codes "ip") ≡ some m
          → elim m [
            | none ↦ some []
            | some ip ↦ (parse_entry J zero_float config ip >>= λ c. some (c ∷ []))
          ]
            ≡ some more
          → parse_entries J zero_float configs (before ++ more) ≡ some after
          → ((b : List (UserLivoxLidarConfig F))
              → All HasInt8Settings b
              → parse_entries J zero_float configs b ≡ some after
              → Rest configs b after)
          → Rest (config ∷ configs) before after
      round none more found got rest later =
          let (texts, e1, e2, all) = later before h (
            subst (λ t. parse_entries J zero_float configs t ≡ some after)
              (ap (λ t. before ++ t) (sym (some_injective got)) ∙ append-nil before) rest) in
          (texts, rw (found, e1) refl, e2, all)
      round (some ip) more found got rest later =
          let (c, e3, e4) = >>=-eq-some (parse_entry J zero_float config ip) _ got in
          let (text, e5, e6, valid) = parse_entry_lem config ip c e3 in
          let (texts, e1, e2, all) =
            later (before ++ c ∷ []) (All-append HasInt8Settings before (c ∷ []) h (valid, tt)) (
              subst (λ t. parse_entries J zero_float configs (before ++ t) ≡ some after)
                (sym (some_injective e4)) rest) in
          (
            text ∷ texts,
            rw (found, e1, e5) refl,
            e2
                ∙ ap (λ t. t ++ map J.inet_addr texts) (map-append (λ c. c.handle) before (c ∷ []))
                ∙ append_assoc (handles before) (c.handle ∷ []) (map J.inet_addr texts)
                ∙ ap (λ t. handles before ++ (t ∷ map J.inet_addr texts)) e6,
            all,
          )

  -- The answer of the parser, and what becomes of the file.
  abbrev Answers : List J.Value → Parsed (List (UserLivoxLidarConfig F)) → Type 0
  Answers configs r =
      (parse_entries J zero_float configs [] ≡ some r.value)
      × (r.answer ≡ not (length r.value == 0))
      × (r.left_open ≡ (if r.answer then 1 else 0))

  parse_user_configs-Answers :
      (configs : List J.Value) (r : Parsed (List (UserLivoxLidarConfig F)))
      → parse_user_configs J zero_float configs ≡ some r
      → Answers configs r
  unfolding parse_user_configs
  parse_user_configs-Answers configs r e =
      let (cs, e1, e2) = >>=-eq-some (parse_entries J zero_float configs []) _ e in
      elim (Bool-cases (length cs == 0)) [
        | inl nothing ↦
            subst (Answers configs) (some_injective (rw nothing at e2)) (e1, rw nothing refl, refl)
        | inr something ↦
            subst (Answers configs) (some_injective (rw something at e2))
              (e1, rw something refl, refl)
      ]

  opened :
      {path : List ℕ} (old : List (UserLivoxLidarConfig F)) {doc : J.Value}
      → J.load path ≡ document doc
      → parse J zero_float path old ≡ parse_document J zero_float doc
  unfolding parse
  opened old e = rw (e, parse) refl

  listed :
      {doc array config : J.Value} {configs : List J.Value}
      → J.find_member doc (codes "lidar_configs") ≡ some (some array)
      → J.elements array ≡ some (config ∷ configs)
      → parse_document J zero_float doc ≡ parse_user_configs J zero_float (config ∷ configs)
  unfolding parse_document
  listed e1 e2 = rw (e1, e2, parse_document) refl

  -- A document with entries under "lidar_configs", in which no assertion fails: `Parse` answers
  -- with one configuration for each entry that has the member "ip", in order, whose handle is the
  -- address of that text and whose four settings are in the range of int8_t; it answers false when
  -- there is none, and leaves the file open when it answers true.
  pub parse_lem :
      (path : List ℕ) (old : List (UserLivoxLidarConfig F)) (doc array config : J.Value)
      (configs : List J.Value) (r : Parsed (List (UserLivoxLidarConfig F)))
      → J.load path ≡ document doc
      → J.find_member doc (codes "lidar_configs") ≡ some (some array)
      → J.elements array ≡ some (config ∷ configs)
      → parse J zero_float path old ≡ some r
      → (texts : List (List ℕ)) × (addresses (config ∷ configs) ≡ some texts)
        × (map (λ c. c.handle) r.value ≡ map J.inet_addr texts)
        × All HasInt8Settings r.value
        × (r.answer ≡ not (length r.value == 0))
        × (r.left_open ≡ (if r.answer then 1 else 0))
  parse_lem path old doc array config configs r e1 e2 e3 e =
      let run : parse_user_configs J zero_float (config ∷ configs) ≡ some r =
        sym (opened old e1 ∙ listed e2 e3) ∙ e in
      let (read, answer, left) = parse_user_configs-Answers (config ∷ configs) r run in
      let (texts, found, same, all) = parse_entries_lem (config ∷ configs) [] r.value tt read in
      (texts, found, same, all, answer, left)
