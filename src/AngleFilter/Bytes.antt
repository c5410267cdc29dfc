-- ===== src/AngleFilter/Bytes.antt =====
-- Coordinates read back from memory: read_coordinate of lidar_angle_filter_node.cpp.
use mathlib.Core.List.{reverse, reverse-cons, reverse-reverse}
use auto_fastlio.Prelude.{
  ℕ, ◌+◌, ◌≤◌, ◌<◌, ◌≡◌, refl, sym, subst, ap, ◌∙◌, ◌≢◌, inl, inr, Bool, true, false, Option, some,
  List, [], ◌∷◌, ◌++◌, ◌>>=◌, if◌then◌else◌, ◌==◌, length, drop, read, arith, Bool-cases,
  Option-cases, length-drop, read-eq-take, drop-append, read-append, length-append,
}
use auto_fastlio.Numerics.{Numerics}
use auto_fastlio.AngleFilter.{Host, ok}
use auto_fastlio.AngleFilter.Cloud.{
  SensorMsgs, PointCloud2, CoordinateField, field_size, byte_swap, bool_eq, host_is_big_endian,
  read_coordinate, find_coordinate_field, field_named,
}

-- The elements of a byte array.
abbrev pub IsBytes : List ℕ → Type 0
IsBytes [] = Unit {0}
IsBytes (b ∷ bs) = (b < 256) × IsBytes bs

-- What memcpy gives: the representation of a value has its size in bytes, and the two directions undo
-- each other, on all values and on all bytes.
pub record IsFaithful {N : Numerics} (H : Host N) : Type 0 where
  pub float_size : (v : N.Float) → length (H.float_bytes v) ≡ 4
  pub float_bytes-IsBytes : (v : N.Float) → IsBytes (H.float_bytes v)
  pub float_back : (v : N.Float) → H.float_of_bytes (H.float_bytes v) ≡ v
  pub float_same :
      (bs : List ℕ) → length bs ≡ 4 → IsBytes bs → H.float_bytes (H.float_of_bytes bs) ≡ bs
  pub double_size : (v : N.Double) → length (H.double_bytes v) ≡ 8
  pub double_bytes-IsBytes : (v : N.Double) → IsBytes (H.double_bytes v)
  pub double_back : (v : N.Double) → H.double_of_bytes (H.double_bytes v) ≡ v
  pub double_same :
      (bs : List ℕ) → length bs ≡ 8 → IsBytes bs → H.double_bytes (H.double_of_bytes bs) ≡ bs

-- A coordinate as a scan stores it.
pub data Stored (N : Numerics) : Type 0 where
  single : N.Float → Stored N
  double : N.Double → Stored N

module _ {N : Numerics} (H : Host N) (M : SensorMsgs) where
  abbrev pub host_bytes : Stored N → List ℕ
  host_bytes (single v) = H.float_bytes v
  host_bytes (double v) = H.double_bytes v

  abbrev pub stored_datatype : Stored N → ℕ
  stored_datatype (single v) = M.float32
  stored_datatype (double v) = M.float64

  -- The bytes in the order of the scan.
  abbrev pub stored_bytes : Stored N → Bool → List ℕ
  stored_bytes s is_big_endian =
      if bool_eq is_big_endian (host_is_big_endian N H M)
      then host_bytes s
      else reverse (host_bytes s)

append-IsBytes : (xs ys : List ℕ) → IsBytes xs → IsBytes ys → IsBytes (xs ++ ys)
append-IsBytes [] ys a b = b
append-IsBytes (x ∷ xs) ys (h, a) b = (h, append-IsBytes xs ys a b)

reverse-IsBytes : (xs : List ℕ) → IsBytes xs → IsBytes (reverse xs)
reverse-IsBytes [] a = a
reverse-IsBytes (x ∷ xs) (h, a) =
    subst IsBytes (sym (reverse-cons x xs))
      (append-IsBytes (reverse xs) (x ∷ []) (reverse-IsBytes xs a) (h, tt))

length-reverse {ℓ} : {A : Type ℓ} (xs : List A) → length (reverse xs) ≡ length xs
length-reverse [] = refl
length-reverse (x ∷ xs) =
    ap length (reverse-cons x xs)
    ∙ length-append (reverse xs) (x ∷ [])
    ∙ omega (arith, length-reverse xs)

module _ {N : Numerics} (H : Host N) (M : SensorMsgs) where
  abbrev pub stored_value : Stored N → N.Double
  stored_value (single v) = N.widen v
  stored_value (double v) = v

  -- Reading `n` bytes at the offset where they stand.
  read-stored :
      (n : ℕ) (before bytes after : List ℕ) (offset : ℕ)
      → length bytes ≡ n
      → offset ≡ length before
      → read n (drop offset (before ++ (bytes ++ after))) ≡ some bytes
  read-stored n before bytes after offset size at =
      ap (λ t. read n (drop t (before ++ (bytes ++ after)))) at
      ∙ ap (read n) (drop-append before (bytes ++ after))
      ∙ ap (λ t. read t (bytes ++ after)) (sym size)
      ∙ read-append bytes after

  swap-back :
      {T : Type 0} (n : ℕ) (bytes : T → List ℕ) (of_bytes : List ℕ → T)
      → ((v : T) → length (bytes v) ≡ n)
      → ((v : T) → of_bytes (bytes v) ≡ v)
      → ((v : T) → IsBytes (bytes v))
      → ((bs : List ℕ) → length bs ≡ n → IsBytes bs → bytes (of_bytes bs) ≡ bs)
      → (v : T) → byte_swap bytes of_bytes (of_bytes (reverse (bytes v))) ≡ v
  unfolding byte_swap
  swap-back n bytes of_bytes size back in_range same v =
      ap (λ t. of_bytes (reverse t))
        (same (reverse (bytes v)) (length-reverse (bytes v) ∙ size v)
          (reverse-IsBytes (bytes v) (in_range v)))
      ∙ ap of_bytes (reverse-reverse (bytes v))
      ∙ back v

  -- A coordinate that is stored in a scan, as float or double and in either byte order, is read
  -- back as it was, on a host of either byte order: for a representation of numbers in memory, 4 or
  -- 8 bytes long, that loses nothing from number to bytes and from bytes to number, and two different
  -- datatype constants.
  pub read_coordinate-stored :
      IsFaithful H
      → M.float64 ≢ M.float32
      → (s : Stored N) (is_big_endian : Bool) (before after : List ℕ) (field : CoordinateField)
      → field.datatype ≡ stored_datatype H M s
      → field.offset ≡ length before
      → read_coordinate N H M
          (before ++ (stored_bytes H M s is_big_endian ++ after))
          field
          is_big_endian
        ≡ some (stored_value s)
  unfolding read_coordinate
  read_coordinate-stored F apart (single v) big before after field type at =
      let is_float : (field.datatype == M.float32) ≡ true = ground (arith, type) in
      elim (Bool-cases (bool_eq big (host_is_big_endian N H M))) [
        | inl same ↦
            rw
              (
                is_float,
                same,
                read-stored 4 before (H.float_bytes v) after field.offset (F.float_size v) at,
              )
              (ap (λ t. some (N.widen t)) (F.float_back v))
        | inr other ↦
            rw
              (
                is_float,
                other,
                read-stored 4 before (reverse (H.float_bytes v)) after field.offset
                    (length-reverse (H.float_bytes v) ∙ F.float_size v) at,
              )
              (ap (λ t. some (N.widen t))
                (swap-back 4 H.float_bytes H.float_of_bytes F.float_size F.float_back
                  F.float_bytes-IsBytes F.float_same v))
      ]
  read_coordinate-stored F apart (double v) big before after field type at =
      let is_double : (field.datatype == M.float32) ≡ false = ground (arith, type, apart) in
      elim (Bool-cases (bool_eq big (host_is_big_endian N H M))) [
        | inl same ↦
            rw
              (
                is_double,
                same,
                read-stored 8 before (H.double_bytes v) after field.offset (F.double_size v) at,
              )
              (ap some (F.double_back v))
        | inr other ↦
            rw
              (
                is_double,
                other,
                read-stored 8 before (reverse (H.double_bytes v)) after field.offset
                    (length-reverse (H.double_bytes v) ∙ F.double_size v) at,
              )
              (ap some (
                swap-back 8 H.double_bytes H.double_of_bytes F.double_size F.double_back
                  F.double_bytes-IsBytes F.double_same v))
      ]

  defined :
      {T U : Type 0} {m : Option T} {t : T}
      → m ≡ some t
      → (g : T → U) → (u : U) × ((m >>= λ x. some (g x)) ≡ some u)
  defined {t = t} e g = rw e (g t, refl)

  -- Within a point, the read is defined.
  pub read_coordinate-inside :
      (point : List ℕ) (f : CoordinateField) (big : Bool)
      → f.offset + field_size M f.datatype ≤ length point
      → (v : N.Double) × (read_coordinate N H M point f big ≡ some v)
  unfolding read_coordinate
  read_coordinate-inside point f big h = elim (Bool-cases (f.datatype == M.float32)) [
    | inl float ↦
        let room : 4 ≤ length (drop f.offset point) =
          ground (arith, float, length-drop f.offset point) in
        rw float (defined (read-eq-take 4 (drop f.offset point) room) _)
    | inr other ↦
        let room : 8 ≤ length (drop f.offset point) =
          ground (arith, other, length-drop f.offset point) in
        rw other (defined (read-eq-take 8 (drop f.offset point) room) _)
  ]

module _ (M : SensorMsgs) where
  -- A field that was accepted lies within a point.
  pub find_coordinate_field-fits :
      (cloud : PointCloud2 M) (name : List ℕ) (f : CoordinateField)
      → find_coordinate_field M cloud name ≡ ok f
      → f.offset + field_size M f.datatype ≤ cloud.point_step
  unfolding find_coordinate_field
  find_coordinate_field-fits cloud name f e = elim (Option-cases (field_named name cloud.fields)) [
    | inl missing ↦ ground (arith, missing, e)
    | inr (field, found) ↦ ground (arith, found, e)
  ]
