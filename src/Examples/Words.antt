-- ===== src/Examples/Words.antt =====
-- The angle filter's reading of bytes, with numbers of 32 and 64 bits.
use auto_fastlio.Prelude.{
  ℕ, zero, suc, ◌+◌, ◌*◌, ◌/◌, ◌%◌, ◌^◌, ◌<◌, ◌≡◌, refl, ap, ap₂, ◌∙◌, Bool, true, false, some,
  List, [], ◌∷◌, ◌++◌, ◌==◌, if◌then◌else◌, arith, length,
}
use auto_fastlio.Numerics.{Numerics}
use auto_fastlio.AngleFilter.{Host}
use auto_fastlio.AngleFilter.Cloud.{read_coordinate}
use auto_fastlio.AngleFilter.Bytes.{
  IsFaithful, IsBytes, Stored, single, stored_bytes, stored_value, read_coordinate-stored,
}
use auto_fastlio.Examples.Scans.{msgs}

-- The lowest bit first.
abbrev Bits : ℕ → Type 0
Bits zero = Unit {0}
Bits (suc k) = Bool × Bits k

abbrev value : (k : ℕ) → Bits k → ℕ
value zero t = 0
value (suc k) (b, t) = (if b then 1 else 0) + 2 * value k t

abbrev bits : (k : ℕ) → ℕ → Bits k
bits zero n = tt
bits (suc k) n = (n % 2 == 1, bits k (n / 2))

value-lt : (k : ℕ) (t : Bits k) → value k t < 2 ^ k
value-lt zero t = omega arith
value-lt (suc k) (true, t) = omega (arith, value-lt k t)
value-lt (suc k) (false, t) = omega (arith, value-lt k t)

bits-value : (k : ℕ) (t : Bits k) → bits k (value k t) ≡ t
bits-value zero t = refl
bits-value (suc k) (b, t) =
    ap₂ (λ c u. (c, u)) (lowest b (value k t)) (ap (bits k) (halved b (value k t)) ∙ bits-value k t)
  where
    lowest : (b : Bool) (n : ℕ) → (((if b then 1 else 0) + 2 * n) % 2 == 1) ≡ b
    lowest true n = ground arith
    lowest false n = ground arith

    halved : (b : Bool) (n : ℕ) → ((if b then 1 else 0) + 2 * n) / 2 ≡ n
    halved true n = omega arith
    halved false n = omega arith

value-bits : (k n : ℕ) → n < 2 ^ k → value k (bits k n) ≡ n
value-bits zero n h = omega arith
value-bits (suc k) n h =
    ap (λ t. (if n % 2 == 1 then 1 else 0) + 2 * t) (value-bits k (n / 2) (omega (arith, h)))
    ∙ whole n
  where
    whole : (n : ℕ) → (if n % 2 == 1 then 1 else 0) + 2 * (n / 2) ≡ n
    whole n = ground arith

abbrev Byte : Type 0
Byte = Bits 8

abbrev Word4 : Type 0
Word4 = Byte × Byte × Byte × Byte

abbrev nought : Word4
nought = (bits 8 0, bits 8 0, bits 8 0, bits 8 0)

abbrev Word8 : Type 0
Word8 = Word4 × Word4

abbrev nought8 : Word8
nought8 = (nought, nought)

abbrev words : Numerics
words = record {
  Float = Word4;
  Double = Word8;
  of_int = λ i. nought8;
  of_nat = λ n. nought8;
  literal = λ a b. nought8;
  widen = λ w. (w, nought);
  narrow = λ w. w.0;
  trunc = λ w. 0;
  byte = λ w. 0;
  add = λ v w. v;
  sub = λ v w. v;
  mul = λ v w. v;
  div = λ v w. v;
  neg = λ w. w;
  sin = λ w. w;
  cos = λ w. w;
  lt = λ v w. false;
}

abbrev four : Word4 → List ℕ
four (a, b, c, d) = value 8 a ∷ value 8 b ∷ value 8 c ∷ value 8 d ∷ []

abbrev of_four : List ℕ → Word4
of_four (a ∷ b ∷ c ∷ d ∷ []) = (bits 8 a, bits 8 b, bits 8 c, bits 8 d)
of_four _ = nought

abbrev of_eight : List ℕ → Word8
of_eight (a ∷ b ∷ c ∷ d ∷ bs) = ((bits 8 a, bits 8 b, bits 8 c, bits 8 d), of_four bs)
of_eight _ = nought8

abbrev word_host : Host words
word_host = record {
  u16_bytes = λ n. (2, 1);
  float_bytes = four;
  float_of_bytes = of_four;
  double_bytes = λ v. four v.0 ++ four v.1;
  double_of_bytes = of_eight;
}

four_size : (w : Word4) → length (four w) ≡ 4
four_size (a, b, c, d) = refl

four-IsBytes : (w : Word4) → IsBytes (four w)
four-IsBytes (a, b, c, d) = (value-lt 8 a, (value-lt 8 b, (value-lt 8 c, (value-lt 8 d, tt))))

four_back : (w : Word4) → of_four (four w) ≡ w
four_back (a, b, c, d) = rw (bits-value 8 a, bits-value 8 b, bits-value 8 c, bits-value 8 d) refl

four_same : (bs : List ℕ) → length bs ≡ 4 → IsBytes bs → four (of_four bs) ≡ bs
four_same (a ∷ b ∷ c ∷ d ∷ []) e (ha, (hb, (hc, (hd, h)))) =
    rw (value-bits 8 a ha, value-bits 8 b hb, value-bits 8 c hc, value-bits 8 d hd) refl
four_same [] e h = absurd (omega arith)
four_same (a ∷ []) e h = absurd (omega arith)
four_same (a ∷ b ∷ []) e h = absurd (omega arith)
four_same (a ∷ b ∷ c ∷ []) e h = absurd (omega arith)
four_same (a ∷ b ∷ c ∷ d ∷ x ∷ xs) e h = absurd (omega arith)

eight_same :
    (bs : List ℕ) → length bs ≡ 8 → IsBytes bs → four (of_eight bs).0 ++ four (of_eight bs).1 ≡ bs
eight_same (a ∷ b ∷ c ∷ d ∷ bs) e (ha, (hb, (hc, (hd, h)))) =
    ap (λ t. four (bits 8 a, bits 8 b, bits 8 c, bits 8 d) ++ t) (four_same bs (omega (arith, e)) h)
    ∙ rw (value-bits 8 a ha, value-bits 8 b hb, value-bits 8 c hc, value-bits 8 d hd) refl
eight_same [] e h = absurd (omega arith)
eight_same (a ∷ []) e h = absurd (omega arith)
eight_same (a ∷ b ∷ []) e h = absurd (omega arith)
eight_same (a ∷ b ∷ c ∷ []) e h = absurd (omega arith)

eight_size : (v : Word8) → length (four v.0 ++ four v.1) ≡ 8
eight_size ((a, b, c, d), (e, f, g, h)) = refl

eight-IsBytes : (v : Word8) → IsBytes (four v.0 ++ four v.1)
eight-IsBytes ((a, b, c, d), w) =
    (value-lt 8 a, (value-lt 8 b, (value-lt 8 c, (value-lt 8 d, four-IsBytes w))))

eight_back : (v : Word8) → of_eight (four v.0 ++ four v.1) ≡ v
eight_back ((a, b, c, d), w) =
    rw (bits-value 8 a, bits-value 8 b, bits-value 8 c, bits-value 8 d, four_back w) refl

word_host-IsFaithful : IsFaithful word_host
word_host-IsFaithful = record {
  float_size = four_size;
  float_bytes-IsBytes = four-IsBytes;
  float_back = four_back;
  float_same = four_same;
  double_size = eight_size;
  double_bytes-IsBytes = eight-IsBytes;
  double_back = eight_back;
  double_same = eight_same;
}

abbrev stored_word : Stored words
stored_word = single (bits 8 1, bits 8 2, bits 8 3, bits 8 200)

-- A big-endian scan on a little-endian host.
read_coordinate-stored_example :
    read_coordinate words word_host msgs
      ((9 ∷ []) ++ (stored_bytes word_host msgs stored_word true ++ (8 ∷ [])))
      (record { offset = 1; datatype = 7 })
      true
    ≡ some (stored_value word_host msgs stored_word)
read_coordinate-stored_example =
    read_coordinate-stored word_host msgs word_host-IsFaithful (omega arith) stored_word true
      (9 ∷ []) (8 ∷ []) (record { offset = 1; datatype = 7 }) refl refl
