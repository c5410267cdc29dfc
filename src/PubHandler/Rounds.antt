-- ===== src/PubHandler/Rounds.antt =====
-- The loops of the four formats in src/livox_ros_driver2/src/comm/pub_handler.cpp, against the points of
-- a packet one by one.
use auto_fastlio.Prelude.{
  ℕ, zero, suc, ◌+◌, ◌*◌, ◌/◌, ◌%◌, ◌≡◌, refl, ◌∙◌, ap, true, false, Option, none, some, List, [],
  ◌∷◌, ◌==◌, ◌>>=◌, arith, Bool-cases, inl, inr, Option-cases,
}
use auto_fastlio.Numerics.{Numerics}
use auto_fastlio.PubHandler.{Layout, RawPacket, ExtParameterDetailed, cartesian_point, round_points}
use auto_fastlio.PubHandler.Reference.{
  high_resolution, low_resolution, angles, two_echoes, format_of, point_count, rounds_of, items,
  echo, point_number, packet_points,
}

-- Rounds that push one item each, or two.
abbrev one : {A : Type 0} → (ℕ → Option A) → ℕ → Option (List A)
one item n = item n >>= λ a. some (a ∷ [])

abbrev two : {A : Type 0} → (ℕ → Option A) → ℕ → Option (List A)
two item n = item (2 * n) >>= λ a. item (2 * n + 1) >>= λ b. some (a ∷ b ∷ [])

rounds_of-one :
    {A : Type 0} (item : ℕ → Option A) (rounds i : ℕ)
    → rounds_of (one item) rounds i ≡ items item rounds i
unfolding rounds_of items
rounds_of-one item zero i = refl
rounds_of-one item (suc rounds) i = elim (Option-cases (item i)) [
  | inl fault ↦ rw fault refl
  | inr (a, e) ↦ rw (e, rounds_of-one item rounds (i + 1)) refl
]

rounds_of-two :
    {A : Type 0} (item : ℕ → Option A) (rounds i : ℕ)
    → rounds_of (two item) rounds i ≡ items item (2 * rounds) (2 * i)
unfolding rounds_of items
rounds_of-two item zero i = refl
rounds_of-two item (suc rounds) i =
    both (rounds_of-two item rounds (i + 1)) ∙ ap (λ k. items item k (2 * i)) more
  where
    more : suc (suc (2 * rounds)) ≡ 2 * suc rounds
    more = omega arith

    later : items item (2 * rounds) (2 * (i + 1)) ≡ items item (2 * rounds) (2 * i + 1 + 1)
    later = ap (λ k. items item (2 * rounds) k) (omega arith)

    both :
        rounds_of (two item) rounds (i + 1) ≡ items item (2 * rounds) (2 * (i + 1))
        → rounds_of (two item) (suc rounds) i ≡ items item (suc (suc (2 * rounds))) (2 * i)
    both hyp = elim (Option-cases (item (2 * i))) [
      | inl fault ↦ rw fault refl
      | inr (a, e) ↦ elim (Option-cases (item (2 * i + 1))) [
        | inl fault ↦ rw (e, fault) refl
        | inr (b, e') ↦
            rw (e, e', hyp, later)
              (elim (Option-cases (items item (2 * rounds) (2 * i + 1 + 1))) [
                | inl fault ↦ rw fault refl
                | inr (rest, e'') ↦ rw e'' refl
              ])
      ]
    ]

module _ (N : Numerics) (layout : Layout) (ext : ExtParameterDetailed N.Float)
    (pkt : RawPacket) where
  rounds_of-same :
      {A : Type 0} (r r' : ℕ → Option (List A))
      → ((i : ℕ) → r i ≡ r' i)
      → (rounds i : ℕ) → rounds_of r rounds i ≡ rounds_of r' rounds i
  unfolding rounds_of
  rounds_of-same r r' same zero i = refl
  rounds_of-same r r' same (suc rounds) i =
      rw (same i, rounds_of-same r r' same rounds (i + 1)) refl

  rounds_of-nothing :
      {A : Type 0} (r : ℕ → Option (List A))
      → ((i : ℕ) → r i ≡ some [])
      → (rounds i : ℕ) → rounds_of r rounds i ≡ some []
  unfolding rounds_of
  rounds_of-nothing r empty zero i = refl
  rounds_of-nothing r empty (suc rounds) i =
      rw (empty i, rounds_of-nothing r empty rounds (i + 1)) refl

  bind_assoc :
      {A B C : Type 0} (o : Option A) (f : A → Option B) (g : B → Option C)
      → (o >>= λ a. f a >>= g) ≡ ((o >>= f) >>= g)
  bind_assoc none f g = refl
  bind_assoc (some a) f g = refl

  echoes_round :
      (i : ℕ)
      → (layout.double_echo pkt.raw_data i >>= λ (raw₁, raw₂).
          cartesian_point N 1000 ext pkt i raw₁ >>= λ p₁.
          cartesian_point N 1000 ext pkt i raw₂ >>= λ p₂. some (p₁ ∷ p₂ ∷ []))
        ≡ two (point_number N layout ext pkt two_echoes) i
  unfolding point_number echo
  echoes_round i =
      let half : 2 * i / 2 ≡ i = omega arith in
      let half' : (2 * i + 1) / 2 ≡ i = omega arith in
      let even : (2 * i % 2 == 0) ≡ true = ground arith in
      let odd : ((2 * i + 1) % 2 == 0) ≡ false = ground arith in
      rw (half, half', even, odd)
        (elim (Option-cases (layout.double_echo pkt.raw_data i)) [
          | inl fault ↦ rw fault refl
          | inr ((raw₁, raw₂), e) ↦ rw e refl
        ])

  high_round :
      (pkt.data_type == layout.high_data) ≡ true
      → (i : ℕ)
      → round_points N layout ext pkt i ≡ one (point_number N layout ext pkt high_resolution) i
  unfolding round_points point_number
  high_round e i = rw e (bind_assoc (layout.high pkt.raw_data i) _ _)

  low_round :
      (pkt.data_type == layout.high_data) ≡ false
      → (pkt.data_type == layout.low_data) ≡ true
      → (i : ℕ)
      → round_points N layout ext pkt i ≡ one (point_number N layout ext pkt low_resolution) i
  unfolding round_points point_number
  low_round n1 e i = rw (n1, e) (bind_assoc (layout.low pkt.raw_data i) _ _)

  angles_round :
      (pkt.data_type == layout.high_data) ≡ false
      → (pkt.data_type == layout.low_data) ≡ false
      → (pkt.data_type == layout.spherical_data) ≡ true
      → (i : ℕ) → round_points N layout ext pkt i ≡ one (point_number N layout ext pkt angles) i
  unfolding round_points point_number
  angles_round n1 n2 e i = rw (n1, n2, e) (bind_assoc (layout.spherical pkt.raw_data i) _ _)

  echoes :
      (pkt.data_type == layout.high_data) ≡ false
      → (pkt.data_type == layout.low_data) ≡ false
      → (pkt.data_type == layout.spherical_data) ≡ false
      → (pkt.data_type == layout.double_echo_data) ≡ true
      → (i : ℕ)
      → round_points N layout ext pkt i ≡ (
          layout.double_echo pkt.raw_data i >>= λ (raw₁, raw₂).
          cartesian_point N 1000 ext pkt i raw₁ >>= λ p₁.
          cartesian_point N 1000 ext pkt i raw₂ >>= λ p₂. some (p₁ ∷ p₂ ∷ []))
  unfolding round_points
  echoes n1 n2 n3 e i = rw (n1, n2, n3, e) refl

  other :
      (pkt.data_type == layout.high_data) ≡ false
      → (pkt.data_type == layout.low_data) ≡ false
      → (pkt.data_type == layout.spherical_data) ≡ false
      → (pkt.data_type == layout.double_echo_data) ≡ false
      → (i : ℕ) → round_points N layout ext pkt i ≡ some []
  unfolding round_points
  other n1 n2 n3 n4 i = rw (n1, n2, n3, n4) refl

  -- The rounds of the loop that handles a packet give the points one by one.
  pub rounds_of-eq-packet_points :
      rounds_of (round_points N layout ext pkt) pkt.point_num 0 ≡ packet_points N layout ext pkt
  unfolding packet_points format_of point_count items
  rounds_of-eq-packet_points = elim (Bool-cases (pkt.data_type == layout.high_data)) [
    | inl e ↦ rw e (
        rounds_of-same _ (one (point_number N layout ext pkt high_resolution)) (high_round e)
          pkt.point_num 0
        ∙ rounds_of-one (point_number N layout ext pkt high_resolution) pkt.point_num 0)
    | inr n1 ↦ elim (Bool-cases (pkt.data_type == layout.low_data)) [
      | inl e ↦
          rw (n1, e)
            (rounds_of-same _ (one (point_number N layout ext pkt low_resolution)) (low_round n1 e)
                pkt.point_num 0
              ∙ rounds_of-one (point_number N layout ext pkt low_resolution) pkt.point_num 0)
      | inr n2 ↦ elim (Bool-cases (pkt.data_type == layout.spherical_data)) [
        | inl e ↦
            rw (n1, n2, e)
              (rounds_of-same _ (one (point_number N layout ext pkt angles)) (angles_round n1 n2 e)
                  pkt.point_num 0
                ∙ rounds_of-one (point_number N layout ext pkt angles) pkt.point_num 0)
        | inr n3 ↦ elim (Bool-cases (pkt.data_type == layout.double_echo_data)) [
          | inl e ↦
              rw (n1, n2, n3, e)
                (rounds_of-same _ (two (point_number N layout ext pkt two_echoes))
                    (λ i. echoes n1 n2 n3 e i ∙ echoes_round i) pkt.point_num 0
                  ∙ rounds_of-two (point_number N layout ext pkt two_echoes) pkt.point_num 0)
          | inr n4 ↦ rw (n1, n2, n3, n4) (rounds_of-nothing _ (other n1 n2 n3 n4) pkt.point_num 0)
        ]
      ]
    ]
  ]
