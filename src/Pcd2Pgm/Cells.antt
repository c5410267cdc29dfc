-- ===== src/Pcd2Pgm/Cells.antt =====
-- The cells of a grid that is stored row by row, and what marking a point does to them.
use native.Mathlib.Decide.{ℕ_discrete}
use auto_fastlio.Prelude.{
  ℕ, zero, suc, ◌+◌, ◌*◌, ◌%◌, ◌^◌, ◌<◌, ◌≤◌, ◌≡◌, refl, sym, ap, ap₂, ◌∙◌, ◌≢◌, ◌⊎◌, inl, inr,
  Bool, true, false, ◌&&◌, ◌||◌, some, List, [], ◌∷◌, ◌>>=◌, ◌==◌, if◌then◌else◌, length, set,
  replicate, get_elem?, arith, Bool-cases, Option-cases, length-set, length-replicate,
  get_elem?-set_self, get_elem?-set_ne,
}
use auto_fastlio.Prelude.Int.{ℤ, pos, negsuc, int_eq}
use auto_fastlio.Pcd2Pgm.{write_cell}
use auto_fastlio.Pcd2Pgm.Raster.{is_inside_int, is_inside_u32, mark_or_drop, mark_or_skip}

mul_le : (a b w : ℕ) → a ≤ b → a * w ≤ b * w
mul_le a b zero h = omega arith
mul_le a b (suc w) h = let rest : a * w ≤ b * w = mul_le a b w h in omega (arith, rest)

-- The offset of a cell is within the data, and two cells have different offsets.
pub offset_lt : (w h i j : ℕ) → i < w → j < h → i + j * w < w * h
offset_lt w h i j a b =
    let rows : (j + 1) * w ≤ h * w = mul_le (j + 1) h w (omega arith) in omega (arith, rows)

offset_ne : (w i j a b : ℕ) → i < w → j < b → i + j * w ≢ a + b * w
offset_ne w i j a b p q e =
    let rows : (j + 1) * w ≤ b * w = mul_le (j + 1) b w (omega arith) in omega (arith, rows)

pub offset_injective : (w i j a b : ℕ) → i < w → a < w → i + j * w ≡ a + b * w → (i ≡ a) × (j ≡ b)
offset_injective w i j a b p q e = elim (ℕ_discrete j b) [
  | yes same ↦ (omega (arith, ap (λ t. t * w) same), same)
  | no differ ↦ absurd (apart (omega arith))
]
  where
    apart : (j < b) ⊎ (b < j) → ⊥
    apart (inl below) = offset_ne w i j a b p below e
    apart (inr above) = offset_ne w a b i j q above (sym e)

-- The point whose cell is `c` falls in column `i` and row `j`.
unfoldable pub hits : ℤ × ℤ → ℕ → ℕ → Bool
hits c i j = int_eq c.0 (pos i) && int_eq c.1 (pos j)

unfoldable pub occupied : List (ℤ × ℤ) → ℕ → ℕ → Bool
occupied [] i j = false
occupied (c ∷ cs) i j = hits c i j || occupied cs i j

abbrev pub shade : Bool → ℕ
shade b = if b then 100 else 0

-- The data is a grid of that size, and `full` tells which cells are marked.
pub record Shows (w h : ℕ) (full : ℕ → ℕ → Bool) (cells : List ℕ) : Type 0 where
  pub size : length cells ≡ w * h
  pub at : (i j : ℕ) → i < w → j < h → get_elem? cells (i + j * w) ≡ some (shade (full i j))

-- A grid whose sizes and number of cells fit their types.
pub record Fits (w h : ℕ) : Type 0 where
  pub width : w < 2 ^ 31
  pub height : h < 2 ^ 31
  pub cells : w * h < 2 ^ 32

get_elem?-replicate {ℓ} :
    {A : Type ℓ} (a : A) (n k : ℕ) → k < n → get_elem? (replicate n a) k ≡ some a
get_elem?-replicate a zero k h = absurd (omega arith)
get_elem?-replicate a (suc n) zero h = refl
get_elem?-replicate a (suc n) (suc k) h = get_elem?-replicate a n k (omega arith)

pub zeros-Shows : (w h : ℕ) → Shows w h (λ i j. false) (replicate (w * h) 0)
zeros-Shows w h = record {
  size = length-replicate (w * h) 0;
  at = λ i j a b. get_elem?-replicate 0 (w * h) (i + j * w) (offset_lt w h i j a b);
}

module _ {w h : ℕ} (f : Fits w h) where
  pub write_cell-inside :
      (a b : ℕ) (cells : List ℕ)
      → a < w
      → b < h
      → length cells ≡ w * h
      → write_cell w (pos a) (pos b) cells ≡ some (set cells (a + b * w) 100)
  unfolding write_cell
  write_cell-inside a b cells p q size =
      let small : a + b * w < w * h = offset_lt w h a b p q in
      let left : a % 2 ^ 32 ≡ a = omega (arith, f.width) in
      let right : b % 2 ^ 32 ≡ b = omega (arith, f.height) in
      let all : (a + b * w) % 2 ^ 32 ≡ a + b * w = omega (arith, f.cells) in
      rw (left, right, all) (ground arith)

  miss : (a b i j : ℕ) → a + b * w ≢ i + j * w → (a == i && b == j) ≡ false
  miss a b i j differ = elim (Bool-cases (a == i && b == j)) [
    | inl both ↦ absurd (differ (ap₂ (λ x y. x + y * w) (ground arith) (ground arith)))
    | inr not_both ↦ not_both
  ]

  -- A write of 100 marks its cell and keeps the others.
  set-Shows :
      (a b : ℕ) (full : ℕ → ℕ → Bool) (cells : List ℕ)
      → a < w
      → b < h
      → Shows w h full cells
      → Shows w h (λ i j. hits (pos a, pos b) i j || full i j) (set cells (a + b * w) 100)
  unfolding hits
  set-Shows a b full cells p q shows = record {
    size = length-set cells (a + b * w) 100 ∙ shows.size;
    at = λ i j r s. elim (ℕ_discrete (a + b * w) (i + j * w)) [
      | yes same ↦
          let (c, d) = offset_injective w a b i j p r same in
          let hit : (a == i && b == j) ≡ true = ground (arith, c, d) in
          rw (sym same, hit) (get_elem?-set_self cells (a + b * w) 100 inside)
      | no differ ↦
          get_elem?-set_ne cells (a + b * w) (i + j * w) 100 differ
          ∙ (rw (miss a b i j differ) (shows.at i j r s))
    ];
  }
    where
      inside : a + b * w < length cells
      inside = let small : a + b * w < w * h = offset_lt w h a b p q in omega (arith, shows.size)

  inside_pos :
      (a b : ℤ)
      → is_inside_int w h a b ≡ true
      → (i : ℕ) × (j : ℕ) × (a ≡ pos i) × (b ≡ pos j) × (i < w) × (j < h)
  unfolding is_inside_int
  inside_pos (pos a) (pos b) e =
      (a, b, refl, refl, ground (arith, f.width), ground (arith, f.height))
  inside_pos (pos a) (negsuc b) e = ground (arith, f.width)
  inside_pos (negsuc a) b e = ground arith

  hits-outside :
      (a b : ℤ) (i j : ℕ)
      → is_inside_int w h a b ≡ false
      → i < w
      → j < h
      → (int_eq a (pos i) && int_eq b (pos j)) ≡ false
  unfolding is_inside_int
  hits-outside (pos a) (pos b) i j out p q = ground (arith, f.width, f.height)
  hits-outside (pos a) (negsuc b) i j out p q = ground arith
  hits-outside (negsuc a) b i j out p q = ground arith

  -- A point outside the grid hits none of its cells.
  outside-Shows :
      (c : ℤ × ℤ) (full : ℕ → ℕ → Bool) (cells : List ℕ)
      → is_inside_int w h c.0 c.1 ≡ false
      → Shows w h full cells
      → Shows w h (λ i j. hits c i j || full i j) cells
  unfolding hits
  outside-Shows (a, b) full cells out shows = record {
    size = shows.size;
    at = λ i j r s. rw (hits-outside a b i j out r s) (shows.at i j r s);
  }

  -- One point of the fixed grid: no fault, its cell is marked, and it is counted if it has none.
  pub mark_or_drop-Shows :
      (c : ℤ × ℤ) (full : ℕ → ℕ → Bool) (cells : List ℕ) (dropped : ℕ)
      → Shows w h full cells
      → (cells' : List ℕ) × (mark_or_drop w h c.0 c.1 cells dropped
          ≡ some (cells', if is_inside_int w h c.0 c.1 then dropped else dropped + 1))
        × Shows w h (λ i j. hits c i j || full i j) cells'
  unfolding mark_or_drop
  mark_or_drop-Shows (a, b) full cells dropped shows = elim (Bool-cases (is_inside_int w h a b)) [
    | inl inner ↦
        let (i, j, p, q, r, s) = inside_pos a b inner in
        (
          set cells (i + j * w) 100,
          rw (inner, mark_or_drop) (rw (p, q, write_cell-inside i j cells r s shows.size) refl),
          rw (p, q) (set-Shows i j full cells r s shows),
        )
    | inr outer ↦
        (cells, rw (outer, mark_or_drop) refl, outside-Shows (a, b) full cells outer shows)
  ]

  -- Both guards accept the same cells, and with no count the two loops do the same.
  pub mark_or_skip-eq-drop :
      (a b : ℤ) (cells : List ℕ) (dropped : ℕ)
      → ((n : ℕ) → a ≡ pos n → n < 2 ^ 31)
      → ((n : ℕ) → b ≡ pos n → n < 2 ^ 31)
      → mark_or_skip w h a b cells ≡ (mark_or_drop w h a b cells dropped >>= λ r. some r.0)
  unfolding mark_or_skip mark_or_drop
  mark_or_skip-eq-drop a b cells dropped p q = elim (Bool-cases (is_inside_int w h a b)) [
    | inl inner ↦
        rw (guards a b p q, inner)
          (elim (Option-cases (write_cell w a b cells)) [
            | inl fault ↦ rw fault refl
            | inr (cells', e) ↦ rw e refl
          ])
    | inr outer ↦ rw (guards a b p q, outer) refl
  ]
    where
      guards :
          (a b : ℤ)
          → ((n : ℕ) → a ≡ pos n → n < 2 ^ 31)
          → ((n : ℕ) → b ≡ pos n → n < 2 ^ 31)
          → is_inside_u32 w h a b ≡ is_inside_int w h a b
      guards (pos a) (pos b) p q =
          unfold is_inside_int is_inside_u32 in
          ground (arith, f.width, f.height, p a refl, q b refl)
      guards (pos a) (negsuc b) p q =
          unfold is_inside_int is_inside_u32 in ground (arith, f.width, f.height, p a refl)
      guards (negsuc a) b p q = unfold is_inside_int is_inside_u32 in ground arith
