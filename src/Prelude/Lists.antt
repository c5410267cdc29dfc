-- ===== src/Prelude/Lists.antt =====
-- Lists measured and indexed by native numbers, under the library's names.
use Prim.Native.Nat.{ℕ, zero, suc, ◌+◌, ◌-◌, ◌<◌, ◌≤◌}
use mathlib.Core.Path.{◌≡◌, refl, ap, subst}
use mathlib.Core.Logic.{◌≢◌, ◌⊎◌, inl, inr}
use mathlib.Core.List.{List, [], ◌∷◌, ◌++◌}
use mathlib.Core.Option.{Option, none, some}
use native.Mathlib.Omega.{arith}
use auto_fastlio.Prelude.Tests.{Option-cases}

module _ {ℓ} {A : Type ℓ} where
  abbrev pub length : List A → ℕ
  length [] = 0
  length (x ∷ xs) = suc (length xs)

  abbrev pub get_elem? : List A → ℕ → Option A
  get_elem? [] i = none
  get_elem? (x ∷ xs) zero = some x
  get_elem? (x ∷ xs) (suc i) = get_elem? xs i

  -- A write out of bounds changes nothing.
  abbrev pub set : List A → ℕ → A → List A
  set [] i v = []
  set (x ∷ xs) zero v = v ∷ xs
  set (x ∷ xs) (suc i) v = x ∷ set xs i v

  abbrev pub replicate : ℕ → A → List A
  replicate zero a = []
  replicate (suc n) a = a ∷ replicate n a

module _ {ℓ} {A : Type ℓ} where
  -- The block from its n-th element on.
  abbrev pub drop : ℕ → List A → List A
  drop zero xs = xs
  drop (suc n) [] = []
  drop (suc n) (x ∷ xs) = drop n xs

  abbrev pub take : ℕ → List A → List A
  take zero xs = []
  take (suc n) [] = []
  take (suc n) (x ∷ xs) = x ∷ take n xs

  -- `n` elements read from the start of a block: `none` if the block is shorter.
  abbrev pub read : ℕ → List A → Option (List A)
  read zero xs = some []
  read (suc n) [] = none
  read (suc n) (x ∷ xs) = elim (read n xs) [ none ↦ none | some ys ↦ some (x ∷ ys) ]

  pub length-drop : (n : ℕ) (xs : List A) → length (drop n xs) ≡ length xs - n
  length-drop zero xs = omega arith
  length-drop (suc n) [] = omega arith
  length-drop (suc n) (x ∷ xs) = omega (arith, length-drop n xs)

  -- A read within the block succeeds, with the first elements.
  pub read-eq-take : (n : ℕ) (xs : List A) → n ≤ length xs → read n xs ≡ some (take n xs)
  read-eq-take zero xs h = refl
  read-eq-take (suc n) [] h = absurd (omega arith)
  read-eq-take (suc n) (x ∷ xs) h = rw (read-eq-take n xs (omega arith)) refl

  pub length-take : (n : ℕ) (xs : List A) → n ≤ length xs → length (take n xs) ≡ n
  length-take zero xs h = refl
  length-take (suc n) [] h = absurd (omega arith)
  length-take (suc n) (x ∷ xs) h = ap suc (length-take n xs (omega arith))

  pub drop-append : (before after : List A) → drop (length before) (before ++ after) ≡ after
  drop-append [] after = refl
  drop-append (x ∷ before) after = drop-append before after

  pub read-append : (xs after : List A) → read (length xs) (xs ++ after) ≡ some xs
  read-append [] after = refl
  read-append (x ∷ xs) after = rw (read-append xs after) refl

  pub length-append : (xs ys : List A) → length (xs ++ ys) ≡ length xs + length ys
  length-append [] ys = omega arith
  length-append (x ∷ xs) ys = omega (arith, length-append xs ys)

  pub length-set : (xs : List A) (i : ℕ) (v : A) → length (set xs i v) ≡ length xs
  length-set [] i v = refl
  length-set (x ∷ xs) zero v = refl
  length-set (x ∷ xs) (suc i) v = ap suc (length-set xs i v)

  pub length-replicate : (n : ℕ) (a : A) → length (replicate n a) ≡ n
  length-replicate zero a = refl
  length-replicate (suc n) a = ap suc (length-replicate n a)

  pub get_elem?-set_self :
      (xs : List A) (i : ℕ) (v : A) → i < length xs → get_elem? (set xs i v) i ≡ some v
  get_elem?-set_self [] i v h = absurd (omega arith)
  get_elem?-set_self (x ∷ xs) zero v h = refl
  get_elem?-set_self (x ∷ xs) (suc i) v h = get_elem?-set_self xs i v (omega arith)

  pub get_elem?-set_ne :
      (xs : List A) (i j : ℕ) (v : A) → i ≢ j → get_elem? (set xs i v) j ≡ get_elem? xs j
  get_elem?-set_ne [] i j v h = refl
  get_elem?-set_ne (x ∷ xs) zero zero v h = absurd (h refl)
  get_elem?-set_ne (x ∷ xs) zero (suc j) v h = refl
  get_elem?-set_ne (x ∷ xs) (suc i) zero v h = refl
  get_elem?-set_ne (x ∷ xs) (suc i) (suc j) v h = get_elem?-set_ne xs i j v (λ e. h (ap suc e))

  pub get_elem?-lt : (xs : List A) (i : ℕ) → i < length xs → (a : A) × (get_elem? xs i ≡ some a)
  get_elem?-lt [] i h = absurd (omega arith)
  get_elem?-lt (x ∷ xs) zero h = (x, refl)
  get_elem?-lt (x ∷ xs) (suc i) h = get_elem?-lt xs i (omega arith)

  -- A read within the block gives that many elements, and they are its first ones.
  pub read_full : (xs : List A) → read (length xs) xs ≡ some xs
  read_full [] = refl
  read_full (x ∷ xs) = ground (arith, read_full xs)

  pub length-read : (n : ℕ) (xs : List A) {ys : List A} → read n xs ≡ some ys → length ys ≡ n
  length-read zero xs e = ground arith
  length-read (suc n) [] e = ground arith
  length-read (suc n) (x ∷ xs) e = elim (Option-cases (read n xs)) [
    | inl h ↦ ground (arith, h)
    | inr (zs, h) ↦ ground (arith, h, length-read n xs h)
  ]

  -- What was read stands at the same place in the block.
  pub get_elem?-read :
      (n : ℕ) (xs : List A) {ys : List A} (i : ℕ) {a : A}
      → read n xs ≡ some ys
      → get_elem? ys i ≡ some a
      → get_elem? xs i ≡ some a
  get_elem?-read zero xs i e at = ground (arith, e)
  get_elem?-read (suc n) [] i e at = ground (arith, e)
  get_elem?-read (suc n) (x ∷ xs) zero e at = elim (Option-cases (read n xs)) [
    | inl h ↦ ground (arith, h)
    | inr (zs, h) ↦ ground (arith, h)
  ]
  get_elem?-read (suc n) (x ∷ xs) {ys} (suc i) {a} e at = elim (Option-cases (read n xs)) [
    | inl h ↦ ground (arith, h)
    | inr (zs, h) ↦
        let grown : ys ≡ x ∷ zs = ground (arith, h) in
        let later : get_elem? zs i ≡ some a = subst (λ t. get_elem? t (suc i) ≡ some a) grown at in
        get_elem?-read n xs i h later
  ]

  pub get_elem?-append_length :
      (before : List A) (x : A) (after : List A)
      → get_elem? (before ++ x ∷ after) (length before) ≡ some x
  get_elem?-append_length [] x after = refl
  get_elem?-append_length (y ∷ before) x after = get_elem?-append_length before x after

pub List-cases {ℓ} :
    {A : Type ℓ} (xs : List A) → (xs ≡ []) ⊎ ((x : A) × (rest : List A) × (xs ≡ x ∷ rest))
List-cases [] = inl refl
List-cases (x ∷ rest) = inr (x, rest, refl)

pub get_elem?-some-lt {ℓ} :
    {A : Type ℓ} (xs : List A) (i : ℕ) (a : A) → get_elem? xs i ≡ some a → i < length xs
get_elem?-some-lt [] i a e = cc
get_elem?-some-lt (x ∷ xs) zero a e = omega arith
get_elem?-some-lt (x ∷ xs) (suc i) a e = omega (arith, get_elem?-some-lt xs i a e)

pub some_injective {ℓ} : {A : Type ℓ} {a b : A} → some a ≡ some b → a ≡ b
some_injective e = cc e
