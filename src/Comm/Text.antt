-- ===== src/Comm/Text.antt =====
-- The text helpers of src/livox_ros_driver2/src/comm/comm.cpp, on the bytes of a std::string.
use Prim.Native.String.{String}
use Prim.Native.Char.{code}
use auto_fastlio.Prelude.{
  ℕ, zero, suc, ◌+◌, ◌/◌, ◌%◌, ◌^◌, ◌<◌, ◌≡◌, refl, sym, ◌∙◌, ap, Bool, ◌&&◌, Option, none, some,
  List, [], ◌∷◌, ◌++◌, map, ◌==◌, ltb, if◌then◌else◌, length, set, arith, Bool-cases, Option-cases,
  inl, inr,
}
use mathlib.Core.Path.{fun_ext}
use auto_fastlio.Prelude.Decimal.{to_string}

abbrev pub codes : String → List ℕ
codes String.[] = []
codes (String.◌∷◌ c s) = code c ∷ codes s

-- `IsFilePathValid`: strictly between 4 and 256 bytes.
unfoldable pub is_file_path_valid : List ℕ → Bool
is_file_path_valid path_str = ltb 4 (length path_str) && ltb (length path_str) 256

-- `inet_ntoa` of an address in memory order: the lowest byte first.
unfoldable pub ip_num_to_string : ℕ → List ℕ
ip_num_to_string ip_num =
    to_string (ip_num % 256)
    ++ (b'.'
        ∷ (to_string (ip_num / 2 ^ 8 % 256)
            ++ (b'.'
                ∷ (to_string (ip_num / 2 ^ 16 % 256)
                    ++ (b'.' ∷ to_string (ip_num / 2 ^ 24 % 256))))))

-- `str.find(".")`
unfoldable pub find_period : List ℕ → Option ℕ
find_period [] = none
find_period (c ∷ s) =
    if c == b'.' then some 0 else elim (find_period s) [ none ↦ none | some i ↦ some (suc i) ]

-- The loop of `ReplacePeriodByUnderline`: one period is replaced in each round.
unfoldable pub replace_period_from : ℕ → List ℕ → Option (List ℕ)
replace_period_from zero str = none
replace_period_from (suc fuel) str = elim (find_period str) [
  | none ↦ some str
  | some i ↦ replace_period_from fuel (set str i b'_')
]

-- There are at most as many rounds as bytes.
unfoldable pub replace_period_by_underline : List ℕ → Option (List ℕ)
replace_period_by_underline str = replace_period_from (suc (length str)) str

underline : ℕ → ℕ
underline c = if c == b'.' then b'_' else c

periods : List ℕ → ℕ
periods [] = 0
periods (c ∷ s) = (if c == b'.' then 1 else 0) + periods s

periods-le : (s : List ℕ) → periods s < suc (length s)
unfolding periods
periods-le [] = omega arith
periods-le (c ∷ s) = ground (arith, periods-le s)

find_period-none : (s : List ℕ) → find_period s ≡ none → map underline s ≡ s
unfolding find_period underline
find_period-none [] e = refl
find_period-none (c ∷ s) e = elim (Option-cases (find_period s)) [
  | inl h ↦ ground (arith, h, find_period-none s h)
  | inr (i, h) ↦ ground (arith, h)
]

-- Replacing the period that was found takes one away, and changes nothing of the outcome.
find_period-some :
    (s : List ℕ) (i : ℕ)
    → find_period s ≡ some i
    → (periods s ≡ suc (periods (set s i b'_'))) × (map underline (set s i b'_') ≡ map underline s)
unfolding find_period periods underline
find_period-some [] i e = ground (arith, e)
find_period-some (c ∷ s) zero e = elim (Bool-cases (c == b'.')) [
  | inl h ↦ ground (arith, h)
  | inr h ↦ ground (arith, h)
]
find_period-some (c ∷ s) (suc i) e = elim (Bool-cases (c == b'.')) [
  | inl h ↦ ground (arith, h)
  | inr h ↦ elim (Option-cases (find_period s)) [
    | inl none_left ↦ ground (arith, h, none_left)
    | inr (j, found) ↦
        let here : j ≡ i = ground (arith, h, found) in
        ground (arith, h, found, here, find_period-some s i (found ∙ ap some here))
  ]
]

replace_period_from_lem :
    (fuel : ℕ) (s : List ℕ) → periods s < fuel → replace_period_from fuel s ≡ some (map underline s)
unfolding replace_period_from
replace_period_from_lem zero s h = absurd (omega arith)
replace_period_from_lem (suc fuel) s h = elim (Option-cases (find_period s)) [
  | inl e ↦ rw (e, replace_period_from) (ap some (sym (find_period-none s e)))
  | inr (i, e) ↦
      let (fewer, same) = find_period-some s i e in
      rw (e, replace_period_from)
        (replace_period_from_lem fuel (set s i b'_') (omega arith) ∙ ap some same)
]

-- The loop of `ReplacePeriodByUnderline` ends, and has replaced every period and nothing else.
pub replace_period_by_underline_lem :
    (s : List ℕ) → replace_period_by_underline s ≡ some (map (λ c. if c == b'.' then b'_' else c) s)
unfolding replace_period_by_underline
replace_period_by_underline_lem s =
    replace_period_from_lem (suc (length s)) s (periods-le s)
    ∙ ap (λ (f : ℕ → ℕ). some (map f s)) (unfold underline in fun_ext (λ c. refl))
