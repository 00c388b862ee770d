-- ===== src/Base/Decimal.antt =====
-- `strconv.FormatInt(x, 10)`, `fmt.Sprintf("%d", x)` and `strconv.ParseInt(s, 10, 64)`: decimal
-- texts of int64 patterns, as lists of bytes.
use Prim.Native.Nat.{ℕ, zero, suc, ◌+◌, ◌-◌, ◌*◌, ◌/◌, ◌%◌, ◌^◌, ◌≤◌, ◌<◌}
use native.Mathlib.Nat.{pow-suc}
use mathlib.Core.Path.{◌≡◌, ◌∙◌, ap}
use mathlib.Core.Logic.{inl, inr}
use mathlib.Core.Bool.{◌&&◌}
use mathlib.Core.Option.{Option, none, some}
use mathlib.Core.List.{[], ◌∷◌, ◌++◌}
use native.Mathlib.Omega.{arith}
use go_yandex_metrics.Base.Tests.{ltb, leb, ◌==◌, if◌then◌else◌, Bool-cases}
use go_yandex_metrics.Base.Text.{Bytes}
use go_yandex_metrics.Base.Int64.{word_mod}

-- The digits of a number below 10^fuel.
unfoldable pub format_digits : ℕ → ℕ → Bytes
format_digits zero n = []
format_digits (suc fuel) n =
    let front = format_digits fuel (n / 10) in
    if ltb n 10 then (48 + n) ∷ [] else front ++ (48 + n % 10) ∷ []

-- Twenty digits are enough for 64 bits.
unfoldable pub format_uint : ℕ → Bytes
format_uint n = format_digits 20 n

unfoldable pub format_int : ℕ → Bytes
format_int x = if ltb x (2 ^ 63) then format_uint x else 45 ∷ format_uint (word_mod - x)

-- The number of a text of digits, `none` at any other byte.
unfoldable pub parse_digits : ℕ → Bytes → Option ℕ
parse_digits acc [] = some acc
parse_digits acc (c ∷ rest) =
    if leb 48 c && leb c 57 then parse_digits (acc * 10 + (c - 48)) rest else none

unfoldable pub parse_uint : Bytes → Option ℕ
unfolding parse_digits
parse_uint [] = none
parse_uint (c ∷ rest) = parse_digits 0 (c ∷ rest)

-- `none` is an error of either kind, of syntax or of range.
unfoldable pub parse_int : Bytes → Option ℕ
unfolding parse_uint
parse_int [] = none
parse_int (c ∷ rest) =
    if c == 45
    then elim (parse_uint rest) [
      | none ↦ none
      | some n ↦ if leb n (2 ^ 63) then some ((word_mod - n) % word_mod) else none
    ]
    else elim (if c == 43 then parse_uint rest else parse_uint (c ∷ rest)) [
      | none ↦ none
      | some n ↦ if ltb n (2 ^ 63) then some n else none
    ]

parse_digits-append :
    (acc : ℕ) (s : Bytes) (d n : ℕ)
    → d < 10
    → parse_digits acc s ≡ some n
    → parse_digits acc (s ++ (48 + d) ∷ []) ≡ some (n * 10 + d)
unfolding parse_digits
parse_digits-append acc [] d n lt h = ground arith
parse_digits-append acc (c ∷ rest) d n lt h =
    ground (arith, parse_digits-append (acc * 10 + (c - 48)) rest d n lt)

tenth : (fuel n : ℕ) → n < 10 ^ suc fuel → n / 10 < 10 ^ fuel
tenth fuel n h = omega (arith, pow-suc 10 fuel)

-- The digits of a number read back as the number.
parse_digits-format_digits :
    (fuel n : ℕ) → n < 10 ^ fuel → parse_digits 0 (format_digits fuel n) ≡ some n
unfolding parse_digits format_digits
parse_digits-format_digits zero n h = ap {B = Option ℕ} some (omega arith)
parse_digits-format_digits (suc fuel) n h = elim (Bool-cases (ltb n 10)) [
  | inl small ↦ ground (arith, small)
  | inr large ↦ rw large (
      parse_digits-append 0 (format_digits fuel (n / 10)) (n % 10) (n / 10) (omega arith)
        (parse_digits-format_digits fuel (n / 10) (tenth fuel n h))
      ∙ ap {B = Option ℕ} some (omega arith))
]

-- The text of a number begins with a digit.
data StartsWithDigit : Bytes → Type 0 where
  digit : (c : ℕ) (rest : Bytes) → 48 ≤ c → c < 58 → StartsWithDigit (c ∷ rest)

StartsWithDigit-append : {s : Bytes} (t : Bytes) → StartsWithDigit s → StartsWithDigit (s ++ t)
StartsWithDigit-append t (digit c rest lo hi) = digit c (rest ++ t) lo hi

format_digits-StartsWithDigit :
    (fuel n : ℕ) → 0 < fuel → n < 10 ^ fuel → StartsWithDigit (format_digits fuel n)
unfolding format_digits
format_digits-StartsWithDigit zero n pos h = absurd (omega arith)
format_digits-StartsWithDigit (suc zero) n pos h = elim (Bool-cases (ltb n 10)) [
  | inl small ↦ rw small (digit (48 + n) [] (omega arith) (ground (arith, small)))
  | inr large ↦ absurd (ground (arith, large))
]
format_digits-StartsWithDigit (suc (suc fuel)) n pos h = elim (Bool-cases (ltb n 10)) [
  | inl small ↦ rw small (digit (48 + n) [] (omega arith) (ground (arith, small)))
  | inr large ↦ rw large (
      StartsWithDigit-append ((48 + n % 10) ∷ [])
        (format_digits-StartsWithDigit (suc fuel) (n / 10) (omega arith) (tenth (suc fuel) n h)))
]

parse_uint-format_uint : (n : ℕ) → n < 10 ^ 20 → parse_uint (format_uint n) ≡ some n
unfolding parse_uint format_uint
parse_uint-format_uint n h =
    go (format_digits 20 n) (format_digits-StartsWithDigit 20 n (omega arith) h)
      (parse_digits-format_digits 20 n h)
  where
    go : (s : Bytes) → StartsWithDigit s → parse_digits 0 s ≡ some n → parse_uint s ≡ some n
    go (c ∷ rest) d e = e
    go [] d e = elim d [ ]

format_uint-StartsWithDigit : (n : ℕ) → n < 10 ^ 20 → StartsWithDigit (format_uint n)
unfolding format_uint
format_uint-StartsWithDigit n h = format_digits-StartsWithDigit 20 n (omega arith) h

signed-parse :
    (s : Bytes) (n : ℕ)
    → n ≤ 2 ^ 63
    → parse_uint s ≡ some n
    → parse_int (45 ∷ s) ≡ some ((word_mod - n) % word_mod)
unfolding parse_int
signed-parse s n le e = ground (arith, e)

unsigned-parse :
    (s : Bytes) (n : ℕ)
    → StartsWithDigit s
    → n < 2 ^ 63
    → parse_uint s ≡ some n
    → parse_int s ≡ some n
unfolding parse_int
unsigned-parse s n (digit c rest lo hi) lt e = ground (arith, e)

-- An int64 written in decimal reads back as itself.
pub parse_int-format_int : (x : ℕ) → x < word_mod → parse_int (format_int x) ≡ some x
unfolding format_int
parse_int-format_int x h = elim (Bool-cases (ltb x (2 ^ 63))) [
  | inl small ↦
      let text : format_int x ≡ format_uint x = ground (arith, small) in
      rw text (
        unsigned-parse (format_uint x) x (format_uint-StartsWithDigit x (omega arith))
          (ground (arith, small)) (parse_uint-format_uint x (omega arith)))
  | inr large ↦
      let text : format_int x ≡ 45 ∷ format_uint (word_mod - x) = ground (arith, large) in
      rw text (
        signed-parse (format_uint (word_mod - x)) (word_mod - x) (ground (arith, large))
          (parse_uint-format_uint (word_mod - x) (omega arith))
        ∙ ap {B = Option ℕ} some (ground (arith, large)))
]
