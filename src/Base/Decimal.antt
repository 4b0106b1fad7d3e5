-- ===== src/Base/Decimal.antt =====
-- A printed number parses to itself.
use Prim.Native.Nat.{ℕ, zero, suc, ◌+◌, ◌*◌, ◌/◌, ◌%◌, ◌^◌, ◌<◌}
use Prim.Native.Char.{code}
use Prim.Native.String.{String, char_at}
use mathlib.Core.Path.{◌≡◌, refl, ap, ◌∙◌}
use mathlib.Core.Logic.{inl, inr}
use mathlib.Core.Bool.{Bool, true, false, ◌&&◌}
use mathlib.Core.Option.{some}
use native.Mathlib.Omega.{arith}
use go_gvisor_containerd_let.Base.Tests.{◌==◌, Bool-cases, lt→ltb}
use go_gvisor_containerd_let.Base.Int.{pos}
use go_gvisor_containerd_let.Base.Text.{
  is_space, is_empty, trim_left, trim_right, cons_trimmed, trim_space, digit, decimal_from, decimal,
}
use go_gvisor_containerd_let.Base.Parse.{is_digit, digits_from, digits, below, parse_int}

-- The table of digits is in the order of the codes, as far as it goes.
digits_in_order : ℕ → Bool
digits_in_order zero = true
digits_in_order (suc n) =
    let rest = digits_in_order n in code (char_at "0123456789" n) == n + b'0' && rest

ten_in_order : digits_in_order 10 ≡ true
unfolding digits_in_order
ten_in_order = refl

code_at :
    (n bound : ℕ)
    → digits_in_order bound ≡ true
    → n < bound
    → code (char_at "0123456789" n) ≡ n + b'0'
unfolding digits_in_order
code_at n zero e lt = elim lt [ ]
code_at n (suc m) e lt = elim (Bool-cases (n == m)) [
  | inl same ↦ ground arith
  | inr less ↦ code_at n m (ground arith) (ground arith)
]

code-digit : (n : ℕ) → code (digit n) ≡ n % 10 + b'0'
unfolding digit
code-digit n = code_at (n % 10) 10 ten_in_order (omega arith)

-- The text starts with a digit.
abbrev HeadIsDigit : String → Type 0
HeadIsDigit String.[] = ⊥
HeadIsDigit (String.◌∷◌ c s) = is_digit c ≡ true

is_digit-digit : (n : ℕ) → is_digit (digit n) ≡ true
unfolding is_digit
is_digit-digit n = ground (arith, code-digit n)

decimal_from-HeadIsDigit :
    (fuel n : ℕ) (rest : String) → HeadIsDigit rest → HeadIsDigit (decimal_from fuel n rest)
unfolding decimal_from
decimal_from-HeadIsDigit zero n rest h = h
decimal_from-HeadIsDigit (suc fuel) n rest h = elim (Bool-cases (n / 10 == 0)) [
  | inl e ↦ rw e (is_digit-digit n)
  | inr e ↦
      rw e (decimal_from-HeadIsDigit fuel (n / 10) (String.◌∷◌ (digit n) rest) (is_digit-digit n))
]

digits_from-digit :
    (m n : ℕ) (rest : String)
    → digits_from m (String.◌∷◌ (digit n) rest) ≡ digits_from (m * 10 + n % 10) rest
unfolding digits_from
digits_from-digit m n rest =
    rw (is_digit-digit n, code-digit n) (ap (λ k. digits_from k rest) (omega arith))

digits_from-decimal_from :
    (fuel n : ℕ) (rest : String)
    → n < fuel
    → digits_from 0 (decimal_from fuel n rest) ≡ digits_from n rest
unfolding decimal_from
digits_from-decimal_from zero n rest h = elim h [ ]
digits_from-decimal_from (suc fuel) n rest h = elim (Bool-cases (n / 10 == 0)) [
  | inl e ↦ rw e (digits_from-digit 0 n rest ∙ ap (λ k. digits_from k rest) (ground arith))
  | inr e ↦ rw e (
      digits_from-decimal_from fuel (n / 10) (String.◌∷◌ (digit n) rest) (ground arith)
      ∙ digits_from-digit (n / 10) n rest
      ∙ ap (λ k. digits_from k rest) (omega arith))
]

decimal-HeadIsDigit : (n : ℕ) → HeadIsDigit (decimal n)
unfolding decimal decimal_from
decimal-HeadIsDigit n = elim (Bool-cases (n / 10 == 0)) [
  | inl e ↦ rw e (is_digit-digit n)
  | inr e ↦
      rw e (decimal_from-HeadIsDigit n (n / 10) (String.◌∷◌ (digit n) String.[]) (is_digit-digit n))
]

parse_digits : (s : String) → HeadIsDigit s → parse_int s ≡ below (digits_from 0 s)
unfolding parse_int is_digit digits
parse_digits String.[] h = elim h [ ]
parse_digits (String.◌∷◌ c s) h = ground arith

-- strconv.ParseInt reads what strconv.FormatInt prints.
pub parse_int-decimal : (n : ℕ) → n < 2 ^ 63 → parse_int (decimal n) ≡ some (pos n)
unfolding decimal digits_from below
parse_int-decimal n h =
    parse_digits (decimal n) (decimal-HeadIsDigit n)
    ∙ ap below (digits_from-decimal_from (suc n) n String.[] (omega arith))
    ∙ rw (lt→ltb n (2 ^ 63) h) refl

trim_space-digit : (s : String) → HeadIsDigit s → is_empty (trim_space s) ≡ false
unfolding trim_space trim_left trim_right cons_trimmed is_space is_digit
trim_space-digit String.[] h = elim h [ ]
trim_space-digit (String.◌∷◌ c s) h = ground arith

pub trim_space-decimal : (n : ℕ) → is_empty (trim_space (decimal n)) ≡ false
trim_space-decimal n = trim_space-digit (decimal n) (decimal-HeadIsDigit n)
