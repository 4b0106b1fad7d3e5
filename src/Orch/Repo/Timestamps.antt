-- ===== src/Orch/Repo/Timestamps.antt =====
-- Timestamps as the store orders them. A column holds the text that `Format(time.RFC3339Nano)` prints,
-- and ORDER BY compares texts: date and seconds have a fixed width, the fraction has not, since
-- trailing zeros are dropped, and the text ends in `Z`.
use go_gvisor_containerd_let.Base.{
  ℕ, zero, suc, ◌+◌, ◌/◌, ◌%◌, Bool, true, false, List, [], ◌∷◌, ◌==◌, ltb, if◌then◌else◌,
}

abbrev nanos_per_second : ℕ
nanos_per_second = 1_000_000_000

-- The lowest `fuel` decimal digits of `n`, the highest first.
digits_from : ℕ → ℕ → List ℕ → List ℕ
digits_from zero n rest = rest
digits_from (suc fuel) n rest = digits_from fuel (n / 10) ((b'0' + n % 10) ∷ rest)

cons_digit : ℕ → List ℕ → List ℕ
cons_digit c [] = if c == b'0' then [] else c ∷ []
cons_digit c (x ∷ xs) = c ∷ x ∷ xs

drop_zeros : List ℕ → List ℕ
drop_zeros [] = []
drop_zeros (c ∷ cs) = cons_digit c (drop_zeros cs)

point : List ℕ → List ℕ
point [] = []
point (c ∷ cs) = b'.' ∷ c ∷ cs

with_zone : List ℕ → List ℕ
with_zone [] = b'Z' ∷ []
with_zone (c ∷ cs) = c ∷ with_zone cs

-- The text from the fraction on: nine digits less the trailing zeros, behind a point, and the zone.
fraction_text : ℕ → List ℕ
unfolding digits_from cons_digit drop_zeros point with_zone
fraction_text nanos = with_zone (point (drop_zeros (digits_from 9 nanos [])))

text_lt : List ℕ → List ℕ → Bool
text_lt [] [] = false
text_lt [] (y ∷ ys) = true
text_lt (x ∷ xs) [] = false
text_lt (x ∷ xs) (y ∷ ys) = if x == y then text_lt xs ys else ltb x y

-- The text of the time `a` sorts before the text of the time `b`.
unfoldable pub timestamp_lt : ℕ → ℕ → Bool
unfolding fraction_text text_lt
timestamp_lt a b =
    if a / nanos_per_second == b / nanos_per_second
    then text_lt (fraction_text (a % nanos_per_second)) (fraction_text (b % nanos_per_second))
    else ltb (a / nanos_per_second) (b / nanos_per_second)
