-- ===== src/Base/Text.antt =====
-- What the program uses of Go's `strings` and `strconv`: trimming, lower case, decimal print.
use Prim.Native.Nat.{ℕ, zero, suc, ◌-◌, ◌/◌, ◌%◌}
use Prim.Native.Char.{Char, code}
use Prim.Native.String.{String, char_at}
use mathlib.Core.Bool.{Bool, true, false, ◌&&◌, ◌||◌}
use go_gvisor_containerd_let.Base.Tests.{leb, ◌==◌, if◌then◌else◌}

-- unicode.IsSpace.
unfoldable pub is_space : Char → Bool
is_space c =
    (leb 9 n && leb n 13)
    || n == 32
    || n == 0x85
    || n == 0xa0
    || n == 0x1680
    || (leb 0x2000 n && leb n 0x200a)
    || n == 0x2028
    || n == 0x2029
    || n == 0x202f
    || n == 0x205f
    || n == 0x3000
  where
    n : ℕ
    n = code c

abbrev pub is_empty : String → Bool
is_empty String.[] = true
is_empty (String.◌∷◌ c s) = false

unfoldable pub trim_left : String → String
trim_left String.[] = String.[]
trim_left (String.◌∷◌ c s) = if is_space c then trim_left s else (String.◌∷◌ c s)

unfoldable pub cons_trimmed : Char → String → String
cons_trimmed c t = if is_space c && is_empty t then String.[] else (String.◌∷◌ c t)

unfoldable pub trim_right : String → String
trim_right String.[] = String.[]
trim_right (String.◌∷◌ c s) = cons_trimmed c (trim_right s)

-- strings.TrimSpace.
unfoldable pub trim_space : String → String
unfolding is_space trim_left trim_right cons_trimmed
trim_space s = trim_right (trim_left s)

lower_char : Char → Char
lower_char c =
    if leb b'A' (code c) && leb (code c) b'Z'
    then char_at "abcdefghijklmnopqrstuvwxyz" (code c - b'A')
    else c

-- strings.ToLower, on ASCII letters.
unfoldable pub to_lower : String → String
unfolding lower_char
to_lower String.[] = String.[]
to_lower (String.◌∷◌ c s) = String.◌∷◌ (lower_char c) (to_lower s)

unfoldable pub digit : ℕ → Char
digit n = char_at "0123456789" (n % 10)

-- The decimal digits of `n`, before what is printed already; `n < 2 ^ fuel` leaves fuel over.
unfoldable pub decimal_from : ℕ → ℕ → String → String
decimal_from zero n rest = rest
decimal_from (suc fuel) n rest =
    let out = String.◌∷◌ (digit n) rest in
    let more = decimal_from fuel (n / 10) out in if n / 10 == 0 then out else more

-- strconv.Itoa, `%d`.
unfoldable pub decimal : ℕ → String
unfolding decimal_from digit
decimal n = decimal_from (suc n) n String.[]
