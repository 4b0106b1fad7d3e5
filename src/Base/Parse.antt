-- ===== src/Base/Parse.antt =====
-- What the program uses of Go's `strings` and `strconv` to read text: prefixes, fields, integers.
use Prim.Native.Nat.{ℕ, zero, suc, ◌+◌, ◌-◌, ◌*◌, ◌^◌}
use Prim.Native.Char.{Char, code}
use Prim.Native.String.{String}
use mathlib.Core.Bool.{Bool, true, false, ◌&&◌, ◌||◌}
use mathlib.Core.Option.{Option, none, some}
use mathlib.Core.List.{List, [], ◌∷◌}
use go_gvisor_containerd_let.Base.Tests.{ltb, leb, ◌==◌, if◌then◌else◌}
use go_gvisor_containerd_let.Base.Int.{ℤ, pos, negsuc}
use go_gvisor_containerd_let.Base.Text.{is_space, is_empty}

-- strings.HasPrefix, the prefix first.
unfoldable pub has_prefix : String → String → Bool
has_prefix String.[] s = true
has_prefix (String.◌∷◌ c p) String.[] = false
has_prefix (String.◌∷◌ c p) (String.◌∷◌ d s) = code c == code d && has_prefix p s

-- strings.Contains, the substring first.
unfoldable pub contains : String → String → Bool
unfolding has_prefix
contains p String.[] = is_empty p
contains p (String.◌∷◌ d s) = has_prefix p (String.◌∷◌ d s) || contains p s

push_word : String → List String → List String
push_word w ws = if is_empty w then ws else w ∷ ws

-- The word that a text starts with, which is empty before a space, and the words behind it.
words : String → String × List String
unfolding push_word
words String.[] = (String.[], [])
words (String.◌∷◌ c s) =
    let (w, ws) = words s in
    if is_space c then (String.[], push_word w ws) else (String.◌∷◌ c w, ws)

-- strings.Fields.
unfoldable pub fields : String → List String
unfolding words push_word is_space
fields s = let (w, ws) = words s in push_word w ws

unfoldable pub is_digit : Char → Bool
is_digit c = leb b'0' (code c) && leb (code c) b'9'

unfoldable pub digits_from : ℕ → String → Option ℕ
digits_from n String.[] = some n
digits_from n (String.◌∷◌ c s) =
    let rest = digits_from (n * 10 + (code c - b'0')) s in if is_digit c then rest else none

unfoldable pub digits : String → Option ℕ
unfolding digits_from is_digit
digits String.[] = none
digits (String.◌∷◌ c s) = digits_from 0 (String.◌∷◌ c s)

unfoldable pub below : Option ℕ → Option ℤ
below none = none
below (some n) = if ltb n (2 ^ 63) then some (pos n) else none

negated : Option ℕ → Option ℤ
negated none = none
negated (some zero) = some (pos 0)
negated (some (suc n)) = if ltb n (2 ^ 63) then some (negsuc n) else none

-- strconv.ParseInt in base 10, for 64 bits; `none` is an error.
unfoldable pub parse_int : String → Option ℤ
unfolding digits below negated
parse_int String.[] = none
parse_int (String.◌∷◌ c s) =
    if code c == b'-'
    then negated (digits s)
    else below (digits (if code c == b'+' then s else String.◌∷◌ c s))
