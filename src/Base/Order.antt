-- ===== src/Base/Order.antt =====
-- The order of texts, character by character: Go's `<` on strings.
use Prim.Native.String.{String, compare}
use Prim.Native.String.compare
use Prim.Native.Nat.{Ordering}
use mathlib.Core.Path.{◌≡◌}
use native.Mathlib.Omega.{arith}

abbrev pub IsBelow : String → String → Type 0
IsBelow s t = compare s t ≡ Ordering.lt

pub IsBelow-trans : (s t u : String) → IsBelow s t → IsBelow t u → IsBelow s u
IsBelow-trans String.[] String.[] u h k = ground (arith, compare.nil-nil)
IsBelow-trans String.[] (String.◌∷◌ d t) String.[] h k = ground (arith, compare.cons-nil d t)
IsBelow-trans String.[] (String.◌∷◌ d t) (String.◌∷◌ e u) h k = compare.nil-cons e u
IsBelow-trans (String.◌∷◌ c s) String.[] u h k = ground (arith, compare.cons-nil c s)
IsBelow-trans (String.◌∷◌ c s) (String.◌∷◌ d t) String.[] h k = ground (arith, compare.cons-nil d t)
IsBelow-trans (String.◌∷◌ c s) (String.◌∷◌ d t) (String.◌∷◌ e u) h k = ground (
  arith,
  compare.cons-cons c d s t,
  compare.cons-cons d e t u,
  compare.cons-cons c e s u,
  IsBelow-trans s t u,
)

pub IsBelow-asym : (s t : String) → IsBelow s t → ¬ (IsBelow t s)
IsBelow-asym String.[] String.[] h k = ground (arith, compare.nil-nil)
IsBelow-asym String.[] (String.◌∷◌ d t) h k = ground (arith, compare.cons-nil d t)
IsBelow-asym (String.◌∷◌ c s) String.[] h k = ground (arith, compare.cons-nil c s)
IsBelow-asym (String.◌∷◌ c s) (String.◌∷◌ d t) h k =
    ground (arith, compare.cons-cons c d s t, compare.cons-cons d c t s, IsBelow-asym s t)

-- Of two texts that are not equal one is below the other.
pub IsBelow-total :
    (s t : String) → ¬ (compare s t ≡ Ordering.lt) → ¬ (compare s t ≡ Ordering.eq) → IsBelow t s
IsBelow-total String.[] String.[] h k = elim (k compare.nil-nil) [ ]
IsBelow-total String.[] (String.◌∷◌ d t) h k = elim (h (compare.nil-cons d t)) [ ]
IsBelow-total (String.◌∷◌ c s) String.[] h k = compare.nil-cons c s
IsBelow-total (String.◌∷◌ c s) (String.◌∷◌ d t) h k =
    ground (arith, compare.cons-cons c d s t, compare.cons-cons d c t s, IsBelow-total s t)
