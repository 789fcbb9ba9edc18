-- ===== src/Prelude/Order.antt =====
-- The order of texts by their code points, as Python compares strings.
use Prim.Native.Nat.compare as compare_ℕ
use Prim.Native.Nat.{ℕ, zero, suc, Ordering, compare as compare_ℕ}
use Prim.Native.Char.{code}
use Prim.Native.String.compare
use Prim.Native.String.{String, [] as empty, ◌∷◌ as push, compare, then as on_equal}
use mathlib.Core.Path.{◌≡◌, refl}
use mathlib.Core.Bool.{Bool, true, false}

abbrev pub text_leb : String → String → Bool
text_leb s t = elim (compare s t) [ Ordering.gt ↦ false | _ ↦ true ]

data Flips : Ordering → Ordering → Type 0 where
  less_more : Flips Ordering.lt Ordering.gt
  same_same : Flips Ordering.eq Ordering.eq
  more_less : Flips Ordering.gt Ordering.lt

Flips-number : (m n : ℕ) → Flips (compare_ℕ m n) (compare_ℕ n m)
Flips-number zero zero = same_same
Flips-number zero (suc n) = rw (compare_ℕ.zero-suc n) (rw (compare_ℕ.suc-zero n) less_more)
Flips-number (suc m) zero = rw (compare_ℕ.zero-suc m) (rw (compare_ℕ.suc-zero m) more_less)
Flips-number (suc m) (suc n) =
    rw (compare_ℕ.suc-suc m n) (rw (compare_ℕ.suc-suc n m) (Flips-number m n))

Flips-on_equal : {o p q r : Ordering} → Flips o p → Flips q r → Flips (on_equal o q) (on_equal p r)
Flips-on_equal less_more f = less_more
Flips-on_equal same_same f = f
Flips-on_equal more_less f = more_less

Flips-text : (s t : String) → Flips (compare s t) (compare t s)
Flips-text empty empty = same_same
Flips-text empty (push d t) = rw (compare.nil-cons d t) (rw (compare.cons-nil d t) less_more)
Flips-text (push c s) empty = rw (compare.nil-cons c s) (rw (compare.cons-nil c s) more_less)
Flips-text (push c s) (push d t) = rw (compare.cons-cons c d s t) (
    rw (compare.cons-cons d c t s)
      (Flips-on_equal (Flips-number (code c) (code d)) (Flips-text s t)))

-- Of two texts one is at most the other.
pub text_leb_total : (s t : String) → text_leb s t ≡ false → text_leb t s ≡ true
text_leb_total s t h = by_flip (Flips-text s t) h
  where
    by_flip :
        {o p : Ordering}
        → Flips o p
        → elim o [ Ordering.gt ↦ false | _ ↦ true ] ≡ false
        → elim p [ Ordering.gt ↦ false | _ ↦ true ] ≡ true
    by_flip less_more h = absurd (cc)
    by_flip same_same h = refl
    by_flip more_less h = refl
