-- ===== src/Prelude/Text.antt =====
-- Python's `str` as the program uses it: `strip`, concatenation, ASCII lower case, decimals.
use Prim.Native.Nat.{ℕ, zero, suc, ◌+◌, ◌/◌, ◌%◌}
use Prim.Native.Char.{Char, code}
use Prim.Native.String.{String, [], ◌∷◌}
use mathlib.Core.Path.{◌≡◌, refl}
use mathlib.Core.Bool.{Bool, true, false, ◌&&◌, ◌||◌}
use mathlib.Core.List.{List}
use native.Mathlib.Omega.{arith}
use astrbot_plugin_groupmate.Prelude.Tests.{leb, ltb, nat_eq, ◌==◌, text_eq, if◌then◌else◌}
use astrbot_plugin_groupmate.Prelude.Int.{ℤ, pos, negsuc}

unfoldable pub String-discrete : Discrete String
String-discrete s t = decide_by (s == t) refl
  where
    decide_by : (b : Bool) → (s == t) ≡ b → Dec (s ≡ t)
    decide_by true e = yes ((text_eq s t).0 e)
    decide_by false e = no (λ p. ground (arith, text_eq s t))

-- `str.isspace` of one character: the code points that Python's `strip` removes.
unfoldable pub is_space : ℕ → Bool
is_space c =
    leb 9 c && leb c 13
    || leb 28 c && leb c 32
    || nat_eq c 133
    || nat_eq c 160
    || nat_eq c 5760
    || leb 8192 c && leb c 8202
    || nat_eq c 8232
    || nat_eq c 8233
    || nat_eq c 8239
    || nat_eq c 8287
    || nat_eq c 12288

abbrev pub is_empty : String → Bool
is_empty [] = true
is_empty (c ∷ s) = false

unfoldable pub lstrip : String → String
lstrip [] = []
lstrip (c ∷ s) = if is_space (code c) then lstrip s else c ∷ s

unfoldable pub rstrip : String → String
rstrip [] = []
rstrip (c ∷ s) = let rest = rstrip s in if is_space (code c) && is_empty rest then [] else c ∷ rest

unfoldable pub strip : String → String
unfolding lstrip rstrip is_space
strip s = rstrip (lstrip s)

rstrip-rstrip : (s : String) → rstrip (rstrip s) ≡ rstrip s
unfolding rstrip
rstrip-rstrip [] = refl
rstrip-rstrip (c ∷ s) = ground (arith, rstrip-rstrip s)

lstrip-rstrip-cons :
    (c : Char) (s : String) → is_space (code c) ≡ false → lstrip (rstrip (c ∷ s)) ≡ rstrip (c ∷ s)
unfolding lstrip rstrip
lstrip-rstrip-cons c s h = ground arith

lstrip-rstrip-lstrip : (s : String) → lstrip (rstrip (lstrip s)) ≡ rstrip (lstrip s)
unfolding lstrip
lstrip-rstrip-lstrip [] = unfold rstrip in refl
lstrip-rstrip-lstrip (c ∷ s) = ground (arith, lstrip-rstrip-lstrip s, lstrip-rstrip-cons c s)

-- Stripping twice is stripping once.
pub strip-strip : (s : String) → strip (strip s) ≡ strip s
strip-strip s = unfold strip in rw (lstrip-rstrip-lstrip s) (rstrip-rstrip (lstrip s))

unfoldable pub concat : String → String → String
concat [] t = t
concat (c ∷ s) t = c ∷ concat s t

pub concat_inj : (s t u : String) → concat s t ≡ concat s u → t ≡ u
unfolding concat
concat_inj [] t u h = h
concat_inj (c ∷ s) t u h = concat_inj s t u (cc)

-- The code points of a text, with the ASCII letters in lower case.
unfoldable pub lower_codes : String → List ℕ
lower_codes [] = List.[]
lower_codes (c ∷ s) =
    List.◌∷◌ (if leb 65 (code c) && leb (code c) 90 then code c + 32 else code c) (lower_codes s)

abbrev pub digit : ℕ → String
digit d =
    if nat_eq d 0
    then "0"
    else if nat_eq d 1
    then "1"
    else if nat_eq d 2
    then "2"
    else if nat_eq d 3
    then "3"
    else if nat_eq d 4
    then "4"
    else if nat_eq d 5
    then "5"
    else if nat_eq d 6
    then "6"
    else if nat_eq d 7
    then "7"
    else if nat_eq d 8
    then "8"
    else "9"

-- `str(n)`; a number has fewer digits than `n + 1`, so that fuel is enough.
unfoldable pub decimal_fuel : ℕ → ℕ → String
decimal_fuel zero n = []
decimal_fuel (suc f) n =
    let front = decimal_fuel f (n / 10) in
    if ltb n 10 then digit n else concat front (digit (n % 10))

unfoldable pub decimal : ℤ → String
unfolding decimal_fuel concat
decimal (pos n) = decimal_fuel (suc n) n
decimal (negsuc n) = concat "-" (decimal_fuel (suc (suc n)) (suc n))
