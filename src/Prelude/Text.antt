-- ===== src/Prelude/Text.antt =====
-- Texts as lists of UTF-16 code units, with the string methods of the language that the program
-- calls: `trim`, `\s`, `\d`, `toUpperCase`, `padStart`.
use Prim.Native.Nat.{ℕ, ◌-◌, ◌≤◌}
use Prim.Native.Char.{code}
use Prim.Native.String.{String}
use mathlib.Core.Path.{◌≡◌, refl, ap, ◌∙◌}
use mathlib.Core.List.{List, [], ◌∷◌, ◌++◌, map, reverse, reverse-reverse}
use mathlib.Core.Bool.{Bool, true, not, ◌&&◌, ◌||◌}
use native.Mathlib.Omega.{arith}
use cerniq_app_v.Prelude.Tests.{leb, ◌==◌, if◌then◌else◌}
use cerniq_app_v.Prelude.Lists.{
  length, replicate, length-append, length-replicate, every, every-reverse,
}

-- The code points of a native text: its code units, if it is ASCII.
abbrev pub codes : String → List ℕ
codes String.[] = []
codes (String.◌∷◌ c s) = code c ∷ codes s

-- `\d`
unfoldable pub is_digit : ℕ → Bool
is_digit c = leb b'0' c && leb c b'9'

-- `\s`, which is also what `trim` removes: the white space and line terminators of ECMAScript.
unfoldable pub is_space : ℕ → Bool
is_space c =
    (leb 9 c && leb c 13)
    || c == 32
    || c == 0xa0
    || c == 0x1680
    || (leb 0x2000 c && leb c 0x200a)
    || c == 0x2028
    || c == 0x2029
    || c == 0x202f
    || c == 0x205f
    || c == 0x3000
    || c == 0xfeff

-- `toUpperCase` on one ASCII code unit; every other one is left as it is.
unfoldable pub to_upper : ℕ → ℕ
to_upper c = if leb b'a' c && leb c b'z' then c - 32 else c

unfoldable pub trim_start : List ℕ → List ℕ
unfolding is_space
trim_start [] = []
trim_start (c ∷ s) = if is_space c then trim_start s else c ∷ s

unfoldable pub trim : List ℕ → List ℕ
unfolding trim_start
trim s = reverse (trim_start (reverse (trim_start s)))

-- `s.padStart(n, c)` for one code unit `c`: nothing is cut off a longer text.
unfoldable pub pad_start : ℕ → ℕ → List ℕ → List ℕ
pad_start n c s = replicate (n - length s) c ++ s

pub length-pad_start : (n c : ℕ) (s : List ℕ) → length s ≤ n → length (pad_start n c s) ≡ n
unfolding pad_start
length-pad_start n c s h =
    omega (arith, length-append (replicate (n - length s) c) s, length-replicate (n - length s) c)

-- Not white space.
abbrev pub is_solid : ℕ → Bool
is_solid c = not (is_space c)

trim_start_solid : (s : List ℕ) → every is_solid s ≡ true → trim_start s ≡ s
unfolding trim_start
trim_start_solid [] h = refl
trim_start_solid (c ∷ s) h = ground arith

-- A text with no white space is its own trimming.
pub trim_solid : (s : List ℕ) → every is_solid s ≡ true → trim s ≡ s
unfolding trim
trim_solid s h =
    ap (λ t. reverse (trim_start (reverse t))) (trim_start_solid s h)
    ∙ (ap reverse (trim_start_solid (reverse s) (every-reverse is_solid s h)) ∙ reverse-reverse s)

-- A text with no lower case letter is its own upper case.
pub map-to_upper_id : (s : List ℕ) → every (λ c. to_upper c == c) s ≡ true → map to_upper s ≡ s
map-to_upper_id [] h = refl
map-to_upper_id (c ∷ s) h = ground (arith, map-to_upper_id s)

pub digit-is_solid : (c : ℕ) → is_digit c ≡ true → is_solid c ≡ true
unfolding is_digit is_space
digit-is_solid c h = ground arith

pub digit-to_upper : (c : ℕ) → is_digit c ≡ true → (to_upper c == c) ≡ true
unfolding is_digit to_upper
digit-to_upper c h = ground arith
