-- ===== src/Common/Host.antt =====
-- What the program takes from JavaScript: numbers and white space.
use Prim.Native.Nat.{ℕ, ◌+◌}
use Prim.Native.Char.{code}
use Prim.Native.String.{String}
use mathlib.Core.Bool.{Bool, true, ◌&&◌, ◌||◌}
use mathlib.Core.List.{List, [], ◌∷◌}
use myadmin.Common.Tests.{leb, ◌==◌, nat_eq, if◌then◌else◌}

-- A JavaScript number: a whole one that is not negative, the whole one -(n + 1), or any other
-- (a fraction, an infinity, NaN).
pub data Number : Type 0 where
  nat : ℕ → Number
  neg : ℕ → Number
  not_whole : Number

-- `Number.MAX_SAFE_INTEGER`
abbrev pub max_safe_integer : ℕ
max_safe_integer = 9007199254740991

-- `/\s/`, and what `trim` removes.
unfoldable pub is_space : ℕ → Bool
is_space c =
    (leb 9 c && leb c 13)
    || (c == 32)
    || (c == 0xa0)
    || (c == 0x1680)
    || (leb 0x2000 c && leb c 0x200a)
    || (c == 0x2028)
    || (c == 0x2029)
    || (c == 0x202f)
    || (c == 0x205f)
    || (c == 0x3000)
    || (c == 0xfeff)

unfoldable pub all_space : List ℕ → Bool
all_space [] = true
all_space (c ∷ cs) = is_space c && all_space cs

-- `Array.from` of a text, as code points.
abbrev pub codes : String → List ℕ
codes (String.◌∷◌ first others) = code first ∷ codes others
codes String.[] = []

-- `value.trim().length === 0`
unfoldable pub is_blank : String → Bool
unfolding all_space is_space
is_blank s = all_space (codes s)

-- `length` of a JavaScript string: a code point beyond the basic plane is two units.
unfoldable pub units : List ℕ → ℕ
units [] = 0
units (c ∷ cs) = (if leb 0x10000 c then 2 else 1) + units cs

unfoldable pub utf16_length : String → ℕ
unfolding units
utf16_length s = units (codes s)
