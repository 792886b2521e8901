-- ===== src/Go/Text.antt =====
-- `strings.TrimSpace`, `strings.TrimRight`, `strings.Join` and the order `<` on strings.
use Prim.Native.String
use Prim.Native.String.{[], ◌∷◌}
use go_acp_server.Base.{
  ℕ, Char, code, String, Bool, true, false, ◌&&◌, ◌||◌, List, leb, ltb, nat_eq, if◌then◌else◌, ◌==◌,
  ◌≡◌, refl,
}
use mathlib.Core.List

-- s + t
infixr 65 ◌^^◌
abbrev pub ◌^^◌ : String → String → String
s ^^ t = String.◌++◌ s t

-- unicode.IsSpace
unfoldable pub is_space : ℕ → Bool
is_space c =
    nat_eq c 32
    || (leb 9 c && leb c 13)
    || nat_eq c 0x85
    || nat_eq c 0xa0
    || nat_eq c 0x1680
    || (leb 0x2000 c && leb c 0x200a)
    || nat_eq c 0x2028
    || nat_eq c 0x2029
    || nat_eq c 0x202f
    || nat_eq c 0x205f
    || nat_eq c 0x3000

-- Drops the leading characters that pass the test.
unfoldable pub trim_left : (ℕ → Bool) → String → String
trim_left p [] = []
trim_left p (c ∷ s) = if p (code c) then trim_left p s else c ∷ s

-- Puts a character in front of what is left of a text whose end is dropped.
unfoldable pub keep_char : (ℕ → Bool) → Char → String → String
keep_char p c [] = if p (code c) then [] else c ∷ []
keep_char p c (d ∷ s) = c ∷ d ∷ s

-- Drops the characters at the end that pass the test.
unfoldable pub trim_right : (ℕ → Bool) → String → String
unfolding keep_char
trim_right p [] = []
trim_right p (c ∷ s) = keep_char p c (trim_right p s)

-- strings.TrimSpace
unfoldable pub trim_space : String → String
unfolding trim_left trim_right is_space
trim_space s = trim_right is_space (trim_left is_space s)

-- strings.TrimSpace(s) == ""
unfoldable pub is_blank : String → Bool
unfolding trim_space
is_blank s = trim_space s == ""

-- strings.Join
unfoldable pub join : String → List.List String → String
join sep List.[] = ""
join sep (List.◌∷◌ s List.[]) = s
join sep (List.◌∷◌ s (List.◌∷◌ t r)) = s ^^ sep ^^ join sep (List.◌∷◌ t r)

-- `<` on strings: by code points, which is the order of their bytes in UTF-8.
unfoldable pub str_lt : String → String → Bool
str_lt s [] = false
str_lt [] (d ∷ t) = true
str_lt (c ∷ s) (d ∷ t) = ltb (code c) (code d) || (nat_eq (code c) (code d) && str_lt s t)

trims : trim_space " \ta b \n" ≡ "a b"
unfolding trim_space
trims = refl
