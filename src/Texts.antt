-- ===== src/Texts.antt =====
-- JavaScript strings as lists of UTF-16 code units, with the classes of characters and the methods
-- that several parts of the program use.
use Prim.Native.Char.{code}
use Prim.Native.String.{String}
use brand_blitz.Prelude.{
  ℕ, ◌+◌, ◌≡◌, ◌↔◌, Bool, true, false, ◌&&◌, ◌||◌, not, List, [], ◌∷◌, arith, leb, ◌-◌, ◌++◌, ◌==◌,
  every, length, if◌then◌else◌,
}

abbrev pub Text : Type 0
Text = List ℕ

-- The empty text, which is falsy.
abbrev pub is_blank : Text → Bool
is_blank [] = true
is_blank (unit ∷ units) = false

-- A literal of the source, which is ASCII.
abbrev pub codes : String → Text
codes String.[] = []
codes (String.◌∷◌ c s) = code c ∷ codes s

abbrev pub is_digit : ℕ → Bool
is_digit c = leb b'0' c && leb c b'9'

-- The white space and line terminators that `trim` removes.
unfoldable pub is_space : ℕ → Bool
is_space c =
    leb 9 c && leb c 13
    || (c == 32
        || (c == 160
            || (c == 0x1680
                || (leb 0x2000 c && leb c 0x200a
                    || (c == 0x2028
                        || (c == 0x2029
                            || (c == 0x202f || (c == 0x205f || (c == 0x3000 || c == 0xfeff)))))))))

-- `Boolean(s.trim())`: some character is no white space.
unfoldable pub has_content : Text → Bool
unfolding is_space
has_content s = not (every is_space s)

unfoldable pub same_text : Text → Text → Bool
same_text [] [] = true
same_text (c ∷ s) (e ∷ t) = c == e && same_text s t
same_text _ _ = false

pub same_text_iff : (s t : Text) → (same_text s t ≡ true) ↔ (s ≡ t)
unfolding same_text
same_text_iff [] [] = ground arith
same_text_iff [] (e ∷ t) = ground arith
same_text_iff (c ∷ s) [] = ground arith
same_text_iff (c ∷ s) (e ∷ t) = ground (arith, same_text_iff s t)

-- `text.includes(part)`, by the position at which the part may start.
abbrev pub starts_with : Text → Text → Bool
starts_with [] s = true
starts_with (p ∷ ps) [] = false
starts_with (p ∷ ps) (c ∷ s) = p == c && starts_with ps s

unfoldable pub includes : Text → Text → Bool
includes part [] = starts_with part []
includes part (c ∷ s) = starts_with part (c ∷ s) || includes part s

abbrev drop_spaces : Text → Text
drop_spaces [] = []
drop_spaces (c ∷ s) = let rest = drop_spaces s in if is_space c then rest else c ∷ s

-- `trim` at the end, from the back.
trim_end : Text → Text
trim_end [] = []
trim_end (c ∷ s) = let rest = trim_end s in if is_space c && length rest == 0 then [] else c ∷ rest

unfoldable pub trim : Text → Text
unfolding trim_end is_space
trim s = trim_end (drop_spaces s)

-- `toUpperCase` of a unit, as far as the result is of ASCII: each other unit stays, where it becomes
-- a text with a unit that is not of ASCII.
abbrev upper_unit : ℕ → Text
upper_unit c =
    if leb b'a' c && leb c b'z'
    then (c - 32) ∷ []
    else if c == 0x131
    then codes "I"
    else if c == 0x17f
    then codes "S"
    else if c == 0xdf
    then codes "SS"
    else if c == 0xfb00
    then codes "FF"
    else if c == 0xfb01
    then codes "FI"
    else if c == 0xfb02
    then codes "FL"
    else if c == 0xfb03
    then codes "FFI"
    else if c == 0xfb04
    then codes "FFL"
    else if c == 0xfb05 || c == 0xfb06
    then codes "ST"
    else c ∷ []

unfoldable pub to_upper_case : Text → Text
to_upper_case [] = []
to_upper_case (c ∷ s) = upper_unit c ++ to_upper_case s

-- How often a text is in a list.
abbrev pub times : Text → List Text → ℕ
times address [] = 0
times address (x ∷ xs) = (if same_text x address then 1 else 0) + times address xs

pub times-append : (x : Text) (xs ys : List Text) → times x (xs ++ ys) ≡ times x xs + times x ys
times-append x [] ys = omega arith
times-append x (y ∷ xs) ys = omega (arith, times-append x xs ys)
