-- ===== src/Common/Texts.antt =====
-- The functions of Go's `strings` that the operator uses.
use Prim.Native.Nat.{ℕ, zero, suc, ◌+◌, ◌-◌}
use Prim.Native.Char.{Char, code}
use Prim.Native.String.{String, [], ◌∷◌}
use mathlib.Core.Bool.{Bool, true, false, ◌||◌, ◌&&◌}
use mathlib.Core.Option.{Option, none, some}
use mathlib.Core.List.{List, [], ◌∷◌}
use composable_resource_oper.Common.Equality.{◌==◌, nat_eq, leb, if◌then◌else◌}

abbrev prepend : Char → List String → List String
prepend c [] = (c ∷ "") ∷ []
prepend c (p ∷ ps) = (c ∷ p) ∷ ps

-- `strings.Split(s, sep)`, for a separator of the one character with the code
abbrev pub split : ℕ → String → List String
split sep [] = "" ∷ []
split sep (c ∷ s) = if code c == sep then "" ∷ split sep s else prepend c (split sep s)

-- `unicode.IsSpace` of the character with the code
abbrev is_space : ℕ → Bool
is_space n =
    (leb 9 n && leb n 13)
    || (n == 32
        || (n == 133
            || (n == 160
                || (n == 5760
                    || ((leb 8192 n && leb n 8202)
                        || (n == 8232
                            || (n == 8233 || (n == 8239 || (n == 8287 || n == 12288)))))))))

abbrev trim_left : (ℕ → Bool) → String → String
trim_left p [] = []
trim_left p (c ∷ s) = let rest = trim_left p s in if p (code c) then rest else c ∷ s

abbrev put : (ℕ → Bool) → Char → String → String
put p c [] = if p (code c) then [] else c ∷ []
put p c (d ∷ s) = c ∷ d ∷ s

abbrev trim_right : (ℕ → Bool) → String → String
trim_right p [] = []
trim_right p (c ∷ s) = put p c (trim_right p s)

-- `strings.TrimSpace`
unfoldable pub trim_space : String → String
trim_space s = trim_right is_space (trim_left is_space s)

-- `strings.Trim(s, ".")`
unfoldable pub trim_dots : String → String
trim_dots s = trim_right (λ n. n == 46) (trim_left (λ n. n == 46) s)

-- `strings.HasPrefix(s, p)`
unfoldable pub has_prefix : String → String → Bool
has_prefix s [] = true
has_prefix [] (d ∷ p) = false
has_prefix (c ∷ s) (d ∷ p) = code c == code d && has_prefix s p

-- `strings.Contains(s, p)`
unfoldable pub contains_text : String → String → Bool
unfolding has_prefix
contains_text [] p = has_prefix [] p
contains_text (c ∷ s) p = has_prefix (c ∷ s) p || contains_text s p

-- `strings.TrimPrefix(s, p)`
abbrev drop_prefix : String → String → String
drop_prefix s [] = s
drop_prefix [] (d ∷ p) = []
drop_prefix (c ∷ s) (d ∷ p) = drop_prefix s p

unfoldable pub trim_prefix : String → String → String
unfolding has_prefix
trim_prefix s p = if has_prefix s p then drop_prefix s p else s

-- What follows the first character with the code; `none` where there is none.
unfoldable pub after_first : ℕ → String → Option String
after_first n [] = none
after_first n (c ∷ s) = if code c == n then some s else after_first n s

abbrev take_field : String → String
take_field [] = []
take_field (c ∷ s) = let rest = take_field s in if is_space (code c) then [] else c ∷ rest

-- `strings.Fields(s)[0]`, and "" where there are no fields
unfoldable pub first_field : String → String
first_field s = take_field (trim_left is_space s)

-- The character of a text at a place, or another
abbrev char_at : String → ℕ → Char → Char
char_at [] n d = d
char_at (c ∷ s) zero d = c
char_at (c ∷ s) (suc n) d = char_at s n d

abbrev shift : ℕ → String → Char → Char
shift first alphabet c =
    if leb first (code c) && leb (code c) (first + 25)
    then char_at alphabet (code c - first) c
    else c

abbrev map_chars : (Char → Char) → String → String
map_chars f [] = []
map_chars f (c ∷ s) = f c ∷ map_chars f s

-- `strings.ToLower` and `strings.ToUpper`, for texts of ASCII characters
unfoldable pub to_lower : String → String
to_lower s = map_chars (shift 65 "abcdefghijklmnopqrstuvwxyz") s

unfoldable pub to_upper : String → String
to_upper s = map_chars (shift 97 "ABCDEFGHIJKLMNOPQRSTUVWXYZ") s
