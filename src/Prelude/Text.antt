-- ===== src/Prelude/Text.antt =====
-- `strings.ToLower`, `strings.ToUpper` and `strings.TrimSpace`. Letters outside ASCII are left as
-- they are; the white space is Unicode's.
use Prim.Native.Nat.{◌-◌}
use Prim.Native.Char.{Char, code}
use Prim.Native.String.{String, [], ◌∷◌, char_at}
use mathlib.Core.Bool.{Bool, ◌&&◌, ◌||◌}
use flyto_warroom.Prelude.Tests.{leb, ◌==◌, if◌then◌else◌}

abbrev lower_letters : String
lower_letters = "abcdefghijklmnopqrstuvwxyz"

abbrev upper_letters : String
upper_letters = "ABCDEFGHIJKLMNOPQRSTUVWXYZ"

lower_char : Char → Char
lower_char c = let n = code c in if leb 65 n && leb n 90 then char_at lower_letters (n - 65) else c

upper_char : Char → Char
upper_char c = let n = code c in if leb 97 n && leb n 122 then char_at upper_letters (n - 97) else c

unfoldable pub to_lower : String → String
unfolding lower_char
to_lower [] = []
to_lower (c ∷ s) = lower_char c ∷ to_lower s

unfoldable pub to_upper : String → String
unfolding upper_char
to_upper [] = []
to_upper (c ∷ s) = upper_char c ∷ to_upper s

-- `unicode.IsSpace`
is_space : Char → Bool
is_space c =
    let n = code c in
    leb 9 n && leb n 13
    || n == 32
    || n == 133
    || n == 160
    || n == 5760
    || leb 8192 n && leb n 8202
    || n == 8232
    || n == 8233
    || n == 8239
    || n == 8287
    || n == 12288

trim_left : String → String
unfolding is_space
trim_left [] = []
trim_left (c ∷ s) = if is_space c then trim_left s else c ∷ s

-- a character is dropped when only white space follows it, and it is white space itself
keep_right : Char → String → String
unfolding is_space
keep_right c [] = if is_space c then [] else c ∷ []
keep_right c (d ∷ s) = c ∷ d ∷ s

trim_right : String → String
unfolding keep_right
trim_right [] = []
trim_right (c ∷ s) = keep_right c (trim_right s)

unfoldable pub trim_space : String → String
unfolding trim_left trim_right
trim_space s = trim_right (trim_left s)
