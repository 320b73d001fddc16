-- ===== src/Prelude/Words.antt =====
-- Texts as JavaScript trims and splits them at white space; letters are taken for ASCII ones.
use Prim.Native.Char.{Char, code}
use Prim.Native.Nat.{ℕ, zero, suc, ◌+◌, ◌-◌}
use Prim.Native.String.{String}
use mathlib.Core.Bool.{Bool, true, false, ◌&&◌, ◌||◌}
use mathlib.Core.List.{List, [], ◌∷◌}
use droid_swarm.Prelude.Tests.{leb, nat_eq, ◌==◌, if◌then◌else◌}

-- The code of the small letter
abbrev pub lower_code : Char → ℕ
lower_code c = if leb 65 (code c) && leb (code c) 90 then code c + 32 else code c

-- The character at a place of a text, or another where it ends
abbrev pub char_or : String → ℕ → Char → Char
char_or String.[] n d = d
char_or (String.◌∷◌ c text) zero d = c
char_or (String.◌∷◌ c text) (suc n) d = char_or text n d

abbrev pub lower_char : Char → Char
lower_char c =
    if leb 65 (code c) && leb (code c) 90
    then char_or "abcdefghijklmnopqrstuvwxyz" (code c - 65) c
    else c

-- `text.toLowerCase()`
unfoldable pub lower : String → String
lower String.[] = ""
lower (String.◌∷◌ c text) = String.◌∷◌ (lower_char c) (lower text)

-- `text.toLowerCase() === word`
unfoldable pub lowers_to : String → String → Bool
lowers_to String.[] String.[] = true
lowers_to String.[] (String.◌∷◌ w word) = false
lowers_to (String.◌∷◌ c text) String.[] = false
lowers_to (String.◌∷◌ c text) (String.◌∷◌ w word) =
    let rest = lowers_to text word in nat_eq (lower_code c) (code w) && rest

-- The code units of `text.length`
unfoldable pub text_length : String → ℕ
text_length String.[] = 0
text_length (String.◌∷◌ c text) = (if leb 0x10000 (code c) then 2 else 1) + text_length text

-- The characters of `\s`, which `trim` removes
unfoldable pub is_space : Char → Bool
is_space c =
    let n = code c in
    (leb 9 n && leb n 13)
    || nat_eq n 32
    || nat_eq n 0xA0
    || nat_eq n 0x1680
    || (leb 0x2000 n && leb n 0x200A)
    || nat_eq n 0x2028
    || nat_eq n 0x2029
    || nat_eq n 0x202F
    || nat_eq n 0x205F
    || nat_eq n 0x3000
    || nat_eq n 0xFEFF

unfoldable pub trim_start : String → String
unfolding is_space
trim_start String.[] = ""
trim_start (String.◌∷◌ c text) = if is_space c then trim_start text else String.◌∷◌ c text

unfoldable pub trim_end : String → String
unfolding is_space
trim_end String.[] = ""
trim_end (String.◌∷◌ c text) =
    let rest = trim_end text in if is_space c && rest == "" then "" else String.◌∷◌ c rest

-- `text.trim()`
unfoldable pub trim : String → String
unfolding trim_start trim_end
trim text = trim_end (trim_start text)

abbrev pub prepend : Char → List String → List String
prepend c [] = String.◌∷◌ c "" ∷ []
prepend c (w ∷ ws) = String.◌∷◌ c w ∷ ws

-- The parts of a text; the flag says that white space has just been read.
unfoldable pub parts_from : Bool → String → List String
unfolding is_space
parts_from gap String.[] = "" ∷ []
parts_from true (String.◌∷◌ c text) =
    let skip = parts_from true text in
    let keep = prepend c (parts_from false text) in if is_space c then skip else keep
parts_from false (String.◌∷◌ c text) =
    let cut = parts_from true text in
    let keep = prepend c (parts_from false text) in if is_space c then "" ∷ cut else keep

-- `text.split(/\s+/)`
unfoldable pub split_spaces : String → List String
unfolding parts_from
split_spaces text = parts_from false text
