-- ===== src/Prelude/Text.antt =====
-- Go's string functions on valid UTF-8 text: `strings.TrimSpace`, `utf8.RuneCountInString`, the
-- bytes of a string, and membership in a fixed set of names.
use Prim.Native.Nat.{ℕ, ◌+◌, ◌/◌, ◌%◌}
use Prim.Native.Char.{code}
use Prim.Native.String.{String, count}
use mathlib.Core.Bool.{Bool, true, false, ◌&&◌, ◌||◌}
use mathlib.Core.List.{List, [], ◌∷◌, ◌++◌}
use text.Mathlib.Text.{◌==◌ as text_equal}
use be_better.Prelude.Tests.{ltb, leb, ◌==◌, if◌then◌else◌}

infix 50 ◌=ˢ◌
-- `==` on strings.
abbrev pub ◌=ˢ◌ : String → String → Bool
◌=ˢ◌ = text_equal

-- `utf8.RuneCountInString`
abbrev pub rune_count : String → ℕ
rune_count = count

-- `unicode.IsSpace`
unfoldable pub is_space : ℕ → Bool
is_space c =
    leb 9 c && leb c 13
    || c == 32
    || c == 0x85
    || c == 0xa0
    || c == 0x1680
    || leb 0x2000 c && leb c 0x200a
    || c == 0x2028
    || c == 0x2029
    || c == 0x202f
    || c == 0x205f
    || c == 0x3000

is_blank : String → Bool
is_blank String.[] = true
is_blank (String.◌∷◌ c s) = is_space (code c) && is_blank s

trim_right : String → String
trim_right String.[] = String.[]
trim_right (String.◌∷◌ c s) =
    let rest = trim_right s in
    if is_blank s && is_space (code c) then String.[] else String.◌∷◌ c rest

trim_left : String → String
trim_left String.[] = String.[]
trim_left (String.◌∷◌ c s) =
    let rest = trim_left s in if is_space (code c) then rest else String.◌∷◌ c s

-- `strings.TrimSpace`
unfoldable pub trim_space : String → String
unfolding trim_right trim_left is_blank is_space
trim_space s = trim_right (trim_left s)

-- The UTF-8 bytes of one character.
utf8_char : ℕ → List ℕ
utf8_char c =
    if ltb c 0x80
    then c ∷ []
    else if ltb c 0x800
    then (0xc0 + c / 64) ∷ (0x80 + c % 64) ∷ []
    else if ltb c 0x1_0000
    then (0xe0 + c / 4096) ∷ (0x80 + c / 64 % 64) ∷ (0x80 + c % 64) ∷ []
    else (0xf0 + c / 262144) ∷ (0x80 + c / 4096 % 64) ∷ (0x80 + c / 64 % 64) ∷ (0x80 + c % 64) ∷ []

-- `[]byte(s)`
unfoldable pub bytes_of : String → List ℕ
unfolding utf8_char
bytes_of String.[] = []
bytes_of (String.◌∷◌ c s) = utf8_char (code c) ++ bytes_of s

-- `map[string]bool{...}[s]`
abbrev pub one_of : List String → String → Bool
one_of [] s = false
one_of (x ∷ xs) s = s =ˢ x || one_of xs s
