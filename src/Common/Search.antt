-- ===== src/Common/Search.antt =====
-- Python's tests and trims of texts, on ASCII letters, digits and blanks.
use Prim.Native.Char.{Char, code}
use Prim.Native.String.{String, ◌++◌ as text_append}
use mathlib.Core.Bool.{Bool, true, false, ◌&&◌, ◌||◌}
use mathlib.Core.List.{List, [], ◌∷◌}
use mathlib.Core.Path.{◌≡◌, refl}
use protocol_monitor.Common.Tests.{if◌then◌else◌, ◌==◌, leb}
use protocol_monitor.Common.Upper.{casefold}

abbrev is_digit : Char → Bool
is_digit c = leb (code "0") (code c) && leb (code c) (code "9")

-- `any(char.isdigit() for char in s)`
abbrev pub has_digit : String → Bool
has_digit String.[] = false
has_digit (String.◌∷◌ c s) = is_digit c || has_digit s

abbrev starts_with : String → String → Bool
starts_with String.[] s = true
starts_with (String.◌∷◌ c p) String.[] = false
starts_with (String.◌∷◌ c p) (String.◌∷◌ d s) = code c == code d && starts_with p s

-- `part in s`
abbrev pub contains : String → String → Bool
contains part String.[] = starts_with part String.[]
contains part (String.◌∷◌ c s) = starts_with part (String.◌∷◌ c s) || contains part s

abbrev is_blank : Char → Bool
is_blank c = code c == 32 || (leb 9 (code c) && leb (code c) 13)

abbrev strip_left : String → String
strip_left String.[] = String.[]
strip_left (String.◌∷◌ c s) = let rest = strip_left s in if is_blank c then rest else String.◌∷◌ c s

abbrev cons_right : Char → String → String
cons_right c String.[] = if is_blank c then String.[] else String.◌∷◌ c String.[]
cons_right c (String.◌∷◌ d s) = String.◌∷◌ c (String.◌∷◌ d s)

abbrev strip_right : String → String
strip_right String.[] = String.[]
strip_right (String.◌∷◌ c s) = cons_right c (strip_right s)

-- `s.strip()`
abbrev pub strip : String → String
strip s = strip_right (strip_left s)

-- `separator.join(texts)`
abbrev pub join : String → List String → String
join separator [] = ""
join separator (s ∷ []) = s
join separator (s ∷ t ∷ ts) = text_append s (text_append separator (join separator (t ∷ ts)))

search_run : contains "watch" (casefold (join " " ("No" ∷ "WATCHING" ∷ []))) ≡ true
unfolding casefold
search_run = refl

strip_run : strip "  now " ≡ "now"
strip_run = refl
