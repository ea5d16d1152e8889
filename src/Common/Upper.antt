-- ===== src/Common/Upper.antt =====
-- `str.upper` and `str.casefold` on ASCII text, and the order of texts.
use Prim.Native.Char.{Char, code}
use Prim.Native.String.{String, compare}
use Prim.Native.Nat.{Ordering}
use mathlib.Core.Bool.{Bool, true, false}
use mathlib.Core.List.{List, [], ◌∷◌}
use mathlib.Core.Path.{◌≡◌, refl}
use protocol_monitor.Common.Tests.{if◌then◌else◌, ◌==◌}

abbrev letters : List (Char × Char)
letters =
    ("a", "A")
    ∷ ("b", "B")
    ∷ ("c", "C")
    ∷ ("d", "D")
    ∷ ("e", "E")
    ∷ ("f", "F")
    ∷ ("g", "G")
    ∷ ("h", "H")
    ∷ ("i", "I")
    ∷ ("j", "J")
    ∷ ("k", "K")
    ∷ ("l", "L")
    ∷ ("m", "M")
    ∷ ("n", "N")
    ∷ ("o", "O")
    ∷ ("p", "P")
    ∷ ("q", "Q")
    ∷ ("r", "R")
    ∷ ("s", "S")
    ∷ ("t", "T")
    ∷ ("u", "U")
    ∷ ("v", "V")
    ∷ ("w", "W")
    ∷ ("x", "X")
    ∷ ("y", "Y")
    ∷ ("z", "Z")
    ∷ []

upper_in : List (Char × Char) → Char → Char
upper_in [] c = c
upper_in ((low, high) ∷ rest) c = if code low == code c then high else upper_in rest c

upper_char : Char → Char
unfolding upper_in
upper_char c = upper_in letters c

-- `s.upper()` for ASCII letters.
unfoldable pub upper : String → String
unfolding upper_char
upper String.[] = String.[]
upper (String.◌∷◌ c s) = String.◌∷◌ (upper_char c) (upper s)

lower_in : List (Char × Char) → Char → Char
lower_in [] c = c
lower_in ((low, high) ∷ rest) c = if code high == code c then low else lower_in rest c

lower_char : Char → Char
unfolding lower_in
lower_char c = lower_in letters c

-- `s.casefold()` for ASCII letters.
unfoldable pub casefold : String → String
unfolding lower_char
casefold String.[] = String.[]
casefold (String.◌∷◌ c s) = String.◌∷◌ (lower_char c) (casefold s)

-- `s <= t`
unfoldable pub text_le : String → String → Bool
text_le s t = elim (compare s t) [ Ordering.gt ↦ false | _ ↦ true ]

insert_text : String → List String → List String
unfolding text_le
insert_text s [] = s ∷ []
insert_text s (t ∷ ts) = if text_le s t then s ∷ t ∷ ts else t ∷ insert_text s ts

-- `sorted(texts)`
unfoldable pub sorted_texts : List String → List String
unfolding insert_text
sorted_texts [] = []
sorted_texts (s ∷ ss) = insert_text s (sorted_texts ss)

upper_run : upper "ethUsdt1" ≡ "ETHUSDT1"
unfolding upper
upper_run = refl

sorted_run : sorted_texts ("digital" ∷ "crypto" ∷ []) ≡ "crypto" ∷ "digital" ∷ []
unfolding sorted_texts
sorted_run = refl
