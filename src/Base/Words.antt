-- ===== src/Base/Words.antt =====
-- Go's `strings.Fields` and `strings.Join(_, " ")`.
use Prim.Native.Char.{Char, code}
use Prim.Native.String.{String, ◌++◌}
use mathlib.Core.Bool.{Bool, true, false, ◌||◌, ◌&&◌}
use mathlib.Core.List.{List, [], ◌∷◌}
use regenerative_architectur.Base.Tests.{nat_eq, leb, if◌then◌else◌}

-- unicode.IsSpace.
unfoldable pub is_space : Char → Bool
is_space c =
    let n = code c in
    leb 0x09 n && leb n 0x0d
    || nat_eq n 0x20
    || nat_eq n 0x85
    || nat_eq n 0xa0
    || nat_eq n 0x1680
    || leb 0x2000 n && leb n 0x200a
    || nat_eq n 0x2028
    || nat_eq n 0x2029
    || nat_eq n 0x202f
    || nat_eq n 0x205f
    || nat_eq n 0x3000

abbrev on_first : Char → List String → List String
on_first c [] = (String.◌∷◌ c String.[]) ∷ []
on_first c (w ∷ ws) = (String.◌∷◌ c w) ∷ ws

-- A letter before a text: whether that text begins with a word, and its words.
unfoldable pub extend : Char → Bool × List String → Bool × List String
extend c (touches, ws) =
    if is_space c
    then (false, ws)
    else (true, if touches then on_first c ws else (String.◌∷◌ c String.[]) ∷ ws)

unfoldable pub scan : String → Bool × List String
scan String.[] = (false, [])
scan (String.◌∷◌ c s) = extend c (scan s)

-- The maximal runs of characters that are no spaces.
unfoldable pub fields : String → List String
unfolding scan extend is_space
fields s = (scan s).1

unfoldable pub join : List String → String
join [] = ""
join (x ∷ xs) = elim xs [ [] ↦ x | y ∷ ys ↦ x ++ " " ++ join xs ]

-- `strings.TrimSpace(s) == ""`
unfoldable pub is_blank : String → Bool
unfolding is_space
is_blank String.[] = true
is_blank (String.◌∷◌ c s) = let rest = is_blank s in is_space c && rest
