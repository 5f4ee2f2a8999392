-- ===== src/Base/Text.antt =====
-- Go's string functions that the source calls: strings.TrimSpace, strings.Contains,
-- strings.HasPrefix, strings.HasSuffix, and the folded comparison of encoding/json's field names.
use Prim.Native.Nat.{ℕ, ◌+◌}
use Prim.Native.Char.{code}
use Prim.Native.String.{String, [], ◌∷◌}
use mathlib.Core.Path.{◌≡◌, refl, ◌∙◌}
use mathlib.Core.Bool.{Bool, true, false, ◌&&◌, ◌||◌}
use native.Mathlib.Omega.{arith}
use text.Mathlib.Text.{starts_with, ◌==◌}
use iam_catalog_admin.Base.Tests.{leb, eqb, if◌then◌else◌}

-- unicode.IsSpace
unfoldable pub is_space : ℕ → Bool
is_space c =
    (leb 9 c && leb c 13)
    || eqb c 32
    || eqb c 0x85
    || eqb c 0xA0
    || eqb c 0x1680
    || (leb 0x2000 c && leb c 0x200a)
    || (leb 0x2028 c && leb c 0x2029)
    || eqb c 0x202f
    || eqb c 0x205f
    || eqb c 0x3000

-- strings.ContainsRune(s, 0)
abbrev pub has_nul : String → Bool
has_nul [] = false
has_nul (c ∷ s) = eqb (code c) 0 || has_nul s

-- s == ""
abbrev pub is_empty : String → Bool
is_empty [] = true
is_empty (c ∷ s) = false

unfoldable pub trim_left : String → String
trim_left [] = []
trim_left (c ∷ s) = if is_space (code c) then trim_left s else c ∷ s

-- Trailing spaces go: a character stays if it or a later one is no space.
unfoldable pub trim_right : String → String
trim_right [] = []
trim_right (c ∷ s) =
    let rest = trim_right s in if is_space (code c) && is_empty rest then [] else c ∷ rest

unfoldable pub trim_space : String → String
unfolding trim_left trim_right
trim_space s = trim_right (trim_left s)

-- strings.TrimSpace(s) == ""
unfoldable pub is_blank : String → Bool
unfolding trim_space
is_blank s = is_empty (trim_space s)

unfoldable pub all_space : String → Bool
all_space [] = true
all_space (c ∷ s) = is_space (code c) && all_space s

-- strings.Contains(s, t)
unfoldable pub contains : String → String → Bool
contains [] t = starts_with [] t
contains (c ∷ s) t = starts_with (c ∷ s) t || contains s t

-- strings.HasSuffix(s, t)
unfoldable pub has_suffix : String → String → Bool
has_suffix [] t = [] == t
has_suffix (c ∷ s) t = ((c ∷ s) == t) || has_suffix s t

-- The two letters outside of ASCII whose folding is an ASCII letter are the long s and the Kelvin
-- sign.
unfoldable pub lower : ℕ → ℕ
lower c =
    if leb 65 c && leb c 90
    then c + 32
    else if eqb c 0x17F
    then 115
    else if eqb c 0x212A
    then 107
    else c

-- Equal up to case, where the second text is ASCII, as the names of the program's fields are.
unfoldable pub fold_eq : String → String → Bool
unfolding lower
fold_eq [] [] = true
fold_eq [] (d ∷ t) = false
fold_eq (c ∷ s) [] = false
fold_eq (c ∷ s) (d ∷ t) = eqb (lower (code c)) (lower (code d)) && fold_eq s t

pub is_empty-eq : (s : String) → is_empty s ≡ true → s ≡ ""
is_empty-eq [] h = refl
is_empty-eq (c ∷ s) h = cc

trim_right-blank : (s : String) → is_empty (trim_right s) ≡ all_space s
unfolding trim_right all_space
trim_right-blank [] = refl
trim_right-blank (c ∷ s) = ground (arith, trim_right-blank s)

all_space-trim_left : (s : String) → all_space (trim_left s) ≡ all_space s
unfolding trim_left all_space
all_space-trim_left [] = refl
all_space-trim_left (c ∷ s) = ground (arith, all_space-trim_left s)

-- A text is blank after trimming exactly if all its characters are spaces.
pub is_blank-eq-all_space : (s : String) → is_blank s ≡ all_space s
unfolding is_blank
is_blank-eq-all_space s = trim_right-blank (trim_left s) ∙ all_space-trim_left s

-- A text that is not blank is not empty.
pub nonempty_of_blank : (s : String) → is_blank s ≡ false → is_empty s ≡ false
unfolding all_space
nonempty_of_blank [] h = ground (arith, is_blank-eq-all_space [])
nonempty_of_blank (c ∷ s) h = refl

blank_test : is_blank "  \t" ≡ true
unfolding is_blank is_space
blank_test = refl

fold_test : fold_eq "iſ_active" "is_active" ≡ true
unfolding fold_eq
fold_test = refl

trim_test : trim_space " a b " ≡ "a b"
unfolding trim_space is_space
trim_test = refl

contains_test : contains "x (SQLSTATE 57P01)" "SQLSTATE 57" ≡ true
unfolding contains
contains_test = refl
