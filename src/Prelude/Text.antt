-- ===== src/Prelude/Text.antt =====
-- Python's operations on texts: `endswith`, slices by a negative bound, `strip`, `split`, `int`
-- and the decimal form that an f-string gives a number.
use Prim.Native.Nat.{ℕ, zero, suc, ◌+◌, ◌-◌, ◌*◌, ◌/◌, ◌%◌}
use Prim.Native.Char.{code}
use Prim.Native.String.{String, len, slice}
use Prim.Native.String
use mathlib.Core.Bool.{Bool, true, false, not, ◌&&◌, ◌||◌}
use mathlib.Core.Path.{◌≡◌, refl}
use mathlib.Core.Option
use mathlib.Core.Option.{Option, none, some}
use mathlib.Core.List.{List, [], ◌∷◌, map}
use text.Mathlib.Text.{find?}
use ledger_sdk.Prelude.Tests.{◌==◌, leb, ltb, eqb, is_some, if◌then◌else◌}
use ledger_sdk.Prelude.Int.{ℤ, pos, negsuc}

infixr 66 ◌<>◌
abbrev pub ◌<>◌ : String → String → String
a <> b = String.◌++◌ a b

-- `s.endswith(t)`
abbrev pub ends_with : String → String → Bool
ends_with s t = leb (len t) (len s) && (slice s (len s - len t) (len s) == t)

-- `s[:-n]`
abbrev pub drop_last : ℕ → String → String
drop_last n s = slice s 0 (len s - n)

-- `t in s`
abbrev pub has_text : String → String → Bool
has_text s t = is_some (find? s t)

-- `s.split(c)[1]` for a one-byte separator; `none` is the IndexError.
abbrev pub split_second : String → String → Option String
split_second s c = elim (find? s c) [
  | none ↦ none
  | some i ↦
      let rest = slice s (i + len c) (len s) in
      elim (find? rest c) [ none ↦ some rest | some j ↦ some (slice rest 0 j) ]
]

-- `s.split(c)[0]`
abbrev pub split_first : String → String → String
split_first s c = elim (find? s c) [ none ↦ s | some i ↦ slice s 0 i ]

-- The code points of a text.
unfoldable pub codes : String → List ℕ
codes String.[] = []
codes (String.◌∷◌ c s) = code c ∷ codes s

abbrev no_bracket : List ℕ → Bool
no_bracket [] = true
no_bracket (c ∷ cs) = not (eqb c 91) && no_bracket cs

-- A pattern of fnmatch without a class of characters: no code point is that of "[".
unfoldable pub plain_pattern : String → Bool
unfolding codes
plain_pattern p = no_bracket (codes p)

abbrev negated : ℕ → ℤ
negated zero = pos 0
negated (suc n) = negsuc n

-- ASCII white space; the wider Unicode classes that Python also strips are not represented.
abbrev is_space : ℕ → Bool
is_space c = (eqb c 32) || (leb 9 c && leb c 13) || (leb 28 c && leb c 31)

unfoldable pub lstrip : List ℕ → List ℕ
lstrip [] = []
lstrip (c ∷ cs) = let rest = lstrip cs in if is_space c then rest else c ∷ cs

rstrip_onto : ℕ → List ℕ → List ℕ
rstrip_onto c [] = if is_space c then [] else c ∷ []
rstrip_onto c (d ∷ ds) = c ∷ d ∷ ds

unfoldable pub rstrip : List ℕ → List ℕ
unfolding rstrip_onto
rstrip [] = []
rstrip (c ∷ cs) = rstrip_onto c (rstrip cs)

-- `s.strip()`
unfoldable pub lstrip_text : String → String
lstrip_text String.[] = ""
lstrip_text (String.◌∷◌ c s) =
    let rest = lstrip_text s in if is_space (code c) then rest else String.◌∷◌ c s

-- Whether no character is left after the white space.
unfoldable pub is_blank : String → Bool
is_blank String.[] = true
is_blank (String.◌∷◌ c s) = is_space (code c) && is_blank s

unfoldable pub rstrip_text : String → String
unfolding is_blank
rstrip_text String.[] = ""
rstrip_text (String.◌∷◌ c s) =
    let rest = rstrip_text s in if is_space (code c) && is_blank s then "" else String.◌∷◌ c rest

unfoldable pub strip : String → String
unfolding lstrip_text rstrip_text
strip s = rstrip_text (lstrip_text s)

-- The characters that the source strips from a quoted name.
abbrev is_quote : ℕ → Bool
is_quote c = eqb c 34 || eqb c 39

unfoldable pub lstrip_quotes : List ℕ → List ℕ
lstrip_quotes [] = []
lstrip_quotes (c ∷ cs) = let rest = lstrip_quotes cs in if is_quote c then rest else c ∷ cs

rstrip_quotes_onto : ℕ → List ℕ → List ℕ
rstrip_quotes_onto c [] = if is_quote c then [] else c ∷ []
rstrip_quotes_onto c (d ∷ ds) = c ∷ d ∷ ds

unfoldable pub rstrip_quotes : List ℕ → List ℕ
unfolding rstrip_quotes_onto
rstrip_quotes [] = []
rstrip_quotes (c ∷ cs) = rstrip_quotes_onto c (rstrip_quotes cs)

-- `s.strip().strip('"\'')`, as code points.
unfoldable pub unquoted : String → List ℕ
unfolding codes lstrip rstrip lstrip_quotes rstrip_quotes
unquoted s = rstrip_quotes (lstrip_quotes (rstrip (lstrip (codes s))))

-- `s.strip()`, as code points.
unfoldable pub stripped : String → List ℕ
unfolding codes lstrip rstrip
stripped s = rstrip (lstrip (codes s))

-- `s.lower()` on the ASCII letters.
abbrev lower_code : ℕ → ℕ
lower_code c = if leb 65 c && leb c 90 then c + 32 else c

-- `==` between texts given by their code points.
unfoldable pub same_codes : List ℕ → List ℕ → Bool
same_codes [] [] = true
same_codes (c ∷ cs) (d ∷ ds) = eqb c d && same_codes cs ds
same_codes _ _ = false

-- `s.lower() == t`
unfoldable pub lowered : String → String → Bool
unfolding codes same_codes
lowered s t = same_codes (map lower_code (codes s)) (codes t)

-- The digits of an `int` literal, with the value so far and whether the last character was a
-- digit: a single `_` may stand between two digits.
unfoldable pub digits_from : ℕ → Bool → List ℕ → Option ℕ
digits_from acc after_digit [] = if after_digit then some acc else none
digits_from acc after_digit (c ∷ cs) =
    let next = digits_from (acc * 10 + (c - 48)) true cs in
    let skip = digits_from acc false cs in
    if leb 48 c && leb c 57 then next else if eqb c 95 && after_digit then skip else none

-- `int(s)` of a text that is stripped already; `none` is the ValueError.
unfoldable pub int_of_codes : List ℕ → Option ℤ
unfolding digits_from
int_of_codes [] = none
int_of_codes (c ∷ cs) =
    if eqb c b'-'
    then Option.map negated (digits_from 0 false cs)
    else if eqb c b'+'
    then Option.map pos (digits_from 0 false cs)
    else Option.map pos (digits_from 0 false (c ∷ cs))

-- `int(s)`, which strips its argument.
unfoldable pub int_of : String → Option ℤ
unfolding codes lstrip rstrip int_of_codes
int_of s = int_of_codes (rstrip (lstrip (codes s)))

abbrev digit_text : ℕ → String
digit_text d =
    if eqb d 0
    then "0"
    else if eqb d 1
    then "1"
    else if eqb d 2
    then "2"
    else if eqb d 3
    then "3"
    else if eqb d 4
    then "4"
    else if eqb d 5
    then "5"
    else if eqb d 6
    then "6"
    else if eqb d 7
    then "7"
    else if eqb d 8
    then "8"
    else "9"

-- `str(n)` on fuel above the number of digits.
show_from : ℕ → ℕ → String
show_from zero n = ""
show_from (suc f) n =
    let high = show_from f (n / 10) in
    if ltb n 10 then digit_text n else high <> digit_text (n % 10)

unfoldable pub show : ℕ → String
unfolding show_from
show n = show_from (suc n) n

unfoldable pub show_ℤ : ℤ → String
unfolding show
show_ℤ (pos n) = show n
show_ℤ (negsuc n) = "-" <> show (suc n)

test_int : int_of " -1_20 " ≡ some (negsuc 119)
unfolding int_of
test_int = refl

test_bad_int : (int_of "= 50" ≡ none) × (int_of "" ≡ none)
unfolding int_of
test_bad_int = (refl, refl)

test_show : show 1207 ≡ "1207"
unfolding show
test_show = refl

test_split : split_second "risk_score > 70 > 3" ">" ≡ some " 70 "
test_split = refl

test_ends : (ends_with "file:*" ":*" ≡ true) × (drop_last 2 "file:*" ≡ "file")
test_ends = (refl, refl)

test_strip : strip "  a b \n" ≡ "a b"
unfolding strip
test_strip = refl
