-- ===== src/Base/Text.antt =====
-- Texts by their code points, and the lengths that JavaScript gives them.
use Prim.Native.Nat.{ℕ, zero, suc, ◌+◌, ◌-◌, ◌/◌, ◌%◌}
use Prim.Native.Char.{Char, code}
use Prim.Native.String.{String}
use mathlib.Core.Bool.{Bool, true, false, not, ◌&&◌, ◌||◌}
use mathlib.Core.List.{List, [], ◌∷◌}
use wireguard_ops_cockpit.Base.Tests.{leb, ltb, nat_beq, if◌then◌else◌}
use wireguard_ops_cockpit.Base.Lists.{length, all}

abbrev pub codes : String → List ℕ
codes String.[] = []
codes (String.◌∷◌ c s) = code c ∷ codes s

-- `s.length`: a code point above 0xffff takes two UTF-16 units.
abbrev pub utf16_length : List ℕ → ℕ
utf16_length [] = 0
utf16_length (c ∷ cs) = (if ltb 0xffff c then 2 else 1) + utf16_length cs

abbrev pub is_digit : ℕ → Bool
is_digit c = leb b'0' c && leb c b'9'

-- `[a-f0-9]`
abbrev pub is_hex : ℕ → Bool
is_hex c = is_digit c || (leb b'a' c && leb c b'f')

-- `/^[a-f0-9]{64}$/`
unfoldable pub is_hex_digest : String → Bool
is_hex_digest s = nat_beq (length (codes s)) 64 && all is_hex (codes s)

-- The white space and the line ends of JavaScript.
abbrev pub is_white : ℕ → Bool
is_white c =
    (leb 9 c && leb c 13)
    || (nat_beq c 32
        || (nat_beq c 160
            || (nat_beq c 0x1680
                || ((leb 0x2000 c && leb c 0x200a)
                    || (nat_beq c 0x2028
                        || (nat_beq c 0x2029
                            || (nat_beq c 0x202f
                                || (nat_beq c 0x205f
                                    || (nat_beq c 0x3000 || nat_beq c 0xfeff)))))))))

abbrev pub trim_start : String → String
trim_start String.[] = String.[]
trim_start (String.◌∷◌ c s) =
    let rest = trim_start s in if is_white (code c) then rest else String.◌∷◌ c s

abbrev pub is_empty : String → Bool
is_empty String.[] = true
is_empty _ = false

abbrev pub trim_end : String → String
trim_end String.[] = String.[]
trim_end (String.◌∷◌ c s) =
    let rest = trim_end s in
    if is_empty rest && is_white (code c) then String.[] else String.◌∷◌ c rest

-- `s.trim()`
unfoldable pub trim : String → String
trim s = trim_start (trim_end s)

-- `s.slice(0, n)`, where a pair of units that the end would cut is left out.
unfoldable pub slice_to : ℕ → String → String
slice_to n String.[] = String.[]
slice_to n (String.◌∷◌ c s) =
    let units = if ltb 0xffff (code c) then 2 else 1 in
    let rest = slice_to (n - units) s in if leb units n then String.◌∷◌ c rest else String.[]

-- The text of a template literal, or of `join("")`.
unfoldable pub joined : List String → String
joined [] = String.[]
joined (s ∷ ss) = Prim.Native.String.◌++◌ s (joined ss)

-- A letter or a digit in lower case, as a text; the empty text for any other character.
abbrev slug_text : Char → String
slug_text c =
    if leb 65 (code c) && leb (code c) 90
    then Prim.Native.String.slice "abcdefghijklmnopqrstuvwxyz" (code c - 65) (code c - 64)
    else if is_digit (code c) || (leb 97 (code c) && leb (code c) 122)
    then String.◌∷◌ c String.[]
    else String.[]

abbrev starts_with_dash : String → Bool
starts_with_dash String.[] = false
starts_with_dash (String.◌∷◌ c s) = nat_beq (code c) 45

-- `toLowerCase().replace(/[^a-z0-9]+/g, "-")`, for a text whose capital letters are ASCII
abbrev dashed : String → String
dashed String.[] = String.[]
dashed (String.◌∷◌ c s) =
    let rest = dashed s in
    let kept = slug_text c in
    if not (is_empty kept)
    then Prim.Native.String.◌++◌ kept rest
    else if starts_with_dash rest
    then rest
    else Prim.Native.String.◌++◌ "-" rest

-- `replace(/^-+|-+$/g, "")`, where no two dashes are neighbours
abbrev undashed_end : String → String
undashed_end String.[] = String.[]
undashed_end (String.◌∷◌ c s) =
    let rest = undashed_end s in
    if is_empty s && nat_beq (code c) 45 then String.[] else String.◌∷◌ c rest

abbrev undashed : String → String
undashed String.[] = String.[]
undashed (String.◌∷◌ c s) =
    if nat_beq (code c) 45 then undashed_end s else undashed_end (String.◌∷◌ c s)

unfoldable pub slugify : String → String
unfolding trim slice_to
slugify s = slice_to 24 (undashed (dashed (trim s)))

abbrev next_is : (ℕ → Bool) → String → Bool
next_is p String.[] = false
next_is p (String.◌∷◌ c s) = p (code c)

-- `s.replace(/[p]+/g, " ")`
unfoldable pub spaced : (ℕ → Bool) → String → String
spaced p String.[] = String.[]
spaced p (String.◌∷◌ c s) =
    let rest = spaced p s in
    if not (p (code c))
    then String.◌∷◌ c rest
    else if next_is p s
    then rest
    else Prim.Native.String.◌++◌ " " rest

abbrev digit : ℕ → String
digit d = Prim.Native.String.slice "0123456789" d (d + 1)

-- The digits of `n`, of which there are fewer than `n` where `n` has more than one.
abbrev digits : ℕ → ℕ → String
digits zero n = digit (n % 10)
digits (suc fuel) n =
    let rest = digits fuel (n / 10) in
    if ltb n 10 then digit n else Prim.Native.String.◌++◌ rest (digit (n % 10))

-- A number in a template literal.
unfoldable pub decimal : ℕ → String
decimal n = digits n n
