-- ===== src/Common/Strings.antt =====
-- Rust's `&str` as a list of code points, with the methods of `str` that the program calls.
use Prim.Native.Char.{code}
use Prim.Native.String.{String}
use Prim.Native.Nat.{ℕ, zero, suc, ◌+◌, ◌-◌, ◌*◌, ◌/◌, ◌%◌, ◌^◌}
use mathlib.Core.Bool.{Bool, true, false, not, ◌&&◌, ◌||◌}
use mathlib.Core.Option
use mathlib.Core.Option.{Option, none, some}
use mathlib.Core.List.{List, [], ◌∷◌, ◌++◌, reverse}
use mathlib.Core.Path.{◌≡◌, refl}
use owlzops_mapper.Common.Tests.{◌==◌, nat_eq, text_eq, ltb, leb, is_some, text_beq, if◌then◌else◌}
use owlzops_mapper.Common.Lists.{filter}

abbrev pub Text : Type 0
Text = List ℕ

abbrev pub codes : String → Text
codes String.[] = []
codes (String.◌∷◌ c s) = code c ∷ codes s

-- `str::as_bytes`: UTF-8
unfoldable pub utf8_char : ℕ → List ℕ
utf8_char c =
    if ltb c 0x80
    then c ∷ []
    else if ltb c 0x800
    then (0xC0 + c / 64) ∷ (0x80 + c % 64) ∷ []
    else if ltb c 0x10000
    then (0xE0 + c / 4096) ∷ (0x80 + c / 64 % 64) ∷ (0x80 + c % 64) ∷ []
    else (0xF0 + c / 262144) ∷ (0x80 + c / 4096 % 64) ∷ (0x80 + c / 64 % 64) ∷ (0x80 + c % 64) ∷ []

unfoldable pub as_bytes : Text → List ℕ
as_bytes [] = []
as_bytes (c ∷ s) = utf8_char c ++ as_bytes s

-- `char::is_whitespace`: the Unicode property White_Space
unfoldable pub is_whitespace : ℕ → Bool
is_whitespace c =
    leb 9 c && leb c 13
    || c == 0x20
    || c == 0x85
    || c == 0xA0
    || c == 0x1680
    || leb 0x2000 c && leb c 0x200A
    || c == 0x2028
    || c == 0x2029
    || c == 0x202F
    || c == 0x205F
    || c == 0x3000

-- `u8::is_ascii_digit`
abbrev pub is_ascii_digit : ℕ → Bool
is_ascii_digit c = leb b'0' c && leb c b'9'

abbrev pub to_ascii_lowercase : ℕ → ℕ
to_ascii_lowercase c = if leb b'A' c && leb c b'Z' then c + 32 else c

unfoldable pub eq_ignore_ascii_case : Text → Text → Bool
eq_ignore_ascii_case [] [] = true
eq_ignore_ascii_case (a ∷ s) (b ∷ t) =
    to_ascii_lowercase a == to_ascii_lowercase b && eq_ignore_ascii_case s t
eq_ignore_ascii_case _ _ = false

unfoldable pub trim_start : Text → Text
unfolding is_whitespace
trim_start [] = []
trim_start (c ∷ s) = if is_whitespace c then trim_start s else c ∷ s

unfoldable pub trim_end : Text → Text
unfolding trim_start
trim_end s = reverse (trim_start (reverse s))

unfoldable pub trim : Text → Text
unfolding trim_end
trim s = trim_end (trim_start s)

-- `s.strip_prefix(p)`
unfoldable pub strip_prefix : Text → Text → Option Text
strip_prefix s [] = some s
strip_prefix [] (b ∷ p) = none
strip_prefix (a ∷ s) (b ∷ p) = if a == b then strip_prefix s p else none

unfoldable pub starts_with : Text → Text → Bool
unfolding strip_prefix
starts_with s p = is_some (strip_prefix s p)

unfoldable pub strip_suffix : Text → Text → Option Text
unfolding strip_prefix
strip_suffix s p = Option.map reverse (strip_prefix (reverse s) (reverse p))

unfoldable pub ends_with : Text → Text → Bool
unfolding strip_suffix
ends_with s p = is_some (strip_suffix s p)

-- `s.contains(p)` for a text `p`
unfoldable pub contains_text : Text → Text → Bool
unfolding starts_with
contains_text [] p = starts_with [] p
contains_text (c ∷ s) p = starts_with (c ∷ s) p || contains_text s p

-- `s.split(p)` for a predicate on characters; there is always a piece
abbrev cons_head : ℕ → List Text → List Text
cons_head c [] = (c ∷ []) ∷ []
cons_head c (piece ∷ rest) = (c ∷ piece) ∷ rest

unfoldable pub split : (ℕ → Bool) → Text → List Text
split p [] = [] ∷ []
split p (c ∷ s) = if p c then [] ∷ split p s else cons_head c (split p s)

unfoldable pub split_whitespace : Text → List Text
unfolding split is_whitespace
split_whitespace s = filter (λ piece. not (piece == [])) (split is_whitespace s)

-- `s.split_once(c)`
unfoldable pub split_once : (ℕ → Bool) → Text → Option (Text × Text)
split_once p [] = none
split_once p (c ∷ s) =
    if p c then some ([], s) else Option.map (λ r. (c ∷ r.0, r.1)) (split_once p s)

-- `str::lines`: cut after each newline, without it and without a carriage return before it
abbrev drop_cr : Text → Text
drop_cr line = elim (reverse line) [ [] ↦ line | c ∷ r ↦ if c == 13 then reverse r else line ]

lines_from : Text → Text → List Text
lines_from acc [] = if acc == [] then [] else reverse acc ∷ []
lines_from acc (c ∷ s) =
    if c == 10 then drop_cr (reverse acc) ∷ lines_from [] s else lines_from (c ∷ acc) s

unfoldable pub lines : Text → List Text
unfolding lines_from
lines s = lines_from [] s

-- `format!("{n}")`
digits_from : ℕ → ℕ → Text → Text
digits_from zero n acc = acc
digits_from (suc f) n acc =
    let rest = digits_from f (n / 10) ((b'0' + n % 10) ∷ acc) in
    if ltb n 10 then (b'0' + n) ∷ acc else rest

unfoldable pub decimal : ℕ → Text
unfolding digits_from
decimal n = digits_from (suc n) n []

-- `parse::<uN>()`: an optional plus sign, then digits, and the value in range
parse_digits : ℕ → Text → Option ℕ
parse_digits n [] = some n
parse_digits n (c ∷ s) = if is_ascii_digit c then parse_digits (n * 10 + (c - b'0')) s else none

abbrev in_range : ℕ → Option ℕ → Option ℕ
in_range bits none = none
in_range bits (some n) = if ltb n (2 ^ bits) then some n else none

unfoldable pub parse_uint : ℕ → Text → Option ℕ
unfolding parse_digits
parse_uint bits [] = none
parse_uint bits (c ∷ s) =
    if c == b'+'
    then (if s == [] then none else in_range bits (parse_digits 0 s))
    else in_range bits (parse_digits 0 (c ∷ s))

lines_test : lines (codes "a\nb") ≡ codes "a" ∷ codes "b" ∷ []
unfolding lines text_beq
lines_test = refl

words_test : split_whitespace (codes "  ab c ") ≡ codes "ab" ∷ codes "c" ∷ []
unfolding split_whitespace text_beq
words_test = refl

numbers_test : (decimal 1024 ≡ codes "1024") × (parse_uint 16 (codes "65536") ≡ none)
unfolding decimal parse_uint text_beq
numbers_test = (refl, refl)
