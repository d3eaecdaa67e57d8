-- ===== src/Sudoers/Lines.antt =====
-- src/scanners/sudoers.rs: `include_target`, `strip_comment` and `logical_lines`.
use mathlib.Core.List.{reverse, map}
use owlzops_mapper.Common.{
  ℕ, Text, codes, Bool, true, false, not, ◌&&◌, ◌||◌, List, [], ◌∷◌, ◌++◌, Option, none, some, ◌==◌,
  nat_eq, text_eq, if◌then◌else◌, is_some, is_ascii_digit, is_whitespace, strip_prefix, trim,
  trim_end, lines,
}

-- One prefix of the table: a directive must be followed by whitespace and a path.
abbrev starts_blank : Text → Bool
starts_blank [] = false
starts_blank (c ∷ _) = is_whitespace c

unfoldable pub include_after : Text → Text → Bool → Option (Text × Bool)
include_after line prefix is_dir = elim (strip_prefix line prefix) [
  | none ↦ none
  | some rest ↦
      if starts_blank rest && not (trim rest == []) then some (trim rest, is_dir) else none
]

abbrev pub or_else : Option (Text × Bool) → Option (Text × Bool) → Option (Text × Bool)
or_else none b = b
or_else (some a) b = some a

unfoldable pub include_target : Text → Option (Text × Bool)
unfolding include_after
include_target line = or_else (include_after line (codes "#includedir") true) (
    or_else (include_after line (codes "@includedir") true) (
      or_else (include_after line (codes "#include") false)
        (include_after line (codes "@include") false)))

-- `#` here begins a user, group or runas id, and no comment, if a digit follows it.
unfoldable pub is_token_start : Option ℕ → Bool
is_token_start none = true
is_token_start (some c) =
    c == b' '
    || c == 9
    || c == b','
    || c == b'('
    || c == b':'
    || c == b'!'
    || c == b'='
    || c == b'%'

-- The loop of `strip_comment`: the byte before, whether it stands in quotes, what it passed in
-- reverse, and what is left. `none` means that there is no comment.
unfoldable pub comment_scan : Option ℕ → Bool → Text → Text → Option Text
unfolding is_token_start
comment_scan prev quoted seen [] = none
comment_scan prev quoted seen (c ∷ []) =
    if c == b'#' && not quoted then some (trim_end (reverse seen)) else none
comment_scan prev quoted seen (c ∷ d ∷ s) =
    let escaped = comment_scan (some d) quoted (d ∷ c ∷ seen) s in
    let toggled = comment_scan (some c) (not quoted) (c ∷ seen) (d ∷ s) in
    let onward = comment_scan (some c) quoted (c ∷ seen) (d ∷ s) in
    if c == 92
    then escaped
    else if c == b'"'
    then toggled
    else if c == b'#' && not quoted && not (is_token_start prev && is_ascii_digit d)
    then some (trim_end (reverse seen))
    else onward

unfoldable pub strip_comment : Text → Text
unfolding comment_scan include_target
strip_comment line =
    if is_some (include_target line)
    then line
    else elim (comment_scan none false [] line) [ none ↦ line | some cut ↦ cut ]

-- `while continuation.ends_with(' ') { continuation.pop(); }`, on the reversed text
unfoldable pub pop_spaces : Text → Text
pop_spaces [] = []
pop_spaces (c ∷ r) = if c == b' ' then pop_spaces r else c ∷ r

-- The line without its last backslash, if it ends in one.
unfoldable pub continued : Text → Option Text
unfolding pop_spaces
continued text = elim (reverse text) [
  | [] ↦ none
  | c ∷ r ↦ if c == 92 then some (reverse (pop_spaces r)) else none
]

abbrev pub flush : Text → List Text → List Text
flush continuation rest = if continuation == [] then rest else continuation ∷ rest

abbrev pub append_line : Text → Text → Text
append_line continuation line =
    (if continuation == [] then continuation else continuation ++ codes " ") ++ line

-- One physical line, as `logical_lines` reads it.
unfoldable pub effective_line : Text → Text
unfolding strip_comment
effective_line raw = if is_some (include_target (trim raw)) then [] else strip_comment (trim raw)

unfoldable pub join_lines : Text → List Text → List Text
unfolding continued
join_lines continuation [] = flush continuation []
join_lines continuation (line ∷ rest) =
    let fresh = join_lines [] rest in
    if line == []
    then flush continuation fresh
    else elim (continued (append_line continuation line)) [
      | some joined ↦ join_lines joined rest
      | none ↦ append_line continuation line ∷ fresh
    ]

unfoldable pub logical_lines : Text → List Text
unfolding join_lines effective_line
logical_lines content = join_lines [] (map effective_line (lines content))
