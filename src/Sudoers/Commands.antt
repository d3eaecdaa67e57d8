-- ===== src/Sudoers/Commands.antt =====
-- src/scanners/sudoers.rs: the command list of an entry, `is_nopasswd_all`, `command_tokens` and
-- `defaults_no_authenticate`.
pub mod Passwordless
pub mod Tags
use owlzops_mapper.Common.{
  ℕ, zero, suc, ◌+◌, ◌-◌, ltb, Text, codes, Bool, true, false, not, ◌&&◌, ◌||◌, List, [], ◌∷◌, ◌++◌,
  Option, none, some, ◌==◌, nat_eq, text_eq, text_beq, if◌then◌else◌, any, length, starts_with,
  strip_prefix, trim, trim_start, split, split_once, eq_ignore_ascii_case, to_ascii_lowercase,
  is_whitespace, ◌≡◌,
}
use owlzops_mapper.Sudoers.Aliases.{CmndAliases, resolves_to_all}

-- `contains_icase`: the needle is in lower case.
unfoldable pub prefix_icase : Text → Text → Bool
prefix_icase h [] = true
prefix_icase [] (b ∷ n) = false
prefix_icase (a ∷ h) (b ∷ n) = to_ascii_lowercase a == b && prefix_icase h n

unfoldable pub windows_icase : Text → Text → Bool
unfolding prefix_icase
windows_icase [] n = prefix_icase [] n
windows_icase (a ∷ h) n = prefix_icase (a ∷ h) n || windows_icase h n

unfoldable pub contains_icase : Text → Text → Bool
unfolding windows_icase
contains_icase hay needle = if needle == [] then false else windows_icase hay needle

unfoldable pub entry_has_nopasswd : Text → Bool
unfolding contains_icase
entry_has_nopasswd entry = contains_icase entry (codes "nopasswd")

abbrev pub other_tags : List Text
other_tags =
    codes "NOEXEC"
    ∷ codes "EXEC"
    ∷ codes "SETENV"
    ∷ codes "NOSETENV"
    ∷ codes "LOG_INPUT"
    ∷ codes "NOLOG_INPUT"
    ∷ codes "LOG_OUTPUT"
    ∷ codes "NOLOG_OUTPUT"
    ∷ codes "FOLLOW"
    ∷ codes "NOFOLLOW"
    ∷ codes "MAIL"
    ∷ codes "NOMAIL"
    ∷ codes "INTERCEPT"
    ∷ codes "NOINTERCEPT"
    ∷ []

-- Whether the token is a tag, and the password state behind it.
unfoldable pub apply_tag : Text → Bool → Bool × Bool
apply_tag tok nopasswd =
    if eq_ignore_ascii_case tok (codes "NOPASSWD")
    then (true, true)
    else if eq_ignore_ascii_case tok (codes "PASSWD")
    then (true, false)
    else (any (eq_ignore_ascii_case tok) other_tags, nopasswd)

unfoldable pub count : ℕ → Text → ℕ
count c [] = 0
count c (x ∷ s) = if x == c then suc (count c s) else count c s

-- `while let Some(i) = rest.find(':')`: the tags glued to a command, on fuel.
unfoldable pub glued_tags : ℕ → Text → Bool → Text × Bool
glued_tags zero rest nopasswd = (rest, nopasswd)
glued_tags (suc f) rest nopasswd = elim (split_once (λ c. c == b':') rest) [
  | none ↦ (rest, nopasswd)
  | some (tag, after) ↦ glued_tags f (trim_start after) (apply_tag (trim tag) nopasswd).1
]

abbrev is_empty : Text → Bool
is_empty [] = true
is_empty (c ∷ s) = false

-- A command behind its tags, or nothing if only tags were there.
unfoldable pub untagged : Text → Bool → Option Text × Bool
unfolding glued_tags apply_tag
untagged tok nopasswd =
    let (rest, np) = glued_tags (length tok) tok nopasswd in
    let (tag, np') = apply_tag rest np in
    if is_empty rest then (none, np) else if tag then (none, np') else (some rest, np)

-- One round of the loop over the tokens: the command that it yields, if any, the depth of open
-- parentheses and the password state.
unfoldable pub token_round : ℕ → Bool → Text → Option Text × ℕ × Bool
unfolding untagged count
token_round paren nopasswd raw =
    let tok = trim raw in
    let opens = count b'(' tok in
    let closes = count b')' tok in
    let paren' = paren + opens - closes in
    let (command, np) = untagged tok nopasswd in
    if is_empty tok
    then (none, paren, nopasswd)
    else if ltb 0 paren || ltb 0 opens
    then (none, paren', nopasswd)
    else (command, paren', np)

-- `rhs.split([',', ' ', '\t'])` behind the first `=`
unfoldable pub list_tokens : Text → Option (List Text)
list_tokens entry = elim (split_once (λ c. c == b'=') entry) [
  | none ↦ none
  | some (lhs, rhs) ↦ some (split (λ c. c == b',' || c == b' ' || c == 9) rhs)
]

abbrev pub is_negated : Text → Bool
is_negated [] = false
is_negated (c ∷ _) = c == b'!'

-- What a command asks of the aliases: yes ends the loop, unknown leaves a note.
module _ (aliases : CmndAliases) where
  unfoldable pub nopasswd_loop : ℕ → Bool → List Text → List Text → Bool × List Text
  nopasswd_loop paren np [] notes = (false, notes)
  nopasswd_loop paren np (raw ∷ rest) notes =
      let (command, paren', np') = token_round paren np raw in
      elim command [
        | none ↦ nopasswd_loop paren' np' rest notes
        | some c ↦
            let next : Bool × List Text = nopasswd_loop paren' np' rest notes in
            let asked : Bool × List Text = elim (resolves_to_all aliases c 0) [
              | some true ↦ (true, notes)
              | some false ↦ nopasswd_loop paren' np' rest notes
              | none ↦ nopasswd_loop paren' np' rest (notes ++ c ∷ [])
            ] in
            if is_negated c then next else if np' then asked else next
      ]

  -- The answer, and the commands of which the coverage note says that they are unknown.
  unfoldable pub is_nopasswd_all : Text → Bool × List Text
  is_nopasswd_all entry =
      if not (entry_has_nopasswd entry) then (false, []) else elim (list_tokens entry) [
        | none ↦ (false, [])
        | some tokens ↦ nopasswd_loop 0 false tokens []
      ]

unfoldable pub command_loop : ℕ → Bool → List Text → List Text
command_loop paren sink [] = []
command_loop paren sink (raw ∷ rest) =
    let (command, paren', sink') = token_round paren sink raw in
    let next = command_loop paren' sink' rest in elim command [ none ↦ next | some c ↦ c ∷ next ]

unfoldable pub command_tokens : Text → List Text
command_tokens entry = elim (list_tokens entry) [
  | none ↦ []
  | some tokens ↦ command_loop 0 false tokens
]

abbrev scope_first : ℕ → Bool
scope_first c = c == b':' || c == b'@' || c == b'!' || c == b'>'

abbrev is_scope : Text → Bool
is_scope [] = true
is_scope (c ∷ _) = scope_first c

-- `split_at` at the first whitespace; the whitespace stays with the parameters, which are trimmed.
unfoldable pub defaults_no_authenticate : Text → Option Text
defaults_no_authenticate entry = elim (strip_prefix entry (codes "Defaults")) [
  | none ↦ none
  | some rest ↦ elim (split_once is_whitespace rest) [
    | none ↦ none
    | some (scope, params) ↦
        if not (is_scope scope)
        then none
        else if any (λ p. eq_ignore_ascii_case (trim p) (codes "!authenticate"))
            (split (λ c. c == b',') params)
        then some (if is_empty scope then codes "ALL" else scope)
        else none
  ]
]
