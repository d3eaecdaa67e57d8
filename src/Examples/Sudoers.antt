-- ===== src/Examples/Sudoers.antt =====
-- src/scanners/sudoers.rs at concrete entries.
use owlzops_mapper.Common.{
  ℕ, if◌then◌else◌, text_eq, ◌++◌, length, ◌≤◌, starts_with, Text, true, false, List, [], ◌∷◌, none,
  some, codes, ◌≡◌, refl, arith, Any, All, ◌⊎◌, split_once, split, trim, trim_start, trim_end,
  strip_prefix, eq_ignore_ascii_case, text_beq, is_whitespace, ◌==◌, nat_eq, lines,
}
use owlzops_mapper.Sudoers.Walk.{
  FileSystem, Content, text, not_found, DirEntry, Trace, each_sudoers_entry_from, no_root_file,
  walk, push_file, push_roots, read_entries, push_includes, push_entries, canon_path_key,
  max_sudoers_files, scan_sudoers_from,
}
use owlzops_mapper.Sudoers.Walk.Once.{IsUnique, each_sudoers_entry_from-once}
use owlzops_mapper.Sudoers.Walk.Gaps.{NoLimit, IsRead, each_sudoers_entry_from-closed}
use owlzops_mapper.Sudoers.Lines.{logical_lines}
use owlzops_mapper.Sudoers.Aliases.{CmndAliases, absorb, resolves_to_all}
use owlzops_mapper.Sudoers.Aliases.Grants.{Grants, Means, resolves_to_all-Means}
use owlzops_mapper.Sudoers.Commands.{
  is_nopasswd_all, command_tokens, list_tokens, token_round, entry_has_nopasswd, glued_tags,
  defaults_no_authenticate,
}
use owlzops_mapper.Sudoers.Commands.Passwordless.{effective, is_free, is_nopasswd_all_complete}
use owlzops_mapper.Sudoers.Commands.Tags.{glued_tags-ends}

abbrev bob : Text
bob = codes "bob ALL=(ALL:ALL) NOPASSWD:ALL, PASSWD: /bin/false"

abbrev carol : Text
carol = codes "carol ALL=NOPASSWD: /bin/ls"

abbrev aliases : CmndAliases
aliases = (codes "B", codes "A" ∷ []) ∷ (codes "A", codes "ALL" ∷ []) ∷ []

absorb_test :
    absorb [] (codes "Cmnd_Alias A = ALL : B = A, /bin/ls")
    ≡ (codes "B", codes "A" ∷ codes "/bin/ls" ∷ []) ∷ (codes "A", codes "ALL" ∷ []) ∷ []
unfolding absorb strip_prefix split split_once trim is_whitespace text_beq
absorb_test = refl

tokens_test : command_tokens bob ≡ codes "ALL" ∷ codes "/bin/false" ∷ []
unfolding command_tokens token_round list_tokens split split_once trim trim_start
    eq_ignore_ascii_case owlzops_mapper.Sudoers.Commands.command_loop
tokens_test = refl

lines_test :
    logical_lines (codes "# top\nbob ALL=ALL, \\\n  /bin/ls # tail\n#1000 ALL=ALL\n")
    ≡ codes "bob ALL=ALL, /bin/ls" ∷ codes "#1000 ALL=ALL" ∷ []
unfolding logical_lines lines trim trim_end strip_prefix is_whitespace text_beq
lines_test = refl

carol_harmless : is_nopasswd_all [] carol ≡ (false, [])
unfolding is_nopasswd_all entry_has_nopasswd token_round list_tokens split split_once trim
    trim_start eq_ignore_ascii_case resolves_to_all text_beq
    owlzops_mapper.Sudoers.Commands.nopasswd_loop
carol_harmless = refl

defaults_test :
    defaults_no_authenticate (codes "Defaults:deploy env_reset, !authenticate")
    ≡ some (codes ":deploy")
unfolding defaults_no_authenticate strip_prefix split split_once trim eq_ignore_ascii_case
    is_whitespace
defaults_test = refl

resolves_to_all-Means_example : Means aliases (codes "B") (resolves_to_all aliases (codes "B") 0)
resolves_to_all-Means_example = resolves_to_all-Means aliases (codes "B")

has_nopasswd : entry_has_nopasswd carol ≡ true
unfolding entry_has_nopasswd text_beq
has_nopasswd = refl

abbrev carol_tokens : List Text
carol_tokens = codes "NOPASSWD:" ∷ codes "/bin/ls" ∷ []

carol_split : list_tokens carol ≡ some carol_tokens
unfolding list_tokens split split_once
carol_split = refl

is_nopasswd_all_complete_example :
    All (λ g. (is_free g ≡ false) ⊎ (¬ Grants [] g.0)) (effective 0 false carol_tokens)
is_nopasswd_all_complete_example =
    is_nopasswd_all_complete carol [] carol_tokens has_nopasswd carol_split carol_harmless

glued_tags-ends_example :
    split_once (λ c. c == b':') (glued_tags 12 (codes "NOPASSWD:ALL") false).0 ≡ none
glued_tags-ends_example = glued_tags-ends 12 (codes "NOPASSWD:ALL") false (omega arith)

-- The main file and a second one that include each other, and a directory of one file.
abbrev read_file : Text → ℕ → Content
read_file path cap =
    if path == codes "/etc/sudoers"
    then text (codes "@include local\nroot ALL=ALL") false
    else if path == codes "/etc/local"
    then text (codes "@include /etc/sudoers\n@includedir /etc/more") false
    else if path == codes "/etc/more/deploy"
    then text (codes "bob ALL=NOPASSWD: ALL") false
    else not_found

abbrev deploy : DirEntry
deploy = record { file_name = codes "deploy"; path = codes "/etc/more/deploy"; is_file = true }

abbrev tree : FileSystem
tree = record {
  canonicalize = λ p. some p;
  is_dir = λ p. p == codes "/etc/more";
  read_dir = λ p. if p == codes "/etc/more" then some (deploy ∷ []) else none;
  read_capped = read_file;
  parent = λ p. some (codes "/etc");
  join = λ p q. p ++ codes "/" ++ q;
}

abbrev roots : List Text
roots = codes "/etc/sudoers" ∷ codes "/etc/sudoers.d" ∷ []

walk_test : each_sudoers_entry_from tree roots ≡ record {
  seen =
      (codes "/etc/sudoers.d", 0)
      ∷ (codes "/etc/sudoers", 0)
      ∷ (codes "/etc/local", 1)
      ∷ (codes "/etc/more/deploy", 2)
      ∷ [];
  entries =
      (codes "/etc/sudoers", codes "root ALL=ALL")
      ∷ (codes "/etc/more/deploy", codes "bob ALL=NOPASSWD: ALL")
      ∷ [];
  notes = no_root_file (codes "/etc/sudoers.d") ∷ [];
}
unfolding each_sudoers_entry_from text_beq logical_lines lines strip_prefix trim starts_with
    owlzops_mapper.Sudoers.Walk.is_sudoers_file
walk_test = refl

within_limits : NoLimit (each_sudoers_entry_from tree roots).notes
unfolding each_sudoers_entry_from text_beq lines owlzops_mapper.Sudoers.Lines.include_target
    strip_prefix trim starts_with owlzops_mapper.Sudoers.Walk.is_sudoers_file
within_limits = (refl, tt)

each_sudoers_entry_from-once_example :
    (length (each_sudoers_entry_from tree roots).seen ≤ max_sudoers_files)
    × IsUnique tree (each_sudoers_entry_from tree roots).seen
    × All
        (λ (e : Text × Text).
          Any (λ (s : Text × ℕ). s.0 ≡ e.0) (each_sudoers_entry_from tree roots).seen)
        (each_sudoers_entry_from tree roots).entries
each_sudoers_entry_from-once_example = each_sudoers_entry_from-once tree roots

each_sudoers_entry_from-closed_example :
    All (IsRead tree roots) roots
    × All
        (λ (s : Text × ℕ).
          All (λ (i : Text × ℕ). IsRead tree roots i.0) (push_file tree s.0 s.1 []))
        (each_sudoers_entry_from tree roots).seen
each_sudoers_entry_from-closed_example = each_sudoers_entry_from-closed tree roots within_limits
