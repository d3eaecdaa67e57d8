-- ===== src/Sudoers/Aliases.antt =====
-- src/scanners/sudoers.rs: `CmndAliases`, its `absorb` and its `resolves_to_all`.
pub mod Grants
use owlzops_mapper.Common.{
  ℕ, zero, suc, ◌-◌, Text, codes, Bool, true, false, not, List, [], ◌∷◌, Option, none, some, ◌==◌,
  nat_eq, text_eq, text_beq, if◌then◌else◌, is_whitespace, strip_prefix, trim, split, split_once,
  filter, map,
}

abbrev pub max_alias_depth : ℕ
max_alias_depth = 16

-- The hash map: a later definition of a name stands in front and hides an earlier one.
abbrev pub CmndAliases : Type 0
CmndAliases = List (Text × List Text)

unfoldable pub get : CmndAliases → Text → Option (List Text)
get [] name = none
get ((key, members) ∷ rest) name = if key == name then some members else get rest name

abbrev insert : CmndAliases → Text → List Text → CmndAliases
insert aliases name members = (name, members) ∷ aliases

-- One spec `NAME = a, b` of a directive.
unfoldable pub absorb_spec : CmndAliases → Text → CmndAliases
absorb_spec aliases spec = elim (split_once (λ c. c == b'=') spec) [
  | none ↦ aliases
  | some (name, list) ↦
      let members = filter (λ t. not (t == [])) (map trim (split (λ c. c == b',') list)) in
      if trim name == []
      then aliases
      else elim members [ [] ↦ aliases | m ∷ ms ↦ insert aliases (trim name) (m ∷ ms) ]
]

unfoldable pub absorb_specs : CmndAliases → List Text → CmndAliases
unfolding absorb_spec
absorb_specs aliases [] = aliases
absorb_specs aliases (spec ∷ specs) = absorb_specs (absorb_spec aliases spec) specs

abbrev blank_first : Text → Bool
blank_first [] = false
blank_first (c ∷ _) = is_whitespace c

unfoldable pub absorb : CmndAliases → Text → CmndAliases
unfolding absorb_specs
absorb aliases entry = elim (strip_prefix entry (codes "Cmnd_Alias")) [
  | none ↦ aliases
  | some rest ↦
      if blank_first rest
      then absorb_specs aliases (split (λ c. c == b':') (trim rest))
      else aliases
]

abbrev pub all_token : Text
all_token = codes "ALL"

-- The loop over the members of an alias: one that resolves is enough, and an unknown one makes the
-- answer unknown if none resolves.
unfoldable pub any_member : (Text → Option Bool) → List Text → Bool → Option Bool
any_member resolves [] cut = if cut then none else some false
any_member resolves (m ∷ ms) cut = elim (resolves m) [
  | some true ↦ some true
  | some false ↦ any_member resolves ms cut
  | none ↦ any_member resolves ms true
]

-- `n` is what is left of the depth.
pub resolve : CmndAliases → ℕ → Text → Option Bool
resolve aliases zero token = if token == all_token then some true else none
resolve aliases (suc n) token =
    let below = resolve aliases n in
    if token == all_token then some true else elim (get aliases token) [
      | none ↦ some false
      | some members ↦ any_member below members false
    ]

-- `none` is "unknown": the chain was cut at the depth limit.
unfoldable pub resolves_to_all : CmndAliases → Text → ℕ → Option Bool
unfolding resolve any_member get
resolves_to_all aliases token depth = resolve aliases (max_alias_depth - depth) token
