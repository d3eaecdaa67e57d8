-- ===== src/Acceptance/Rules.antt =====
-- src/acceptance.rs: `AcceptRule`, `parse_expiry` and the checks of `Acceptances::load`.
-- The file's bytes, the JSON parser and chrono's date parsers are parameters.
pub mod Checked
use owlzops_mapper.Common.{
  ℕ, suc, ◌*◌, String, Text, codes, as_bytes, trim, Bool, true, false, ◌||◌, List, [], ◌∷◌, Option,
  none, some, ◌==◌, string_eq, if◌then◌else◌, contains, length, ltb, is_none,
}
use owlzops_mapper.Scoring.Verdict.{compromise_ids}

pub record AcceptRule : Type 0 where
  pub finding_id : String
  pub host : Text
  pub justification : Text
  pub expires : Text
  pub ticket : Option Text

abbrev pub default_rule : AcceptRule
default_rule = record {
  finding_id = "";
  host = codes "*";
  justification = [];
  expires = [];
  ticket = none;
}

abbrev pub extra_never_acceptable : List String
extra_never_acceptable = "SEC-041" ∷ "COV-001" ∷ []

unfoldable pub is_never_acceptable : String → Bool
unfolding compromise_ids
is_never_acceptable id = contains compromise_ids id || contains extra_never_acceptable id

-- chrono: instants are counted from its earliest one, in its finest unit.
pub record Chrono : Type 0 where
  pub parse_from_rfc3339 : Text → Option ℕ
  pub parse_from_str_ymd : Text → Option ℕ
  pub and_hms_23_59_59_utc : ℕ → Option ℕ

unfoldable pub parse_expiry : Chrono → Text → Option ℕ
parse_expiry chrono s = elim (chrono.parse_from_rfc3339 s) [
  | some t ↦ some t
  | none ↦ elim (chrono.parse_from_str_ymd s) [
    | none ↦ none
    | some day ↦ chrono.and_hms_23_59_59_utc day
  ]
]

abbrev pub cap_accept_file : ℕ
cap_accept_file = 1024 * 1024

abbrev pub min_justification : ℕ
min_justification = 10

pub data RuleError : Type 0 where
  finding_id_required compromise_indicator short_justification bad_expiry : RuleError

pub data LoadError : Type 0 where
  cannot_read exceeds_cap invalid_json : LoadError
  bad_rule : ℕ → RuleError → LoadError

pub data Loaded : Type 0 where
  ok : List AcceptRule → Loaded
  err : LoadError → Loaded

-- The body of the loop over the rules.
unfoldable pub check_rule : Chrono → AcceptRule → Option RuleError
check_rule chrono r =
    if r.finding_id == ""
    then some finding_id_required
    else if is_never_acceptable r.finding_id
    then some compromise_indicator
    else if ltb (length (as_bytes (trim r.justification))) min_justification
    then some short_justification
    else if is_none (parse_expiry chrono r.expires)
    then some bad_expiry
    else none

-- The first rule that fails a check is reported with its number, from 1.
unfoldable pub check_rules : Chrono → ℕ → List AcceptRule → Option LoadError
unfolding check_rule
check_rules chrono i [] = none
check_rules chrono i (r ∷ rs) =
    let rest = check_rules chrono (suc i) rs in
    elim (check_rule chrono r) [ some e ↦ some (bad_rule (suc i) e) | none ↦ rest ]

-- `read` is what `read_file_capped_regular` returned: the text and whether it was cut at the cap.
unfoldable pub load : Chrono → (Text → Option (List AcceptRule)) → Option (Text × Bool) → Loaded
unfolding check_rules
load chrono from_str none = err cannot_read
load chrono from_str (some (text, true)) = err exceeds_cap
load chrono from_str (some (text, false)) = elim (from_str text) [
  | none ↦ err invalid_json
  | some rules ↦ elim (check_rules chrono 0 rules) [ some e ↦ err e | none ↦ ok rules ]
]
