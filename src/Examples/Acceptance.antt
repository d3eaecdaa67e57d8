-- ===== src/Examples/Acceptance.antt =====
-- src/acceptance.rs at concrete rules and findings.
use owlzops_mapper.Common.{
  ◌≤◌, ◌+◌, Text, true, false, List, [], ◌∷◌, Option, none, some, codes, as_bytes, take, parse_uint,
  trim, starts_with, ◌≡◌, refl, ◌↔◌, ◌⊎◌, All, length, ◌++◌,
}
use owlzops_mapper.Scoring.Score.{score}
use owlzops_mapper.Scoring.Verdict.{live, is_live, security_verdict_from_findings, compromised}
use owlzops_mapper.Acceptance.Glob.{glob_match}
use owlzops_mapper.Acceptance.Glob.Matches.{Matches, glob_match_iff}
use owlzops_mapper.Acceptance.Rules.{
  AcceptRule, Chrono, bad_rule, ok, err, load, check_rule, parse_expiry, is_never_acceptable,
  compromise_indicator,
}
use owlzops_mapper.Acceptance.Rules.Checked.{IsAcceptable, load-ok_iff, load-bad_rule}
use owlzops_mapper.Acceptance.Apply.{
  apply, apply_finding, apply_rule, rule_for, accepted_count, acceptance_note,
}
use owlzops_mapper.Acceptance.Apply.Keeps.{apply-compromised_iff}
use owlzops_mapper.Acceptance.Apply.Silence.{
  IsExpired, apply_finding-live_iff, score-apply-le, accepted_count-apply,
}
use owlzops_mapper.Examples.Scoring.{no_firewall, host_findings}

-- A calendar that reads the year alone.
abbrev pub years : Chrono
years = record {
  parse_from_rfc3339 = λ s. none;
  parse_from_str_ymd = λ s. parse_uint 32 (take 4 s);
  and_hms_23_59_59_utc = λ day. some day;
}

abbrev cloud_firewall : AcceptRule
cloud_firewall = record {
  finding_id = "SEC-001";
  host = codes "web-*";
  justification = codes "cloud SG is the firewall";
  expires = codes "2099-01-01";
  ticket = some (codes "OPS-1234");
}

abbrev cover_up : AcceptRule
cover_up = record cloud_firewall { finding_id = "SEC-020" }

abbrev pub policy : List AcceptRule
policy = cloud_firewall ∷ []

abbrev tampered : List AcceptRule
tampered = cloud_firewall ∷ cover_up ∷ []

abbrev pub parse_as : List AcceptRule → Text → Option (List AcceptRule)
parse_as rules text = some rules

pub policy_loads : load years (parse_as policy) (some ([], false)) ≡ ok policy
unfolding load check_rule is_never_acceptable parse_expiry parse_uint trim as_bytes
    owlzops_mapper.Common.utf8_char
policy_loads = refl

tampered_refused :
    load years (parse_as tampered) (some ([], false)) ≡ err (bad_rule 2 compromise_indicator)
unfolding load check_rule is_never_acceptable parse_expiry parse_uint trim as_bytes
    owlzops_mapper.Common.utf8_char
tampered_refused = refl

glob_test : glob_match (codes "web-*") (codes "web-01") ≡ true
unfolding glob_match owlzops_mapper.Common.utf8_char
glob_test = refl

apply_test : accepted_count (apply years 2026 policy (codes "web-01") host_findings).0 ≡ 1
unfolding apply apply_finding apply_rule rule_for accepted_count acceptance_note glob_match
    parse_expiry parse_uint trim starts_with owlzops_mapper.Common.utf8_char
apply_test = refl

glob_match_iff_example :
    (glob_match (codes "web-*") (codes "web-01") ≡ true)
    ↔ Matches (as_bytes (codes "web-*")) (as_bytes (codes "web-01"))
glob_match_iff_example = glob_match_iff (codes "web-*") (codes "web-01")

load-ok_iff_example :
    (load years (parse_as policy) (some ([], false)) ≡ ok policy) ↔ All (IsAcceptable years) policy
load-ok_iff_example = load-ok_iff years (parse_as policy) [] policy refl

load-bad_rule_example :
    (before : List AcceptRule) × (r : AcceptRule) × (after : List AcceptRule) × (tampered
      ≡ before ++ r ∷ after)
    × All (IsAcceptable years) before
    × (check_rule years r ≡ some compromise_indicator)
    × (2 ≡ length before + 1)
load-bad_rule_example =
    load-bad_rule years (parse_as tampered) [] tampered 2 compromise_indicator refl tampered_refused

apply-compromised_iff_example :
    (security_verdict_from_findings (apply years 2026 policy (codes "web-01") host_findings).0
      ≡ compromised)
    ↔ (security_verdict_from_findings host_findings ≡ compromised)
apply-compromised_iff_example =
    apply-compromised_iff years 2026 policy (codes "web-01") (parse_as policy) (some ([], false))
      host_findings policy_loads

apply_finding-live_iff_example :
    (is_live (apply_finding years 2026 policy (codes "web-01") no_firewall).0 ≡ true) ↔ (
      (is_live no_firewall ≡ true)
      × ((rule_for years 2026 policy (codes "web-01") no_firewall ≡ none)
          ⊎ ((r : AcceptRule) × (rule_for years 2026 policy (codes "web-01") no_firewall ≡ some r)
              × IsExpired years 2026 policy (codes "web-01") r)))
apply_finding-live_iff_example =
    apply_finding-live_iff years 2026 policy (codes "web-01") no_firewall

score-apply-le_example :
    ((score (apply years 2026 policy (codes "web-01") host_findings).0).security
      ≤ (score host_findings).security)
    × ((score (apply years 2026 policy (codes "web-01") host_findings).0).reliability
        ≤ (score host_findings).reliability)
    × ((score (apply years 2026 policy (codes "web-01") host_findings).0).hygiene
        ≤ (score host_findings).hygiene)
    × ((score (apply years 2026 policy (codes "web-01") host_findings).0).total
        ≤ (score host_findings).total)
score-apply-le_example = score-apply-le years 2026 policy (codes "web-01") host_findings

accepted_count-apply_example :
    accepted_count (apply years 2026 policy (codes "web-01") host_findings).0
      + length (live (apply years 2026 policy (codes "web-01") host_findings).0)
    ≡ accepted_count host_findings + length (live host_findings)
accepted_count-apply_example = accepted_count-apply years 2026 policy (codes "web-01") host_findings
