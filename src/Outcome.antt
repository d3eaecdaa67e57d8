-- ===== src/Outcome.antt =====
-- src/main.rs: what a run found and what it could see, kept apart until the exit code. `add` feeds
-- the report of one host to the aggregate of the fleet.
pub mod ExitCode
pub mod Clean
pub mod Order
pub mod Resume
use owlzops_mapper.Common.{
  ℕ, ◌+◌, ◌-◌, Text, Bool, true, false, not, ◌&&◌, ◌||◌, List, [], ◌∷◌, Option, none, some, ◌==◌,
  nat_eq, text_eq, if◌then◌else◌, contains, filter,
}
use owlzops_mapper.Report.{AgentReport}
use owlzops_mapper.Scoring.Finding.{Finding}
use owlzops_mapper.Scoring.Verdict.{
  SecurityVerdict, clean, critical, compromised, worse, security_verdict_from_findings,
}
use owlzops_mapper.Acceptance.Rules.{AcceptRule, Chrono}
use owlzops_mapper.Acceptance.Apply.{apply}

abbrev pub exit_usage : ℕ
exit_usage = 64

abbrev pub exit_clean : ℕ
exit_clean = 0

abbrev pub exit_critical : ℕ
exit_critical = 1

abbrev pub exit_compromised : ℕ
exit_compromised = 3

abbrev pub exit_incomplete : ℕ
exit_incomplete = 4

abbrev pub exit_degraded : ℕ
exit_degraded = 2

abbrev pub exit_interrupt : ℕ
exit_interrupt = 130

abbrev pub exit_internal_error : ℕ
exit_internal_error = 70

pub record Coverage : Type 0 where
  pub hosts_missing : ℕ
  pub records_lost : ℕ
  pub scanners_failed : Bool
  pub non_root : Bool
  pub warnings : Bool
  pub output_failed : Bool

abbrev pub full_coverage : Coverage
full_coverage = record {
  hosts_missing = 0;
  records_lost = 0;
  scanners_failed = false;
  non_root = false;
  warnings = false;
  output_failed = false;
}

unfoldable pub is_full : Coverage → Bool
is_full c =
    c.hosts_missing == 0
    && c.records_lost == 0
    && not c.scanners_failed
    && not c.non_root
    && not c.warnings
    && not c.output_failed

pub record Outcome : Type 0 where
  pub verdict : Option SecurityVerdict
  pub coverage : Coverage

pub record OutcomeBuilder : Type 0 where
  pub verdict : Option SecurityVerdict
  pub coverage : Coverage
  pub reports_seen : ℕ
  pub acceptances : Option (List AcceptRule)

-- A builder with a policy, and the defaults elsewhere.
unfoldable pub start : Option (List AcceptRule) → OutcomeBuilder
start policy = record {
  verdict = none;
  coverage = full_coverage;
  reports_seen = 0;
  acceptances = policy;
}

abbrev pub is_empty : List Text → Bool
is_empty [] = true
is_empty (_ ∷ _) = false

abbrev pub worst : Option SecurityVerdict → SecurityVerdict → SecurityVerdict
worst none v = v
worst (some cur) v = worse cur v

-- `now` is the clock when `apply` reads it.
module _ {Facts : Type 0} (chrono : Chrono) (evaluate : AgentReport Facts → List Finding) where
  unfoldable pub accepted_findings : Option (List AcceptRule) → ℕ → AgentReport Facts → List Finding
  accepted_findings none now report = evaluate report
  accepted_findings (some rules) now report =
      (apply chrono now rules report.hostname (evaluate report)).0

  unfoldable pub add : OutcomeBuilder → ℕ × AgentReport Facts → OutcomeBuilder
  unfolding accepted_findings
  add b (now, report) = record {
    verdict = some (
        worst b.verdict
          (security_verdict_from_findings (accepted_findings b.acceptances now report)));
    coverage = record b.coverage {
      scanners_failed = b.coverage.scanners_failed || not (is_empty report.failed_scanners);
      non_root = b.coverage.non_root || not report.is_root_execution;
      warnings = b.coverage.warnings || not (is_empty report.scan_warnings);
    };
    reports_seen = b.reports_seen + 1;
    acceptances = b.acceptances;
  }

  -- The reports of a fleet, in the order in which they arrive.
  unfoldable pub add_all : OutcomeBuilder → List (ℕ × AgentReport Facts) → OutcomeBuilder
  unfolding add
  add_all b [] = b
  add_all b (e ∷ es) = add_all (add b e) es

unfoldable pub finish : OutcomeBuilder → ℕ → ℕ → Outcome
finish b hosts_requested lost = record {
  verdict = b.verdict;
  coverage = record b.coverage {
    hosts_missing = hosts_requested - b.reports_seen;
    records_lost = lost;
  };
}

unfoldable pub exit_code : Outcome → Bool → ℕ
unfolding is_full
exit_code o fail_on_incomplete = elim o.verdict [
  | none ↦ exit_incomplete
  | some compromised ↦ exit_compromised
  | some critical ↦
      if fail_on_incomplete && not (is_full o.coverage)
      then exit_incomplete
      else if not (is_full o.coverage)
      then exit_degraded
      else exit_critical
  | some clean ↦
      if fail_on_incomplete && not (is_full o.coverage)
      then exit_incomplete
      else if not (is_full o.coverage)
      then exit_degraded
      else exit_clean
]

module _ {Facts : Type 0} (chrono : Chrono) (evaluate : AgentReport Facts → List Finding) where
  unfoldable pub outcome_for : ℕ → AgentReport Facts → Option (List AcceptRule) → Outcome
  unfolding start add finish
  outcome_for now report policy = finish (add chrono evaluate (start policy) (now, report)) 1 0

unfoldable pub outcome_for_writer_failure : OutcomeBuilder → ℕ → ℕ → Outcome
unfolding finish
outcome_for_writer_failure agg hosts_requested lost =
    let outcome = finish agg hosts_requested lost in
    record outcome { coverage = record outcome.coverage { output_failed = true } }

unfoldable pub missing_of : List Text → List Text → List Text
missing_of hosts reported = filter (λ h. not (contains reported h)) hosts
