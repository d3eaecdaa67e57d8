-- ===== src/Examples/Outcome.antt =====
-- src/main.rs at a small fleet.
use mathlib.Core.List.{Permᴰ}
use owlzops_mapper.Common.{
  text_eq, trim, text_beq, is_whitespace, ℕ, Text, Bool, true, false, List, [], ◌∷◌, ◌++◌, Option,
  none, some, codes, ◌≡◌, ◌≢◌, refl, ◌↔◌, inl, inr, Any, All, ◌≤◌, map, length, if◌then◌else◌, ◌==◌,
  nat_eq,
}
use owlzops_mapper.Scoring.Finding.{Finding}
use owlzops_mapper.Scoring.Verdict.{compromise_ids}
use owlzops_mapper.Scoring.Verdict.Laws.{IsLiveIn}
use owlzops_mapper.Report.{AgentReport}
use owlzops_mapper.Outcome.{start, add_all, finish, exit_code, outcome_for, missing_of}
use owlzops_mapper.Outcome.ExitCode.{exit_code-compromised_iff}
use owlzops_mapper.Outcome.Clean.{IsClean, exit_code-IsClean_iff}
use owlzops_mapper.Outcome.Order.{add_all-Perm}
use owlzops_mapper.Outcome.Resume.{ok, err, torn_record, resume_scan}
use owlzops_mapper.Outcome.Resume.RoundTrip.{
  IsWritten, record_line, stamped, credited, resume_scan-written, resume_scan-torn,
}
use owlzops_mapper.Examples.Scoring.{host_findings, no_firewall}
use owlzops_mapper.Examples.Acceptance.{years, policy, parse_as, policy_loads}

abbrev web_1 : AgentReport (List Finding)
web_1 = record {
  hostname = codes "web-1";
  input_address = some (codes "10.0.0.1");
  failed_scanners = [];
  is_root_execution = true;
  scan_warnings = [];
  facts = no_firewall ∷ [];
}

abbrev db_1 : AgentReport (List Finding)
db_1 = record web_1 {
  hostname = codes "db-1";
  input_address = some (codes "10.0.0.2");
  facts = host_findings;
}

abbrev evaluate : AgentReport (List Finding) → List Finding
evaluate r = r.facts

abbrev fleet : List (ℕ × AgentReport (List Finding))
fleet = (5, web_1) ∷ (6, db_1) ∷ []

abbrev web : List (ℕ × AgentReport (List Finding))
web = (5, web_1) ∷ []

missing_test :
    missing_of (codes "a" ∷ codes "b" ∷ codes "c" ∷ []) (codes "b" ∷ [])
    ≡ codes "a" ∷ codes "c" ∷ []
unfolding missing_of owlzops_mapper.Common.text_beq
missing_test = refl

accepted_test : exit_code (outcome_for years evaluate 5 web_1 (some policy)) false ≡ 0
unfolding exit_code outcome_for owlzops_mapper.Scoring.Verdict.security_verdict_from_findings
    compromise_ids owlzops_mapper.Scoring.Verdict.has owlzops_mapper.Acceptance.Apply.apply
    owlzops_mapper.Acceptance.Apply.apply_finding owlzops_mapper.Acceptance.Apply.rule_for
    owlzops_mapper.Acceptance.Glob.glob_match owlzops_mapper.Common.utf8_char
    owlzops_mapper.Acceptance.Apply.apply_rule owlzops_mapper.Acceptance.Rules.parse_expiry
    owlzops_mapper.Common.parse_uint
accepted_test = refl

missing_code_test :
    exit_code (finish (add_all years evaluate (start (some policy)) web) 2 0) false ≡ 2
unfolding exit_code finish add_all start
    owlzops_mapper.Scoring.Verdict.security_verdict_from_findings compromise_ids
    owlzops_mapper.Scoring.Verdict.has owlzops_mapper.Acceptance.Apply.apply
    owlzops_mapper.Acceptance.Apply.apply_finding owlzops_mapper.Acceptance.Apply.rule_for
    owlzops_mapper.Acceptance.Glob.glob_match owlzops_mapper.Common.utf8_char
    owlzops_mapper.Acceptance.Apply.apply_rule owlzops_mapper.Acceptance.Rules.parse_expiry
    owlzops_mapper.Common.parse_uint
missing_code_test = refl

exit_code-compromised_iff_example :
    (exit_code (finish (add_all years evaluate (start (some policy)) fleet) 3 0) true ≡ 3)
    ↔ Any (λ e. Any (IsLiveIn compromise_ids) (evaluate e.1)) fleet
exit_code-compromised_iff_example =
    exit_code-compromised_iff years evaluate (some policy) fleet 3 0 true
      (record { from_str = parse_as policy; read = some ([], false); loaded = policy_loads })

exit_code-IsClean_iff_example :
    (exit_code (finish (add_all years evaluate (start (some policy)) web) 1 0) false ≡ 0) ↔ (
      (web ≢ [])
      × All (IsClean years evaluate (some policy)) web
      × (1 ≤ length web)
      × (◌≡◌ {A = ℕ} 0 0))
exit_code-IsClean_iff_example = exit_code-IsClean_iff years evaluate (some policy) web 1 0 false

add_all-Perm_example :
    add_all years evaluate (start none) ((5, web_1) ∷ (6, db_1) ∷ [])
    ≡ add_all years evaluate (start none) ((6, db_1) ∷ (5, web_1) ∷ [])
add_all-Perm_example = add_all-Perm years evaluate (start none) (Permᴰ.swap refl refl)

-- A reader and a writer of the two reports.
abbrev read_report : Text → Option (AgentReport (List Finding))
read_report s = if s == codes "1" then some web_1 else if s == codes "2" then some db_1 else none

abbrev write_report : AgentReport (List Finding) → Text
write_report r = if length r.facts == 1 then codes "1" else codes "2"

abbrev written : List (Text × AgentReport (List Finding))
written = (codes "10.0.0.1", web_1) ∷ (codes "10.0.0.2", db_1) ∷ []

written-IsWritten : All (IsWritten years evaluate (λ n. n) read_report write_report) written
unfolding trim text_beq
written-IsWritten = (
  record { addressed = refl; first = 49; rest = []; trimmed = refl; readable = refl },
  (record { addressed = refl; first = 50; rest = []; trimmed = refl; readable = refl }, tt),
)

resume_scan-written_example :
    resume_scan years evaluate
      (λ n. n)
      read_report
      (some
        (map (λ w. some (record_line years evaluate (λ n. n) read_report write_report w)) written))
      (start none)
    ≡ ok
        (record {
          done = credited years evaluate (λ n. n) read_report write_report [] written;
          needs_newline = false;
        })
        (add_all years evaluate
          (start none)
          (stamped years evaluate (λ n. n) read_report write_report 0 written))
resume_scan-written_example =
    resume_scan-written years evaluate (λ n. n) read_report write_report written (start none)
      written-IsWritten

resume_scan-torn_example :
    resume_scan years evaluate
      (λ n. n)
      read_report
      (some (
        map (λ w. some (record_line years evaluate (λ n. n) read_report write_report w)) written
        ++ some (codes "{") ∷ []))
      (start none)
    ≡ err (torn_record 3 4)
unfolding trim text_beq owlzops_mapper.Common.ends_with owlzops_mapper.Common.as_bytes
    owlzops_mapper.Common.utf8_char
resume_scan-torn_example =
    resume_scan-torn years evaluate (λ n. n) read_report write_report written (codes "{") b'{' []
      (start none) written-IsWritten refl refl refl
