-- ===== src/Scoring/Rules/Failed.antt =====
-- src/scoring.rs, `evaluate`: what a scanner that panicked does to the findings.
use owlzops_mapper.Common.{
  Option-cases, not_true, Text, Bool-cases, true, false, not, List, [], ◌∷◌, ◌++◌, none, some, ◌≡◌,
  refl, arith, inl, inr, All, All-append, filter, map, ◌==◌, string_eq, text_eq, ap, ◌∙◌,
}
use owlzops_mapper.Utils.Provenance.{Host}
use owlzops_mapper.Report.{Facts, AgentReport}
use owlzops_mapper.Scoring.Finding.{
  Finding, Scanner, scanner_eq, from_name, finding_from_failed_scanner,
}
use owlzops_mapper.Scoring.Rules.{host_findings, evaluate, scanner_panicked}
use owlzops_mapper.Scoring.Rules.Push.{concat}
use owlzops_mapper.Scoring.Rules.Plain.{AllProper, is_proper}
use owlzops_mapper.Scoring.Rules.Weights.{host_findings-AllProper, concat-AllProper, All-filter}

-- No name stands for the orchestrator.
from_name-orchestrator : (name : Text) → ¬ (from_name name ≡ some Scanner.orchestrator)
unfolding from_name
from_name-orchestrator name h = ground arith

orchestrator_apart :
    (name : Text)
    → (elim (from_name name) [ none ↦ false | some s ↦ s == Scanner.orchestrator ]) ≡ false
orchestrator_apart name = elim (Option-cases (from_name name)) [
  | inl e ↦ rw e refl
  | inr (s, e) ↦ rw e (
      not_true (λ h.
        from_name-orchestrator name
          (e ∙ ap some ((scanner_eq.beq_iff s Scanner.orchestrator).0 h))))
]

scanner_panicked-kept :
    (name : Text) (failed : List Text)
    → finding_from_failed_scanner (scanner_panicked name) failed ≡ false
unfolding finding_from_failed_scanner scanner_panicked
scanner_panicked-kept name [] = refl
scanner_panicked-kept name (f ∷ failed) =
    rw (orchestrator_apart f) (scanner_panicked-kept name failed)

filter-kept :
    (failed : List Text) (fs : List Finding)
    → All
        (λ f. finding_from_failed_scanner f failed ≡ false)
        (filter (λ f. not (finding_from_failed_scanner f failed)) fs)
filter-kept failed [] = tt
filter-kept failed (f ∷ fs) = elim (Bool-cases (finding_from_failed_scanner f failed)) [
  | inl e ↦ rw e (filter-kept failed fs)
  | inr e ↦ rw e (e, filter-kept failed fs)
]

map-kept :
    (names failed : List Text)
    → All (λ f. finding_from_failed_scanner f failed ≡ false) (map scanner_panicked names)
map-kept [] failed = tt
map-kept (n ∷ names) failed = (scanner_panicked-kept n failed, map-kept names failed)

-- The findings that say that a scanner panicked.
abbrev pub panics : List Finding → List Finding
panics = filter (λ f. f.id == "COV-001")

panics-append : (xs ys : List Finding) → AllProper xs → panics (xs ++ ys) ≡ panics ys
unfolding is_proper
panics-append [] ys h = refl
panics-append (x ∷ xs) ys h = ground (arith, panics-append xs ys, h.0)

panics-map : (names : List Text) → panics (map scanner_panicked names) ≡ map scanner_panicked names
unfolding scanner_panicked
panics-map [] = refl
panics-map (n ∷ names) = ap (λ fs. scanner_panicked n ∷ fs) (panics-map names)

module _ (host : Host) (file_name : Text → Text) (bucket_order : List Text → List Text) where
  -- No finding is left whose scanner panicked, and each panic is on record, in its order, and
  -- nothing else in its name.
  pub evaluate-failed :
      (report : AgentReport Facts)
      → All
          (λ f. finding_from_failed_scanner f report.failed_scanners ≡ false)
          (evaluate host file_name bucket_order report)
        × (panics (evaluate host file_name bucket_order report)
            ≡ map scanner_panicked report.failed_scanners)
  unfolding evaluate
  evaluate-failed report =
      let failed = report.failed_scanners in
      let found = concat (host_findings host file_name bucket_order report.facts) in
      let kept = filter (λ f. not (finding_from_failed_scanner f failed)) found in
      (
        All-append (λ f. finding_from_failed_scanner f failed ≡ false) kept
            (map scanner_panicked failed) (filter-kept failed found) (map-kept failed failed),
        panics-append kept (map scanner_panicked failed) (
              All-filter (λ f. is_proper f ≡ true) (λ f. not (finding_from_failed_scanner f failed))
                found
                (concat-AllProper (host_findings host file_name bucket_order report.facts)
                  (host_findings-AllProper host file_name bucket_order report.facts)))
            ∙ panics-map failed,
      )
