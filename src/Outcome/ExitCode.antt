-- ===== src/Outcome/ExitCode.antt =====
-- src/main.rs: what the exit code 3 of a fleet says about its reports.
use owlzops_mapper.Common.{
  ℕ, Text, Bool, List, [], ◌∷◌, Option, none, some, ◌≡◌, arith, ◌↔◌, ◌⊎◌, inl, inr, Any, ap,
  Any-mono,
}
use owlzops_mapper.Scoring.Finding.{Finding}
use owlzops_mapper.Scoring.Verdict.{
  SecurityVerdict, clean, critical, compromised, worse, rank, security_verdict_from_findings,
  compromise_ids,
}
use owlzops_mapper.Scoring.Verdict.Laws.{IsLiveIn, verdict-compromised_iff}
use owlzops_mapper.Acceptance.Rules.{AcceptRule, Chrono, load, ok}
use owlzops_mapper.Acceptance.Apply.Keeps.{apply-compromised_iff}
use owlzops_mapper.Report.{AgentReport}
use owlzops_mapper.Outcome.{
  OutcomeBuilder, Outcome, start, worst, add, add_all, finish, exit_code, accepted_findings,
}

-- A policy that was given, if any, came out of `load`.
pub record IsLoaded (chrono : Chrono) (rules : List AcceptRule) : Type 0 where
  pub from_str : Text → Option (List AcceptRule)
  pub read : Option (Text × Bool)
  pub loaded : load chrono from_str read ≡ ok rules

abbrev pub IsLoadedPolicy : Chrono → Option (List AcceptRule) → Type 0
IsLoadedPolicy chrono none = Unit
IsLoadedPolicy chrono (some rules) = IsLoaded chrono rules

pub some_inj : {v w : SecurityVerdict} → some v ≡ some w → v ≡ w
some_inj h = cc

worst-compromised_iff :
    (b : Option SecurityVerdict) (v : SecurityVerdict)
    → (worst b v ≡ compromised) ↔ ((b ≡ some compromised) ⊎ (v ≡ compromised))
unfolding worse rank
worst-compromised_iff none v = ground arith
worst-compromised_iff (some clean) v = ground arith
worst-compromised_iff (some critical) v = ground arith
worst-compromised_iff (some compromised) v = ground arith

exit_code-compromised :
    (o : Outcome) (flag : Bool) → (exit_code o flag ≡ 3) ↔ (o.verdict ≡ some compromised)
unfolding exit_code
exit_code-compromised o flag = ground arith

module _ {Facts : Type 0} (chrono : Chrono) (evaluate : AgentReport Facts → List Finding) where
  -- What one report adds to the verdict.
  abbrev pub verdict_of_report : Option (List AcceptRule) → ℕ × AgentReport Facts → SecurityVerdict
  verdict_of_report policy (now, report) =
      security_verdict_from_findings (accepted_findings chrono evaluate policy now report)

  add-verdict :
      (b : OutcomeBuilder) (e : ℕ × AgentReport Facts)
      → ((add chrono evaluate b e).verdict ≡ some compromised)
        ↔ ((b.verdict ≡ some compromised) ⊎ (verdict_of_report b.acceptances e ≡ compromised))
  unfolding add
  add-verdict b e =
      let w = worst-compromised_iff b.verdict (verdict_of_report b.acceptances e) in
      (λ h. w.0 (some_inj h), λ h. ap some (w.1 h))

  add_all-verdict :
      (es : List (ℕ × AgentReport Facts)) (b : OutcomeBuilder)
      → ((add_all chrono evaluate b es).verdict ≡ some compromised) ↔ (
          (b.verdict ≡ some compromised)
          ⊎ Any (λ e. verdict_of_report b.acceptances e ≡ compromised) es)
  unfolding add_all add
  add_all-verdict [] b = ground arith
  add_all-verdict (e ∷ es) b =
      let one = add-verdict b e in
      let ih : ((add_all chrono evaluate (add chrono evaluate b e) es).verdict ≡ some compromised)
          ↔ (((add chrono evaluate b e).verdict ≡ some compromised)
              ⊎ Any (λ e'. verdict_of_report b.acceptances e' ≡ compromised) es) =
        add_all-verdict es (add chrono evaluate b e) in
      (
        λ h. elim (ih.0 h) [
          | inl x ↦ elim (one.0 x) [ inl y ↦ inl y | inr y ↦ inr (inl y) ]
          | inr x ↦ inr (inr x)
        ],
        λ h. ih.1 (elim h [
          | inl x ↦ inl (one.1 (inl x))
          | inr (inl x) ↦ inl (one.1 (inr x))
          | inr (inr x) ↦ inr x
        ]),
      )

  verdict_of_report-compromised_iff :
      (policy : Option (List AcceptRule)) (e : ℕ × AgentReport Facts)
      → IsLoadedPolicy chrono policy
      → (verdict_of_report policy e ≡ compromised) ↔ Any (IsLiveIn compromise_ids) (evaluate e.1)
  unfolding accepted_findings
  verdict_of_report-compromised_iff none e l = verdict-compromised_iff (evaluate e.1)
  verdict_of_report-compromised_iff (some rules) e l =
      let keeps =
        apply-compromised_iff chrono e.0 rules e.1.hostname l.from_str l.read (evaluate e.1)
          l.loaded in
      let raw = verdict-compromised_iff (evaluate e.1) in
      (λ h. raw.0 (keeps.0 h), λ h. keeps.1 (raw.1 h))

  -- With no policy, or with one that `load` returned, the exit code of a fleet is 3 exactly if some
  -- report has a live finding with a compromise id, whatever was missing or lost, and whatever the
  -- flag for incomplete runs.
  pub exit_code-compromised_iff :
      (policy : Option (List AcceptRule)) (es : List (ℕ × AgentReport Facts)) (hosts lost : ℕ)
      (flag : Bool)
      → IsLoadedPolicy chrono policy
      → (exit_code (finish (add_all chrono evaluate (start policy) es) hosts lost) flag ≡ 3)
        ↔ Any (λ e. Any (IsLiveIn compromise_ids) (evaluate e.1)) es
  unfolding finish start
  exit_code-compromised_iff policy es hosts lost flag l =
      let code =
        exit_code-compromised (finish (add_all chrono evaluate (start policy) es) hosts lost)
          flag in
      let all = add_all-verdict es (start policy) in
      (
        λ h. elim (all.0 (code.0 h)) [
          | inl x ↦ absurd (cc)
          | inr x ↦ Any-mono es (λ e v. (verdict_of_report-compromised_iff policy e l).0 v) x
        ],
        λ h. code.1 (
            all.1
              (inr (Any-mono es (λ e v. (verdict_of_report-compromised_iff policy e l).1 v) h))),
      )
