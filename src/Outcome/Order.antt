-- ===== src/Outcome/Order.antt =====
-- src/main.rs: the outcome of a fleet against the order in which its reports arrive.
use mathlib.Core.List.{Permᴰ}
use owlzops_mapper.Common.{
  ℕ, ◌+◌, Bool, List, Option, none, some, ◌||◌, not, ◌≡◌, refl, arith, ap, ap₂, ◌∙◌,
}
use owlzops_mapper.Scoring.Finding.{Finding}
use owlzops_mapper.Scoring.Verdict.{SecurityVerdict, worse, rank}
use owlzops_mapper.Acceptance.Rules.{Chrono}
use owlzops_mapper.Report.{AgentReport}
use owlzops_mapper.Outcome.{OutcomeBuilder, worst, add, add_all, is_empty}
use owlzops_mapper.Outcome.ExitCode.{verdict_of_report}

worst_comm :
    (b : Option SecurityVerdict) (v w : SecurityVerdict)
    → worst (some (worst b v)) w ≡ worst (some (worst b w)) v
unfolding worse rank
worst_comm none v w = ground arith
worst_comm (some b) v w = ground arith

or_right_comm : (a b c : Bool) → ((a || b) || c) ≡ ((a || c) || b)
or_right_comm a b c = ground arith

-- Builders with the same parts are the same.
abbrev build : SecurityVerdict → Bool → Bool → Bool → OutcomeBuilder → OutcomeBuilder
build v failed root warned b = record {
  verdict = some v;
  coverage = record b.coverage { scanners_failed = failed; non_root = root; warnings = warned };
  reports_seen = b.reports_seen + 1 + 1;
  acceptances = b.acceptances;
}

module _ {Facts : Type 0} (chrono : Chrono) (evaluate : AgentReport Facts → List Finding) where
  add_comm :
      (b : OutcomeBuilder) (e f : ℕ × AgentReport Facts)
      → add chrono evaluate (add chrono evaluate b e) f
        ≡ add chrono evaluate (add chrono evaluate b f) e
  unfolding add
  add_comm b e f =
      let x = verdict_of_report chrono evaluate b.acceptances e in
      let y = verdict_of_report chrono evaluate b.acceptances f in
      let fails : ℕ × AgentReport Facts → Bool = λ r. not (is_empty r.1.failed_scanners) in
      let roots : ℕ × AgentReport Facts → Bool = λ r. not r.1.is_root_execution in
      let warns : ℕ × AgentReport Facts → Bool = λ r. not (is_empty r.1.scan_warnings) in
      let c = b.coverage in
      let f1 = (c.scanners_failed || fails e) || fails f in
      let r1 = (c.non_root || roots e) || roots f in
      let w1 = (c.warnings || warns e) || warns f in
      let v2 = worst (some (worst b.verdict y)) x in
      let f2 = (c.scanners_failed || fails f) || fails e in
      let r2 = (c.non_root || roots f) || roots e in
      ap (λ v. build v f1 r1 w1 b) (worst_comm b.verdict x y)
      ∙ (ap (λ q. build v2 q r1 w1 b) (or_right_comm c.scanners_failed (fails e) (fails f))
          ∙ (ap (λ q. build v2 f2 q w1 b) (or_right_comm c.non_root (roots e) (roots f))
              ∙ ap (λ q. build v2 f2 r2 q b) (or_right_comm c.warnings (warns e) (warns f))))

  -- The reports of a fleet arrive in any order, each at its own time: the aggregate is the same.
  pub add_all-Perm :
      {es fs : List (ℕ × AgentReport Facts)} (b : OutcomeBuilder)
      → Permᴰ es fs
      → add_all chrono evaluate b es ≡ add_all chrono evaluate b fs
  unfolding add_all
  add_all-Perm b Permᴰ.nil = refl
  add_all-Perm b (Permᴰ.cons {b = a} {l₁ = es} e h) =
      ap (λ z. add_all chrono evaluate (add chrono evaluate b z) es) e
      ∙ add_all-Perm (add chrono evaluate b a) h
  add_all-Perm b (Permᴰ.swap {a = u} {b = v} {l = rest} e q) =
      ap (λ w. add_all chrono evaluate w rest) (add_comm b u v)
      ∙ ap₂ (λ x y. add_all chrono evaluate (add chrono evaluate (add chrono evaluate b x) y) rest)
          q e
  add_all-Perm b (Permᴰ.trans h k) = add_all-Perm b h ∙ add_all-Perm b k
