-- ===== src/Outcome/Clean.antt =====
-- src/main.rs: what the exit code 0 of a fleet says about its reports.
use owlzops_mapper.Common.{
  ℕ, ◌+◌, ◌≤◌, Bool, true, false, List, [], ◌∷◌, Option, none, some, ◌≡◌, ◌≢◌, refl, arith, ◌↔◌,
  ◌⊎◌, inl, inr, All, length, ap, not, ◌||◌, sym, ◌∙◌,
}
use owlzops_mapper.Scoring.Finding.{Finding}
use owlzops_mapper.Scoring.Verdict.{SecurityVerdict, clean, critical, compromised, worse, rank}
use owlzops_mapper.Acceptance.Rules.{AcceptRule, Chrono}
use owlzops_mapper.Report.{AgentReport}
use owlzops_mapper.Outcome.{
  OutcomeBuilder, Outcome, Coverage, start, worst, add, add_all, finish, exit_code, is_full,
  is_empty,
}
use owlzops_mapper.Outcome.ExitCode.{verdict_of_report, some_inj}

-- The code 0: the verdict is clean, and the coverage full.
exit_code-clean :
    (o : Outcome) (flag : Bool)
    → (exit_code o flag ≡ 0) ↔ ((o.verdict ≡ some clean) × (is_full o.coverage ≡ true))
unfolding exit_code
exit_code-clean o flag = ground arith

none≢clean : ¬ (none ≡ some clean)
none≢clean e = cc

or_not : (a b : Bool) → ((a || not b) ≡ false) ↔ ((a ≡ false) × (b ≡ true))
or_not a b = ground arith

is_full_iff :
    (c : Coverage)
    → (is_full c ≡ true) ↔ (
        (c.hosts_missing ≡ 0)
        × (c.records_lost ≡ 0)
        × ((c.scanners_failed ≡ false) × (c.non_root ≡ false) × (c.warnings ≡ false))
        × (c.output_failed ≡ false))
unfolding is_full
is_full_iff c = ground arith

module _ {Facts : Type 0} (chrono : Chrono) (evaluate : AgentReport Facts → List Finding) where
  -- A report that takes nothing from a clean and complete run.
  pub record IsClean (policy : Option (List AcceptRule)) (e : ℕ × AgentReport Facts) : Type 0 where
    pub unremarkable : verdict_of_report chrono evaluate policy e ≡ clean
    pub complete : is_empty e.1.failed_scanners ≡ true
    pub privileged : e.1.is_root_execution ≡ true
    pub quiet : is_empty e.1.scan_warnings ≡ true

  abbrev IsReady : OutcomeBuilder → Type 0
  IsReady b =
      ((b.verdict ≡ none) ⊎ (b.verdict ≡ some clean))
      × (b.coverage.scanners_failed ≡ false)
      × (b.coverage.non_root ≡ false)
      × (b.coverage.warnings ≡ false)

  worst-clean_iff :
      (b : Option SecurityVerdict) (v : SecurityVerdict)
      → (worst b v ≡ clean) ↔ (((b ≡ none) ⊎ (b ≡ some clean)) × (v ≡ clean))
  unfolding worse rank
  worst-clean_iff none v = ground arith
  worst-clean_iff (some clean) v = ground arith
  worst-clean_iff (some critical) v = ground arith
  worst-clean_iff (some compromised) v = ground arith

  add-IsReady :
      (b : OutcomeBuilder) (e : ℕ × AgentReport Facts)
      → IsReady (add chrono evaluate b e) ↔ (IsReady b × IsClean b.acceptances e)
  unfolding add
  add-IsReady b e =
      let w = worst-clean_iff b.verdict (verdict_of_report chrono evaluate b.acceptances e) in
      let failed = or_not b.coverage.scanners_failed (is_empty e.1.failed_scanners) in
      let root = or_not b.coverage.non_root e.1.is_root_execution in
      let warned = or_not b.coverage.warnings (is_empty e.1.scan_warnings) in
      (
        λ h.
            let v : ((b.verdict ≡ none) ⊎ (b.verdict ≡ some clean))
                × (verdict_of_report chrono evaluate b.acceptances e ≡ clean) =
              elim h.0 [ inl x ↦ absurd (cc) | inr x ↦ w.0 (some_inj x) ] in
            let f = failed.0 h.1 in
            let r = root.0 h.2 in
            let q = warned.0 h.3 in
            (
              (v.0, f.0, r.0, q.0),
              record { unremarkable = v.1; complete = f.1; privileged = r.1; quiet = q.1 },
            ),
        λ h. (
          inr (ap some (w.1 (h.0.0, h.1.unremarkable))),
          failed.1 (h.0.1, h.1.complete),
          root.1 (h.0.2, h.1.privileged),
          warned.1 (h.0.3, h.1.quiet),
        ),
      )

  add_all-IsReady :
      (es : List (ℕ × AgentReport Facts)) (b : OutcomeBuilder)
      → IsReady (add_all chrono evaluate b es) ↔ (IsReady b × All (IsClean b.acceptances) es)
  unfolding add_all add
  add_all-IsReady [] b = (λ h. (h, tt), λ h. h.0)
  add_all-IsReady (e ∷ es) b =
      let one = add-IsReady b e in
      let ih : IsReady (add_all chrono evaluate (add chrono evaluate b e) es)
          ↔ (IsReady (add chrono evaluate b e) × All (IsClean b.acceptances) es) =
        add_all-IsReady es (add chrono evaluate b e) in
      (
        λ h. let r = ih.0 h in let o = one.0 r.0 in (o.0, (o.1, r.1)),
        λ h. ih.1 (one.1 (h.0, h.1.0), h.1.1),
      )

  add_all-verdict_none :
      (es : List (ℕ × AgentReport Facts)) (b : OutcomeBuilder)
      → (add_all chrono evaluate b es).verdict ≡ none
      → (es ≡ []) × (b.verdict ≡ none)
  unfolding add_all add
  add_all-verdict_none [] b h = (refl, h)
  add_all-verdict_none (e ∷ es) b h =
      absurd (cc (add_all-verdict_none es (add chrono evaluate b e) h).1)

  pub add_all-reports_seen :
      (es : List (ℕ × AgentReport Facts)) (b : OutcomeBuilder)
      → (add_all chrono evaluate b es).reports_seen ≡ b.reports_seen + length es
  unfolding add_all add
  add_all-reports_seen [] b = omega arith
  add_all-reports_seen (e ∷ es) b = omega (arith, add_all-reports_seen es (add chrono evaluate b e))

  no_reports :
      (b : OutcomeBuilder) (es : List (ℕ × AgentReport Facts))
      → b.verdict ≡ none
      → es ≡ []
      → ¬ ((add_all chrono evaluate b es).verdict ≡ some clean)
  unfolding add_all
  no_reports b es n e h =
      let same : (add_all chrono evaluate b es).verdict ≡ b.verdict =
        ap (λ xs. (add_all chrono evaluate b xs).verdict) e in
      none≢clean (sym n ∙ (sym same ∙ h))

  add_all-untouched :
      (es : List (ℕ × AgentReport Facts)) (b : OutcomeBuilder)
      → (add_all chrono evaluate b es).coverage.output_failed ≡ b.coverage.output_failed
  unfolding add_all add
  add_all-untouched [] b = refl
  add_all-untouched (e ∷ es) b = add_all-untouched es (add chrono evaluate b e)

  -- The exit code is 0 exactly if there is a report, every report is clean, complete and made by
  -- root without warnings, as many reports came as hosts were asked for, and none was lost; the
  -- flag for incomplete runs does not matter.
  pub exit_code-IsClean_iff :
      (policy : Option (List AcceptRule)) (es : List (ℕ × AgentReport Facts)) (hosts lost : ℕ)
      (flag : Bool)
      → (exit_code (finish (add_all chrono evaluate (start policy) es) hosts lost) flag ≡ 0)
        ↔ ((es ≢ []) × All (IsClean policy) es × (hosts ≤ length es) × (lost ≡ 0))
  unfolding finish start
  exit_code-IsClean_iff policy es hosts lost flag =
      let agg = add_all chrono evaluate (start policy) es in
      let code = exit_code-clean (finish agg hosts lost) flag in
      let ready = add_all-IsReady es (start policy) in
      let full = is_full_iff (finish agg hosts lost).coverage in
      let seen = add_all-reports_seen es (start policy) in
      let empty : es ≡ [] → ¬ (agg.verdict ≡ some clean) = no_reports (start policy) es refl in
      (
        λ h.
            let c = code.0 h in
            let f = full.0 c.1 in
            (
              λ e. empty e c.0,
              (ready.0 (inr c.0, f.2.0, f.2.1, f.2.2)).1,
              omega (arith, f.0, seen),
              f.1,
            ),
        λ h.
            let r = ready.1 ((inl refl, refl, refl, refl), h.1) in
            let v : agg.verdict ≡ some clean = elim r.0 [
              | inl x ↦ absurd (h.0 (add_all-verdict_none es (start policy) x).0)
              | inr x ↦ x
            ] in
            code.1 (
              v,
              full.1 (
                omega (arith, h.2, seen),
                h.3,
                (r.1, r.2, r.3),
                add_all-untouched es (start policy),
              ),
            ),
      )
