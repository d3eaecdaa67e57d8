-- ===== src/Acceptance/Apply/Keeps.antt =====
-- src/acceptance.rs: loaded policies and the verdict Compromised.
use owlzops_mapper.Common.{
  ℕ, Text, List, [], ◌∷◌, Option, none, some, ◌≡◌, All, Any, arith, All-find, Option-cases,
  contains, ◌↔◌, true, string_eq, find-some, inl, inr, Bool, sym, subst, String,
}
use owlzops_mapper.Scoring.Finding.{Finding}
use owlzops_mapper.Scoring.Verdict.{compromise_ids, security_verdict_from_findings, compromised}
use owlzops_mapper.Scoring.Verdict.Laws.{IsLiveIn, verdict-compromised_iff}
use owlzops_mapper.Acceptance.Rules.{AcceptRule, Chrono, ok, load, is_never_acceptable}
use owlzops_mapper.Acceptance.Rules.Checked.{IsAcceptable, load→All}
use owlzops_mapper.Acceptance.Apply.{rule_for, apply_finding, apply, false, apply_rule}

refused : (id : String) → contains compromise_ids id ≡ true → is_never_acceptable id ≡ false → ⊥
unfolding is_never_acceptable
refused id c h = ground arith

module _ (chrono : Chrono) (now : ℕ) (rules : List AcceptRule) (hostname : Text) where
  pub rule_for-id :
      (f : Finding) {r : AcceptRule}
      → rule_for chrono now rules hostname f ≡ some r
      → r.finding_id ≡ f.id
  unfolding rule_for
  rule_for-id f {r} e =
      let found = find-some _ rules e in (string_eq.beq_iff r.finding_id f.id).0 (ground arith)

  rule_for-All :
      (f : Finding) {r : AcceptRule}
      → All (IsAcceptable chrono) rules
      → rule_for chrono now rules hostname f ≡ some r
      → IsAcceptable chrono r
  unfolding rule_for
  rule_for-All f good e = All-find (IsAcceptable chrono) _ rules good e

  -- No acceptable rule is for a finding with a compromise id.
  rule_for-none :
      (f : Finding)
      → All (IsAcceptable chrono) rules
      → contains compromise_ids f.id ≡ true
      → rule_for chrono now rules hostname f ≡ none
  rule_for-none f good c = elim (Option-cases (rule_for chrono now rules hostname f)) [
    | inl e ↦ e
    | inr (r, e) ↦
        let named : contains compromise_ids r.finding_id ≡ true = rw (rule_for-id f e) c in
        absurd (refused r.finding_id named (rule_for-All f good e).allowed)
  ]

  apply_finding-eq_self :
      (f : Finding)
      → All (IsAcceptable chrono) rules
      → contains compromise_ids f.id ≡ true
      → (apply_finding chrono now rules hostname f).0 ≡ f
  unfolding apply_finding
  apply_finding-eq_self f good c = ground (arith, rule_for-none f good c)

  IsLiveIn-apply_finding :
      (ids : List String) (f : Finding)
      → IsLiveIn ids (apply_finding chrono now rules hostname f).0
      → IsLiveIn ids f
  unfolding apply_finding apply_rule
  IsLiveIn-apply_finding ids f h = ground arith

  Any-apply :
      (fs : List Finding)
      → All (IsAcceptable chrono) rules
      → Any (IsLiveIn compromise_ids) fs
      → Any (IsLiveIn compromise_ids) (apply chrono now rules hostname fs).0
  unfolding apply
  Any-apply [] good h = absurd h
  Any-apply (f ∷ fs) good (inl h) =
      inl (subst (IsLiveIn compromise_ids) (sym (apply_finding-eq_self f good h.0)) h)
  Any-apply (f ∷ fs) good (inr h) = inr (Any-apply fs good h)

  Any-of_apply :
      (ids : List String) (fs : List Finding)
      → Any (IsLiveIn ids) (apply chrono now rules hostname fs).0
      → Any (IsLiveIn ids) fs
  unfolding apply
  Any-of_apply ids [] h = absurd h
  Any-of_apply ids (f ∷ fs) (inl h) = inl (IsLiveIn-apply_finding ids f h)
  Any-of_apply ids (f ∷ fs) (inr h) = inr (Any-of_apply ids fs h)

  -- With any policy that `load` returned, the findings after `apply` have the verdict Compromised
  -- exactly if they had it before.
  pub apply-compromised_iff :
      (from_str : Text → Option (List AcceptRule)) (read : Option (Text × Bool)) (fs : List Finding)
      → load chrono from_str read ≡ ok rules
      → (security_verdict_from_findings (apply chrono now rules hostname fs).0 ≡ compromised)
        ↔ (security_verdict_from_findings fs ≡ compromised)
  apply-compromised_iff from_str read fs loaded =
      let good = load→All chrono from_str read loaded in
      let before = verdict-compromised_iff fs in
      let after = verdict-compromised_iff (apply chrono now rules hostname fs).0 in
      (
        λ h. before.1 (Any-of_apply compromise_ids fs (after.0 h)),
        λ h. after.1 (Any-apply fs good (before.0 h)),
      )
