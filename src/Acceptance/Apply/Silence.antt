-- ===== src/Acceptance/Apply/Silence.antt =====
-- src/acceptance.rs: what `apply` changes in the findings and in their score.
use owlzops_mapper.Common.{
  strip_prefix-append, ℕ, ◌+◌, ◌≤◌, ◌<◌, Text, List, [], ◌∷◌, none, some, ◌≡◌, refl, arith,
  Option-cases, ◌↔◌, ◌⊎◌, true, inl, inr, ap, length, is_some, starts_with, if◌then◌else◌, false,
}
use owlzops_mapper.Scoring.Finding.{Finding, Category}
use owlzops_mapper.Scoring.Verdict.{is_live, live}
use owlzops_mapper.Scoring.Score.{score}
use owlzops_mapper.Scoring.Score.Sum.{share, live_weight, score_exact}
use owlzops_mapper.Acceptance.Rules.{AcceptRule, Chrono, parse_expiry}
use owlzops_mapper.Acceptance.Apply.{
  rule_for, apply_rule, apply_finding, apply, is_accepted, accepted_count, acceptance_note,
  accepted_marker, after_marker, or_now,
}

starts_with-acceptance_note :
    (r : AcceptRule) → starts_with (acceptance_note r) accepted_marker ≡ true
unfolding starts_with acceptance_note
starts_with-acceptance_note r = ap is_some (strip_prefix-append accepted_marker (after_marker r))

module _ (chrono : Chrono) (now : ℕ) (rules : List AcceptRule) (hostname : Text) where
  -- The instant until which a rule holds has passed.
  abbrev pub IsExpired : AcceptRule → Type 0
  IsExpired r = or_now now (parse_expiry chrono r.expires) < now

  -- A finding counts after `apply` exactly if it counted before, and no rule is for it on this host
  -- or the first rule that is has expired.
  pub apply_finding-live_iff :
      (f : Finding)
      → (is_live (apply_finding chrono now rules hostname f).0 ≡ true) ↔ (
          (is_live f ≡ true)
          × ((rule_for chrono now rules hostname f ≡ none)
              ⊎ ((r : AcceptRule) × (rule_for chrono now rules hostname f ≡ some r) × IsExpired r)))
  unfolding apply_finding apply_rule
  apply_finding-live_iff f = elim (Option-cases (rule_for chrono now rules hostname f)) [
    | inl e ↦ ground (arith, e)
    | inr (r, e) ↦
        (λ h. (ground (arith, e), inr (r, e, ground (arith, e))), λ h. ground (arith, e, h))
  ]

  abbrev changed : Finding → Finding
  changed f = (apply_finding chrono now rules hostname f).0

  share-changed : (c : Category) (f : Finding) → share c (changed f) ≤ share c f
  unfolding share apply_finding apply_rule
  share-changed c f = ground arith

  live_weight-apply :
      (c : Category) (fs : List Finding)
      → live_weight c (apply chrono now rules hostname fs).0 ≤ live_weight c fs
  unfolding live_weight apply
  live_weight-apply c [] = omega arith
  live_weight-apply c (f ∷ fs) = omega (arith, share-changed c f, live_weight-apply c fs)

  -- A policy lowers the score or leaves it, on each axis and in total.
  pub score-apply-le :
      (fs : List Finding)
      → ((score (apply chrono now rules hostname fs).0).security ≤ (score fs).security)
        × ((score (apply chrono now rules hostname fs).0).reliability ≤ (score fs).reliability)
        × ((score (apply chrono now rules hostname fs).0).hygiene ≤ (score fs).hygiene)
        × ((score (apply chrono now rules hostname fs).0).total ≤ (score fs).total)
  score-apply-le fs = omega (
    arith,
    score_exact fs,
    score_exact (apply chrono now rules hostname fs).0,
    live_weight-apply Category.security fs,
    live_weight-apply Category.reliability fs,
    live_weight-apply Category.hygiene fs,
  )

  -- A live finding carries no marker, and one that is silenced here carries it.
  balance :
      (f : Finding)
      → (is_accepted (changed f)
          ≡ (if is_live (changed f) then false else if is_live f then true else is_accepted f))
        × (is_live (changed f) ≡ true → is_live f ≡ true)
        × (is_live f ≡ true → is_accepted f ≡ false)
  unfolding apply_finding apply_rule is_accepted
  balance f = elim (Option-cases (rule_for chrono now rules hostname f)) [
    | inl e ↦ ground (arith, e)
    | inr (r, e) ↦ ground (arith, e, starts_with-acceptance_note r)
  ]

  -- Each finding that `apply` silences is counted as accepted, and no other becomes so.
  pub accepted_count-apply :
      (fs : List Finding)
      → accepted_count (apply chrono now rules hostname fs).0
          + length (live (apply chrono now rules hostname fs).0)
        ≡ accepted_count fs + length (live fs)
  unfolding apply accepted_count live
  accepted_count-apply [] = refl
  accepted_count-apply (f ∷ fs) = ground (arith, balance f, accepted_count-apply fs)
