-- ===== src/Scoring/Rules/Plain/Capabilities.antt =====
-- src/scoring.rs, `evaluate`: the findings on capabilities of processes.
use owlzops_mapper.Common.{Bool, if◌then◌else◌, ℕ, List, ◌≤◌, refl, arith, le→leb, map}
use owlzops_mapper.Report.{Facts}
use owlzops_mapper.Report.Process.{ProcCapFinding}
use owlzops_mapper.Scoring.Classify.{
  ambient_escalation_weight, dangerous_from, has_bit, moderate_cap,
}
use owlzops_mapper.Scoring.Rules.Push.{max_of}
use owlzops_mapper.Scoring.Rules.Plain.{
  AllPlain, push_if-AllPlain, append-AllPlain, is_plain, max_of-le,
}
use owlzops_mapper.Scoring.Rules.Capabilities.{
  critical_capabilities, ambient_capabilities, escalating_ambient, harmless_ambient,
}

pub critical_capabilities-AllPlain : (r : Facts) → AllPlain (critical_capabilities r)
unfolding critical_capabilities is_plain
critical_capabilities-AllPlain r = push_if-AllPlain _ _ (ground arith)

tiers-le : (b c : Bool) → (if b then 12 else if c then 5 else 0) ≤ 12
tiers-le b c = ground arith

ambient_escalation_weight-le : (m : ℕ) → ambient_escalation_weight m ≤ 12
unfolding ambient_escalation_weight
ambient_escalation_weight-le m = tiers-le (dangerous_from 64 0 m) (has_bit m moderate_cap)

escalating_ambient-AllPlain : (fs : List ProcCapFinding) → AllPlain (escalating_ambient fs)
unfolding escalating_ambient is_plain
escalating_ambient-AllPlain fs =
    let h : max_of (map (λ f. ambient_escalation_weight f.ambient) fs) ≤ 12 =
      max_of-le (λ f. ambient_escalation_weight f.ambient) 12 fs
        (λ f. ambient_escalation_weight-le f.ambient) in
    push_if-AllPlain _ _ (
      rw (le→leb (max_of (map (λ f. ambient_escalation_weight f.ambient) fs)) 60 (omega (arith, h)))
        refl)

harmless_ambient-AllPlain : (fs : List ProcCapFinding) → AllPlain (harmless_ambient fs)
unfolding harmless_ambient is_plain
harmless_ambient-AllPlain fs = push_if-AllPlain _ _ refl

pub ambient_capabilities-AllPlain : (r : Facts) → AllPlain (ambient_capabilities r)
unfolding ambient_capabilities
ambient_capabilities-AllPlain r =
    search (append-AllPlain, escalating_ambient-AllPlain, harmless_ambient-AllPlain)
