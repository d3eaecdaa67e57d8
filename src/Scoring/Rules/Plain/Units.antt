-- ===== src/Scoring/Rules/Plain/Units.antt =====
-- src/scoring.rs, `evaluate`: the findings on units.
use owlzops_mapper.Common.{refl, arith}
use owlzops_mapper.Report.{Facts}
use owlzops_mapper.Scoring.Rules.Plain.{AllPlain, push_if-AllPlain, is_plain}
use owlzops_mapper.Scoring.Rules.Units.{
  live_rogue, live_vendor, dormant, weak_targets, unpackaged_targets,
}

pub live_rogue-AllPlain : (r : Facts) → AllPlain (live_rogue r)
unfolding live_rogue is_plain
live_rogue-AllPlain r = push_if-AllPlain _ _ refl

pub live_vendor-AllPlain : (r : Facts) → AllPlain (live_vendor r)
unfolding live_vendor is_plain
live_vendor-AllPlain r = push_if-AllPlain _ _ refl

pub dormant-AllPlain : (r : Facts) → AllPlain (dormant r)
unfolding dormant is_plain
dormant-AllPlain r = push_if-AllPlain _ _ (ground arith)

pub weak_targets-AllPlain : (r : Facts) → AllPlain (weak_targets r)
unfolding weak_targets is_plain
weak_targets-AllPlain r = push_if-AllPlain _ _ refl

pub unpackaged_targets-AllPlain : (r : Facts) → AllPlain (unpackaged_targets r)
unfolding unpackaged_targets is_plain
unpackaged_targets-AllPlain r = push_if-AllPlain _ _ refl
