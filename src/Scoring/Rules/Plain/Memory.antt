-- ===== src/Scoring/Rules/Plain/Memory.antt =====
-- src/scoring.rs, `evaluate`: the findings on regions of memory.
use owlzops_mapper.Common.{Text, List, refl, arith, nat_eq}
use owlzops_mapper.Scoring.Rules.Plain.{AllPlain, push_if-AllPlain, is_plain}
use owlzops_mapper.Scoring.Rules.Memory.{
  Regions, classic_injections, unattributed_payloads, memory_anomalies, provisional_regions,
  unlink_ghosts, jit_advisories,
}

pub classic_injections-AllPlain : (g : Regions) → AllPlain (classic_injections g)
unfolding classic_injections is_plain
classic_injections-AllPlain g = push_if-AllPlain _ _ refl

pub unattributed_payloads-AllPlain : (g : Regions) → AllPlain (unattributed_payloads g)
unfolding unattributed_payloads is_plain
unattributed_payloads-AllPlain g = push_if-AllPlain _ _ refl

pub unlink_ghosts-AllPlain : (g : Regions) → AllPlain (unlink_ghosts g)
unfolding unlink_ghosts is_plain
unlink_ghosts-AllPlain g = push_if-AllPlain _ _ refl

module _ (bucket_order : List Text → List Text) where
  pub memory_anomalies-AllPlain : (g : Regions) → AllPlain (memory_anomalies bucket_order g)
  unfolding memory_anomalies is_plain
  memory_anomalies-AllPlain g = push_if-AllPlain _ _ (ground arith)

  pub provisional_regions-AllPlain : (g : Regions) → AllPlain (provisional_regions bucket_order g)
  unfolding provisional_regions is_plain
  provisional_regions-AllPlain g = push_if-AllPlain _ _ refl

  pub jit_advisories-AllPlain : (g : Regions) → AllPlain (jit_advisories bucket_order g)
  unfolding jit_advisories is_plain
  jit_advisories-AllPlain g = push_if-AllPlain _ _ refl
