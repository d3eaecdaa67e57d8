-- ===== src/Scoring/Rules/Plain/Persistence.antt =====
-- src/scoring.rs, `evaluate`: the findings on preloaded libraries and generators.
use owlzops_mapper.Common.{Text, List, refl, arith}
use owlzops_mapper.Report.{Facts}
use owlzops_mapper.Scoring.Rules.Plain.{plain, AllPlain, push_if-AllPlain, is_plain}
use owlzops_mapper.Scoring.Rules.Persistence.{
  active_preloads, preload_injections, ld_so_conf, generators,
}

pub active_preloads-AllPlain : (xs : List Text) (ys : List Text) → AllPlain (active_preloads xs ys)
unfolding active_preloads is_plain
active_preloads-AllPlain xs ys = push_if-AllPlain _ _ (ground arith)

pub preload_injections-AllPlain : (r : Facts) → AllPlain (preload_injections r)
unfolding preload_injections is_plain
preload_injections-AllPlain r = search (plain, active_preloads-AllPlain)

pub ld_so_conf-AllPlain : (r : Facts) → AllPlain (ld_so_conf r)
unfolding ld_so_conf is_plain
ld_so_conf-AllPlain r = push_if-AllPlain _ _ refl

pub generators-AllPlain : (r : Facts) → AllPlain (generators r)
unfolding generators is_plain
generators-AllPlain r = search plain
