-- ===== src/Scoring/Rules/Plain/Reliability.antt =====
-- src/scoring.rs, `evaluate`: the findings on reliability and time.
use owlzops_mapper.Common.{refl}
use owlzops_mapper.Report.{Facts}
use owlzops_mapper.Scoring.Rules.Plain.{plain, AllPlain, push_if-AllPlain, is_plain}
use owlzops_mapper.Scoring.Rules.Reliability.{host_reliability, ntp}

pub host_reliability-AllPlain : (r : Facts) → AllPlain (host_reliability r)
unfolding host_reliability is_plain
host_reliability-AllPlain r = search plain

pub ntp-AllPlain : (r : Facts) → AllPlain (ntp r)
unfolding ntp is_plain
ntp-AllPlain r = push_if-AllPlain _ _ refl
