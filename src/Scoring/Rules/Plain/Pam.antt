-- ===== src/Scoring/Rules/Plain/Pam.antt =====
-- src/scoring.rs, `evaluate`: the findings on PAM.
use owlzops_mapper.Report.{Facts}
use owlzops_mapper.Scoring.Rules.Plain.{plain, AllPlain, is_plain}
use owlzops_mapper.Scoring.Rules.Pam.{pam_injections}

pub pam_injections-AllPlain : (r : Facts) → AllPlain (pam_injections r)
unfolding pam_injections is_plain
pam_injections-AllPlain r = search plain
