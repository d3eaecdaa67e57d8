-- ===== src/Scoring/Rules/Plain/Sshd.antt =====
-- src/scoring.rs, `evaluate`: the findings on directives of sshd.
use owlzops_mapper.Common.{arith}
use owlzops_mapper.Report.{Facts}
use owlzops_mapper.Scoring.Rules.Plain.{plain, AllPlain, push_if-AllPlain, is_plain}
use owlzops_mapper.Scoring.Rules.Sshd.{sshd_directives, environment_keys}

pub sshd_directives-AllPlain : (r : Facts) → AllPlain (sshd_directives r)
unfolding sshd_directives is_plain
sshd_directives-AllPlain r = search plain

pub environment_keys-AllPlain : (r : Facts) → AllPlain (environment_keys r)
unfolding environment_keys is_plain
environment_keys-AllPlain r = push_if-AllPlain _ _ (ground arith)
