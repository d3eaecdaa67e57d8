-- ===== src/Scoring/Rules/Plain/Ghosts.antt =====
-- src/scoring.rs, `evaluate`: the findings on hidden processes, cron jobs and secrets.
use owlzops_mapper.Common.{refl}
use owlzops_mapper.Report.{Facts}
use owlzops_mapper.Scoring.Rules.Plain.{plain, AllPlain, push_if-AllPlain, is_plain}
use owlzops_mapper.Scoring.Rules.Ghosts.{ghost_pids, cron_jobs, secret_leaks, self_leaks}

pub ghost_pids-AllPlain : (r : Facts) → AllPlain (ghost_pids r)
unfolding ghost_pids is_plain
ghost_pids-AllPlain r = search plain

pub cron_jobs-AllPlain : (r : Facts) → AllPlain (cron_jobs r)
unfolding cron_jobs is_plain
cron_jobs-AllPlain r = push_if-AllPlain _ _ refl

pub secret_leaks-AllPlain : (r : Facts) → AllPlain (secret_leaks r)
unfolding secret_leaks is_plain
secret_leaks-AllPlain r = search plain

pub self_leaks-AllPlain : (r : Facts) → AllPlain (self_leaks r)
unfolding self_leaks is_plain
self_leaks-AllPlain r = push_if-AllPlain _ _ refl
