-- ===== src/Scoring/Rules/Reliability.antt =====
-- src/scoring.rs, `evaluate`: failed services, backups, memory and time.
use owlzops_mapper.Common.{ℕ, codes, not, List, ◌++◌, none, some, any, length, ltb, contains_text}
use owlzops_mapper.Scoring.Finding.{Finding, Category, Scanner}
use owlzops_mapper.Scoring.Rules.Push.{finding, push_if, non_empty, counted}
use owlzops_mapper.Report.{Facts}

abbrev pub risk_failed_services : ℕ
risk_failed_services = 10

abbrev pub risk_no_backup : ℕ
risk_no_backup = 20

abbrev pub risk_oom_kills : ℕ
risk_oom_kills = 10

abbrev pub risk_ntp_not_synced : ℕ
risk_ntp_not_synced = 10

unfoldable pub host_reliability : Facts → List Finding
unfolding contains_text
host_reliability r =
    push_if (any (λ s. contains_text s (codes ".service")) r.host.failed_services) (
      finding "REL-001" Scanner.host (codes "Failed systemd services") Category.reliability
        risk_failed_services (counted (length r.host.failed_services) (codes " failed service(s)"))
        none none)
    ++ push_if (not (non_empty r.host.backup_tools)) (
        finding "REL-002" Scanner.host (codes "No backup tools detected") Category.reliability
          risk_no_backup (codes "No automated backup tools found") none none)
    ++ push_if (ltb 0 r.host.oom_kills) (
        finding "REL-003" Scanner.host (codes "OOM kills present") Category.reliability
          risk_oom_kills (counted r.host.oom_kills (codes " OOM kill(s) detected")) none none)

unfoldable pub ntp : Facts → List Finding
ntp r = push_if (not r.host.ntp_synchronized) (
    finding "HYG-001" Scanner.host (codes "NTP not synchronized") Category.hygiene
      risk_ntp_not_synced (codes "Time not synchronized") none (some "CIS 2.2.1.1"))
