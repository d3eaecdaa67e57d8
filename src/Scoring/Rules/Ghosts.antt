-- ===== src/Scoring/Rules/Ghosts.antt =====
-- src/scoring.rs, `evaluate`: hidden processes, cron jobs and secrets in processes.
use owlzops_mapper.Common.{
  ℕ, ◌-◌, Text, codes, Bool, true, false, not, List, [], ◌++◌, Option, none, some, if◌then◌else◌,
  filter, map, length, take, decimal, is_some, is_none, ltb,
}
use owlzops_mapper.Scoring.Finding.{Finding, Category, Scanner, join}
use owlzops_mapper.Scoring.Rules.Push.{finding, push_if, non_empty, counted, or_else, is_some_and}
use owlzops_mapper.Report.{Facts, CronJob, CronSeverity}
use owlzops_mapper.Report.Process.{GhostPidFinding, SecretLeak}

unfoldable pub age_text : Option ℕ → Text
age_text none = codes "age?"
age_text (some a) = decimal a ++ codes "s"

unfoldable pub ghost_text : GhostPidFinding → Text
unfolding age_text
ghost_text g =
    codes "pid "
    ++ decimal g.pid
    ++ codes " (state "
    ++ or_else g.state (codes "?")
    ++ codes ", "
    ++ age_text g.age_secs
    ++ codes ", via "
    ++ g.confirmed_via
    ++ (if g.holds_socket then codes ", holds socket" else [])
    ++ codes ")"

unfoldable pub ghost_pids : Facts → List Finding
unfolding ghost_text
ghost_pids r =
    let hard = filter (λ g. g.confirmed_ioc) r.security.ghost_pids in
    let soft = filter (λ g. not g.confirmed_ioc) r.security.ghost_pids in
    push_if (non_empty hard) (
      finding "SEC-024" Scanner.security
        (codes "ACTIVE COMPROMISE: Hidden process (LKM rootkit) detected") Category.security 60
        (counted (length hard) (codes " PID(s) live but hidden from /proc listing: ")
          ++ join (map ghost_text hard) (codes "; "))
        none none)
    ++ push_if (non_empty soft) (
        finding "SEC-025" Scanner.security (codes "Suspicious transient PID visibility mismatch")
          Category.security 20
          (counted (length soft)
              (codes " PID(s) with a readdir/stat mismatch, downgraded (young or unconfirmable): ")
            ++ join (map ghost_text soft) (codes "; "))
          none none)

abbrev pub is_critical_job : CronJob → Bool
is_critical_job c = elim c.severity [
  | CronSeverity.critical ↦ true
  | CronSeverity.warning ↦ false
  | CronSeverity.ok ↦ false
]

unfoldable pub cron_jobs : Facts → List Finding
cron_jobs r =
    let jobs = filter is_critical_job r.host.cron_jobs in
    push_if (non_empty jobs) (
      finding "SEC-018" Scanner.host (codes "Suspicious cron job detected (possible persistence)")
        Category.security 20
        (counted (length jobs) (codes " suspicious cron job(s): ")
          ++ join (map (λ c. c.command) jobs) (codes "; "))
        none (some "CIS 5.1.8"))

abbrev pub dlp_short_lived_age_secs : ℕ
dlp_short_lived_age_secs = 300

unfoldable pub leak_text : SecretLeak → Text
leak_text l =
    codes "'"
    ++ l.matched_key
    ++ codes "' in "
    ++ l.source
    ++ codes " of "
    ++ l.process
    ++ codes " (pid "
    ++ decimal l.pid
    ++ codes ")"

-- The first three leaks, and how many more there are.
unfoldable pub leaks_text : List SecretLeak → Text
unfolding leak_text
leaks_text leaks =
    join (map leak_text (take 3 leaks)) (codes ", ")
    ++ (if ltb 3 (length leaks)
        then codes " and " ++ decimal (length leaks - 3) ++ codes " more..."
        else [])

abbrev pub is_short_lived : SecretLeak → Bool
is_short_lived l = is_some_and (λ a. ltb a dlp_short_lived_age_secs) l.age_secs

unfoldable pub secret_leaks : Facts → List Finding
unfolding leaks_text
secret_leaks r =
    let host_leaks = filter (λ l. is_none l.self_attributed) r.security.secret_hygiene in
    let short_lived = filter is_short_lived host_leaks in
    let long_lived = filter (λ l. not (is_short_lived l)) host_leaks in
    push_if (non_empty long_lived) (
      finding "SEC-014" Scanner.security (codes "Cleartext secrets exposed in process memory")
        Category.security 25
        (codes "Found "
          ++ counted (length long_lived) (codes " leak(s): ")
          ++ leaks_text long_lived)
        none none)
    ++ push_if (non_empty short_lived) (
        finding "SEC-059" Scanner.security
          (codes "Cleartext secrets in short-lived processes (informational)") Category.security 0
          (codes "Found "
            ++ counted (length short_lived) (codes " leak(s) in process(es) younger than 300s: ")
            ++ leaks_text short_lived)
          (some (
            codes "Short-lived process secrets are unlikely to be exploited; "
            ++ codes "surfacing for Raw Truth only."))
          none)

unfoldable pub self_leaks : Facts → List Finding
self_leaks r =
    let leaks = filter (λ l. is_some l.self_attributed) r.security.secret_hygiene in
    push_if (non_empty leaks) (
      finding "SEC-058" Scanner.security
        (codes "Scanner's own process carries a secret in its environment") Category.security 0
        (counted (length leaks) (codes " key(s) in owlzops-mapper's own environ/cmdline: ")
          ++ join (map (λ l. l.matched_key) leaks) (codes ", ")
          ++ codes ". The startup scrub (R27-13) only removes OWLZOPS_SUDO_PASS; "
          ++ codes "anything else was inherited from the invoking shell.")
        none none)
