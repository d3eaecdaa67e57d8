-- ===== src/Scoring/Verdict.antt =====
-- src/scoring.rs: `SecurityVerdict`, `CriticalFlags` and what of the findings decides them.
pub mod Laws
use owlzops_mapper.Common.{
  ℕ, String, Bool, ◌||◌, ◌&&◌, List, [], ◌∷◌, any, filter, length, leb, is_none, ◌==◌, string_eq,
  if◌then◌else◌,
}
use owlzops_mapper.Scoring.Finding.{Finding}

pub data SecurityVerdict : Type 0 where
  clean critical compromised : SecurityVerdict

unfoldable pub rank : SecurityVerdict → ℕ
rank clean = 0
rank critical = 1
rank compromised = 2

unfoldable pub worse : SecurityVerdict → SecurityVerdict → SecurityVerdict
unfolding rank
worse a b = if leb (rank b) (rank a) then a else b

abbrev pub sysctl_critical_threshold : ℕ
sysctl_critical_threshold = 3

unfoldable pub compromise_ids : List String
compromise_ids =
    "SEC-015" ∷ "SEC-016" ∷ "SEC-017" ∷ "SEC-019" ∷ "SEC-020" ∷ "SEC-021" ∷ "SEC-022" ∷ "SEC-023"
    ∷ "SEC-024" ∷ "SEC-028" ∷ "SEC-040" ∷ "DOCK-010" ∷ "SEC-042" ∷ "SEC-043" ∷ "SEC-052" ∷ "SEC-055"
    ∷ []

pub record CriticalFlags : Type 0 where
  pub firewall_disabled : Bool
  pub ssh_root_login : Bool
  pub security_updates : Bool
  pub critical_ssl : Bool
  pub failed_services : Bool
  pub no_backups : Bool
  pub sudo_nopasswd : Bool
  pub ntp_not_synced : Bool
  pub sysctl_issues_count : ℕ
  pub compromised_host : Bool

-- A finding that nothing suppresses.
abbrev pub is_live : Finding → Bool
is_live f = is_none f.suppressed

unfoldable pub live : List Finding → List Finding
live findings = filter is_live findings

-- The closure `has` of `from_findings`.
unfoldable pub has : List Finding → String → Bool
has findings id = any (λ (f : Finding). f.id == id && is_live f) findings

unfoldable pub from_findings : List Finding → CriticalFlags
from_findings findings = record {
  firewall_disabled = has findings "SEC-001";
  ssh_root_login = has findings "SEC-002";
  security_updates = has findings "SEC-003";
  critical_ssl = has findings "SEC-004";
  failed_services = has findings "REL-001";
  no_backups = has findings "REL-002";
  sudo_nopasswd = has findings "SEC-005" || has findings "SEC-012";
  ntp_not_synced = has findings "HYG-001";
  sysctl_issues_count = length (filter (λ (f : Finding). f.id == "SEC-007" && is_live f) findings);
  compromised_host = any (has findings) compromise_ids;
}

unfoldable pub has_critical : CriticalFlags → Bool
has_critical flags =
    flags.firewall_disabled
    || flags.ssh_root_login
    || flags.security_updates
    || flags.critical_ssl
    || flags.failed_services
    || flags.no_backups
    || flags.sudo_nopasswd
    || flags.ntp_not_synced
    || leb sysctl_critical_threshold flags.sysctl_issues_count

-- The choice at the end of `security_verdict_from_findings`.
unfoldable pub verdict_of : CriticalFlags → SecurityVerdict
unfolding has_critical
verdict_of flags =
    if flags.compromised_host then compromised else if has_critical flags then critical else clean

unfoldable pub security_verdict_from_findings : List Finding → SecurityVerdict
unfolding verdict_of from_findings live
security_verdict_from_findings findings = verdict_of (from_findings (live findings))
