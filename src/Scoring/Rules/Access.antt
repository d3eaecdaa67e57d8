-- ===== src/Scoring/Rules/Access.antt =====
-- src/scoring.rs, `evaluate`: firewall, ssh, updates, certificates, sudo and groups.
use owlzops_mapper.Common.{
  ℕ, ◌/◌, String, Text, codes, Bool, true, false, not, ◌&&◌, ◌||◌, List, [], ◌∷◌, ◌++◌, Option,
  none, some, if◌then◌else◌, ◌==◌, nat_eq, text_eq, any, filter, length, map, ltb, contains_text,
  starts_with, eq_ignore_ascii_case, split,
}
use owlzops_mapper.Scoring.Finding.{Finding, Category, Scanner, evidence_list, join}
use owlzops_mapper.Scoring.Rules.Push.{finding, push_if, non_empty, counted, or_else, octal}
use owlzops_mapper.Report.{Facts}

abbrev pub risk_no_firewall : ℕ
risk_no_firewall = 30

abbrev pub risk_ssh_root_login : ℕ
risk_ssh_root_login = 25

abbrev pub risk_security_updates : ℕ
risk_security_updates = 20

abbrev pub risk_critical_ssl_max : ℕ
risk_critical_ssl_max = 15

abbrev pub risk_ssh_password_auth : ℕ
risk_ssh_password_auth = 10

abbrev pub risk_sudoers_mode : ℕ
risk_sudoers_mode = 5

abbrev pub risk_sysctl_per_issue : ℕ
risk_sysctl_per_issue = 5

abbrev pub risk_passwordless_root : ℕ
risk_passwordless_root = 15

abbrev pub sudo_all_marker : Text
sudo_all_marker = codes "[GRANTS:ALL]"

abbrev pub sudo_privesc_marker : Text
sudo_privesc_marker = codes "[PRIVESC:"

unfoldable pub firewall_inactive : Facts → List Finding
firewall_inactive r = push_if (not r.network.firewall_active) (
    finding "SEC-001" Scanner.network (codes "Firewall inactive") Category.security risk_no_firewall
      (codes "No active firewall (ufw/firewalld/nftables/iptables)") none (some "CIS 3.5.1.1"))

unfoldable pub ssh_root_login : Facts → List Finding
unfolding eq_ignore_ascii_case
ssh_root_login r =
    let detail = or_else r.security.ssh_permit_root_login_detail [] in
    push_if r.security.ssh_root_login_enabled (
      finding "SEC-002" Scanner.security (codes "SSH root login allowed") Category.security
        (if eq_ignore_ascii_case detail (codes "prohibit-password")
          then risk_ssh_root_login / 2
          else risk_ssh_root_login)
        (codes "PermitRootLogin " ++ detail) none (some "CIS 5.2.10"))

unfoldable pub security_updates : Facts → List Finding
security_updates r =
    let count = length (filter (λ p. p.is_security) r.packages.upgradable) in
    push_if (any (λ p. p.is_security) r.packages.upgradable) (
      finding "SEC-003" Scanner.packages (codes "Pending security updates") Category.security
        (if ltb 20 count then risk_security_updates else if ltb 5 count then 15 else 10)
        (counted count (codes " security update(s) available")) none (some "CIS 1.9"))

unfoldable pub certificate_expiring : Facts → List Finding
certificate_expiring r = push_if (any (λ c. c.is_critical) r.network.ssl_certificates) (
    finding "SEC-004" Scanner.network (codes "SSL certificate expiring") Category.security
      risk_critical_ssl_max (codes "One or more SSL certificates expire within 7 days") none none)

-- The carriers of the passwordless-root class.
unfoldable pub prp_sec012 : Facts → Bool
prp_sec012 r = non_empty r.security.access_alignment.sudoers_nopasswd_all

unfoldable pub is_root_path : Text → Bool
unfolding contains_text
is_root_path entry = contains_text entry sudo_all_marker || contains_text entry sudo_privesc_marker

unfoldable pub prp_sec005 : Facts → Bool
prp_sec005 r = any is_root_path r.security.sudo_nopasswd_entries

unfoldable pub nopasswd_weight : Bool → Bool → Bool → ℕ × Option Text
nopasswd_weight false _ _ = (5, none)
nopasswd_weight true false _ = (risk_passwordless_root, none)
nopasswd_weight true true true = (5, none)
nopasswd_weight true true false = (
  0,
  some (
      codes "Every NOPASSWD entry is a passwordless-root path already weighted "
      ++ codes "by SEC-012 for the same sudoers input (R34-01)."),
)

unfoldable pub sudo_nopasswd : Facts → List Finding
unfolding prp_sec005 prp_sec012 is_root_path nopasswd_weight
sudo_nopasswd r =
    let entries = r.security.sudo_nopasswd_entries in
    let tier =
      nopasswd_weight (prp_sec005 r) (prp_sec012 r) (any (λ e. not (is_root_path e)) entries) in
    push_if (non_empty entries) (
      finding "SEC-005" Scanner.security (codes "Sudo NOPASSWD entries found") Category.security
        tier.0 (counted (length entries) (codes " NOPASSWD entries in sudoers")) tier.1
        (some "CIS 5.4.2"))

unfoldable pub sudoers_mode_of : Option ℕ → List Finding
unfolding octal
sudoers_mode_of none = []
sudoers_mode_of (some mode) = push_if (not (mode == 288)) (
    finding "SEC-006" Scanner.security (codes "Sudoers permissions not 0440") Category.security
      risk_sudoers_mode (codes "sudoers mode is " ++ octal mode) none (some "CIS 1.8.2"))

unfoldable pub sudoers_mode : Facts → List Finding
unfolding sudoers_mode_of
sudoers_mode r = sudoers_mode_of r.security.sudoers_mode

unfoldable pub sysctl_cis : Text → Option String
sysctl_cis title =
    if title == codes "kernel.randomize_va_space"
    then some "CIS 1.6.2"
    else if title == codes "net.ipv4.tcp_syncookies"
    then some "CIS 3.3.8"
    else if title == codes "kernel.dmesg_restrict"
    then some "CIS 1.6.2"
    else if title == codes "net.ipv4.conf.all.accept_redirects"
    then some "CIS 3.3.2"
    else none

-- `issue.split('=').next().unwrap_or("sysctl issue")`
unfoldable pub sysctl_title : Text → Text
unfolding split
sysctl_title issue = elim (split (λ c. c == b'=') issue) [ [] ↦ codes "sysctl issue" | t ∷ _ ↦ t ]

unfoldable pub sysctl_issue : Facts → Text → Finding
unfolding starts_with sysctl_title sysctl_cis
sysctl_issue r issue =
    if starts_with issue (codes "net.ipv4.ip_forward=")
    then finding "SEC-007" Scanner.security (codes "IP forwarding enabled") Category.security
        risk_sysctl_per_issue issue
        (if r.topology.runtime_active || any (λ s. s == codes "kubelet") r.host.native_services
          then some (codes "expected on Docker/kubelet host")
          else none)
        (some "CIS 3.3.1")
    else finding "SEC-007" Scanner.security (sysctl_title issue) Category.security
        risk_sysctl_per_issue issue none (sysctl_cis (sysctl_title issue))

unfoldable pub sysctl_issues : Facts → List Finding
unfolding sysctl_issue
sysctl_issues r = map (sysctl_issue r) r.security.sysctl_issues

unfoldable pub ssh_password_auth : Facts → List Finding
ssh_password_auth r = push_if r.security.ssh_password_auth_enabled (
    finding "SEC-008" Scanner.security (codes "SSH password authentication enabled")
      Category.security risk_ssh_password_auth (codes "PasswordAuthentication yes") none
      (some "CIS 5.2.4"))

unfoldable pub root_with_password : Facts → List Finding
root_with_password r =
    push_if (r.security.ssh_password_auth_enabled && r.security.ssh_root_login_enabled) (
      finding "SEC-009" Scanner.security (codes "Root login with password allowed")
        Category.security 5 (codes "PermitRootLogin enabled AND PasswordAuthentication yes") none
        (some "CIS 5.2.10/5.2.4"))

unfoldable pub noncompliant_keys : Facts → List Finding
noncompliant_keys r =
    let count = length (filter (λ k. not k.compliant) r.security.access_alignment.keys) in
    push_if (ltb 0 count) (
      finding "SEC-011" Scanner.security (codes "SSH keys violate key-strength policy")
        Category.security 10
        (counted count (codes " authorized key(s) below policy (e.g. RSA<3072, DSA, ECDSA)")) none
        (some "CIS 5.2"))

unfoldable pub passwordless_all : Facts → List Finding
unfolding prp_sec012
passwordless_all r = push_if (prp_sec012 r) (
    finding "SEC-012" Scanner.security (codes "Passwordless sudo to ALL commands") Category.security
      risk_passwordless_root
      (counted (length r.security.access_alignment.sudoers_nopasswd_all)
        (codes " principal(s) with NOPASSWD: ALL"))
      none (some "CIS 5.3"))

unfoldable pub carrier : Facts → Option Text
unfolding prp_sec012 prp_sec005
carrier r =
    if prp_sec012 r
    then some (codes "SEC-012")
    else if prp_sec005 r
    then some (codes "SEC-005")
    else none

unfoldable pub group_weight : Option Text → ℕ × Option Text
group_weight none = (risk_passwordless_root, none)
group_weight (some id) = (
  0,
  some (
      codes "Passwordless-root class already weighted by "
      ++ id
      ++ codes " on this host (R34-01); members listed for review, additions tracked as drift."),
)

unfoldable pub escalations : Facts → List Text
escalations r =
    map (λ g. g.group ++ codes ": " ++ join g.members (codes ", "))
      (filter (λ g. g.bypasses_sudo) r.security.access_alignment.root_equivalent_groups)

unfoldable pub root_groups : Facts → List Finding
unfolding escalations carrier group_weight evidence_list
root_groups r = push_if (non_empty (escalations r)) (
    finding "SEC-061" Scanner.security
      (codes "Passwordless root via group membership (bypasses sudo auth)") Category.security
      (group_weight (carrier r)).0
      (evidence_list (escalations r) 6
        ++ codes " — members get root through the group's socket/device without "
        ++ codes "sudo authentication")
      (group_weight (carrier r)).1 none)
