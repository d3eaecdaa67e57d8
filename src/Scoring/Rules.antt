-- ===== src/Scoring/Rules.antt =====
-- src/scoring.rs, `evaluate`: the rules that turn a report into findings, in their order, and what
-- is left of them where scanners failed. `Host` answers what the rules ask of the running host,
-- `file_name` is `Path::file_name`, and `bucket_order` the order of a HashMap.
pub mod Push
pub mod Plain
pub mod Weights
pub mod Class
pub mod Failed
pub mod Access
pub mod Sshd
pub mod Listeners
pub mod Processes
pub mod Memory
pub mod Files
pub mod Kernel
pub mod Persistence
pub mod Pam
pub mod Units
pub mod Ghosts
pub mod Capabilities
pub mod Containers
pub mod Hygiene
pub mod Reliability
use owlzops_mapper.Common.{Text, codes, not, List, [], ◌∷◌, ◌++◌, none, filter, map}
use owlzops_mapper.Utils.Provenance.{Host}
use owlzops_mapper.Scoring.Finding.{Finding, Category, Scanner, finding_from_failed_scanner}
use owlzops_mapper.Report.{Facts, AgentReport}
use owlzops_mapper.Scoring.Rules.Push.{finding, concat}
use owlzops_mapper.Scoring.Rules.Access.{
  firewall_inactive, ssh_root_login, security_updates, certificate_expiring, sudo_nopasswd,
  sudoers_mode, sysctl_issues, ssh_password_auth, root_with_password, noncompliant_keys,
  passwordless_all, root_groups,
}
use owlzops_mapper.Scoring.Rules.Sshd.{sshd_directives, environment_keys}
use owlzops_mapper.Scoring.Rules.Listeners.{listeners, reachable_implants}
use owlzops_mapper.Scoring.Rules.Processes.{
  known_malware_running, fileless, fileless_self, fileless_privileged, mimics, mount_masking,
  reverse_shells,
}
use owlzops_mapper.Scoring.Rules.Memory.{
  regions, classic_injections, unattributed_payloads, memory_anomalies, provisional_regions,
  unlink_ghosts, jit_advisories,
}
use owlzops_mapper.Scoring.Rules.Files.{file_capabilities, setuid_files, ebpf_objects}
use owlzops_mapper.Scoring.Rules.Kernel.{
  kernel_taint, cpu_mitigations, confinement, hidden_modules, ftrace_hooks, core_pattern, lockdown,
}
use owlzops_mapper.Scoring.Rules.Persistence.{preload_injections, ld_so_conf, generators}
use owlzops_mapper.Scoring.Rules.Pam.{pam_injections}
use owlzops_mapper.Scoring.Rules.Units.{
  live_rogue, live_vendor, dormant, weak_targets, unpackaged_targets,
}
use owlzops_mapper.Scoring.Rules.Ghosts.{ghost_pids, cron_jobs, secret_leaks, self_leaks}
use owlzops_mapper.Scoring.Rules.Capabilities.{critical_capabilities, ambient_capabilities}
use owlzops_mapper.Scoring.Rules.Containers.{
  container_limits, runtime_tampering, firewall_bypass, sensitive_mounts, container_health,
}
use owlzops_mapper.Scoring.Rules.Hygiene.{account_hygiene, systemd_hardening}
use owlzops_mapper.Scoring.Rules.Reliability.{host_reliability, ntp}

-- The finding that says that a scanner panicked.
unfoldable pub scanner_panicked : Text → Finding
scanner_panicked scanner =
    finding "COV-001" Scanner.orchestrator (codes "Scanner panicked; verdict incomplete")
      Category.hygiene 0
      (codes "scanner `"
        ++ scanner
        ++ codes "` panicked; findings derived from it were withheld — "
        ++ codes "this host's verdict is INCOMPLETE, not clean")
      none none

module _ (host : Host) (file_name : Text → Text) (bucket_order : List Text → List Text) where
  unfoldable pub host_findings : Facts → List (List Finding)
  host_findings r =
      firewall_inactive r
      ∷ ssh_root_login r
      ∷ security_updates r
      ∷ certificate_expiring r
      ∷ sudo_nopasswd r
      ∷ sudoers_mode r
      ∷ sysctl_issues r
      ∷ ssh_password_auth r
      ∷ root_with_password r
      ∷ noncompliant_keys r
      ∷ passwordless_all r
      ∷ root_groups r
      ∷ sshd_directives r
      ∷ environment_keys r
      ∷ listeners host r
      ∷ reachable_implants r
      ∷ known_malware_running r
      ∷ fileless r
      ∷ fileless_self r
      ∷ fileless_privileged r
      ∷ mimics r
      ∷ mount_masking r
      ∷ reverse_shells r
      ∷ classic_injections (regions host r)
      ∷ unattributed_payloads (regions host r)
      ∷ memory_anomalies bucket_order (regions host r)
      ∷ provisional_regions bucket_order (regions host r)
      ∷ unlink_ghosts (regions host r)
      ∷ file_capabilities file_name r
      ∷ setuid_files r
      ∷ ebpf_objects r
      ∷ kernel_taint r
      ∷ cpu_mitigations r
      ∷ confinement r
      ∷ hidden_modules r
      ∷ ftrace_hooks r
      ∷ preload_injections r
      ∷ ld_so_conf r
      ∷ generators r
      ∷ pam_injections r
      ∷ live_rogue r
      ∷ live_vendor r
      ∷ dormant r
      ∷ weak_targets r
      ∷ unpackaged_targets r
      ∷ core_pattern r
      ∷ lockdown r
      ∷ jit_advisories bucket_order (regions host r)
      ∷ ghost_pids r
      ∷ cron_jobs r
      ∷ secret_leaks r
      ∷ self_leaks r
      ∷ critical_capabilities r
      ∷ ambient_capabilities r
      ∷ container_limits r
      ∷ runtime_tampering r
      ∷ firewall_bypass r
      ∷ account_hygiene r
      ∷ systemd_hardening r
      ∷ sensitive_mounts r
      ∷ container_health r
      ∷ host_reliability r
      ∷ ntp r
      ∷ []

  unfoldable pub evaluate : AgentReport Facts → List Finding
  unfolding host_findings scanner_panicked
  evaluate report =
      filter (λ f. not (finding_from_failed_scanner f report.failed_scanners))
        (concat (host_findings report.facts))
      ++ map scanner_panicked report.failed_scanners
