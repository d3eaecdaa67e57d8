-- ===== src/Examples/Rules.antt =====
-- src/scoring.rs, `evaluate`, at a small report.
use owlzops_mapper.Common.{
  ℕ, List, String, ℕ, ◌≤◌, Text, Bool, true, false, List, [], ◌∷◌, ◌++◌, Option, none, some, codes,
  ◌≡◌, refl, All, map, if◌then◌else◌, ◌||◌,
}
use owlzops_mapper.Utils.Provenance.{Host}
use owlzops_mapper.Report.{Facts, AgentReport, SecurityInfo}
use owlzops_mapper.Report.Process.{SuspiciousProcess}
use owlzops_mapper.Report.Files.{dpkg}
use owlzops_mapper.Scoring.Finding.{Finding, finding_from_failed_scanner}
use owlzops_mapper.Scoring.Verdict.{compromised, security_verdict_from_findings}
use owlzops_mapper.Scoring.Score.{score}
use owlzops_mapper.Scoring.Rules.{host_findings, evaluate, scanner_panicked}
use owlzops_mapper.Scoring.Rules.Push.{concat, non_empty}
use owlzops_mapper.Scoring.Rules.Access.{prp_sec005, prp_sec012, escalations}
use owlzops_mapper.Scoring.Rules.Weights.{IsWeighed, evaluate-IsWeighed, evaluate-compromised_score}
use owlzops_mapper.Scoring.Rules.Class.{carriers, host_findings-carriers}
use owlzops_mapper.Scoring.Rules.Failed.{panics, evaluate-failed}

abbrev plain_host : Host
plain_host = record {
  ancestors = λ p. [];
  count_entries = λ p. none;
  in_foreign_mnt_ns = λ pid. false;
  exe_uid = λ pid. none;
}

abbrev quiet : SecurityInfo
quiet = record {
  ssh_password_auth_enabled = false;
  ssh_root_login_enabled = false;
  ssh_permit_root_login_detail = none;
  sudo_nopasswd_entries = [];
  sudoers_mode = some 288;
  sysctl_issues = [];
  access_alignment = record { keys = []; sudoers_nopasswd_all = []; root_equivalent_groups = [] };
  secret_hygiene = [];
  capability_audit = [];
  suspicious_processes = [];
  mount_masking = [];
  reverse_shells = [];
  library_injections = [];
  ghost_pids = [];
  file_capabilities = [];
  ebpf_inventory = record { programs = []; maps = []; pins = []; links = [] };
  setuid_files = [];
  provenance_source = dpkg;
  kernel_taint = record { raw = 0; flags = [] };
  confinement = record { selinux_permissive = false; complain_profiles = [] };
  kernel_modules = record { hidden_candidates = [] };
  ftrace_hooks = record {
    unattributed_syscall_hooks = [];
    live_tracer_active = false;
    attribution_degraded = false;
  };
  preload_injections = [];
  core_pattern = none;
  lockdown = none;
  exec_start_injections = [];
  ld_so_conf_injections = [];
  generators = [];
  pam_injections = [];
  cpu_vulnerabilities = [];
  sshd_sensitive_directives = [];
  firewall_bypass_findings = [];
  account_hygiene = record {
    weak_password_hashes = [];
    empty_password_users = [];
    duplicate_uid_zero = [];
    system_accounts_with_shell = [];
    file_permission_issues = [];
    ssh_private_key_readable = [];
    authorized_keys_writable = [];
    root_dotfiles_readable = [];
  };
  systemd_hardening = [];
}

-- A process that takes the name of a kernel thread, and sudo for a group and for a principal.
abbrev mimic : SuspiciousProcess
mimic = record {
  pid = 4242;
  name = codes "kworker/0:1";
  exe_path = some (codes "/var/tmp/x");
  is_deleted = false;
  euid = 1000;
  is_mimic = true;
  self_attributed = none;
}

abbrev infected : Facts
infected = record {
  host = record {
    oom_kills = 0;
    native_services = [];
    cron_jobs = [];
    failed_services = [];
    backup_tools = codes "restic" ∷ [];
    ntp_synchronized = true;
  };
  network = record { firewall_active = false; ssl_certificates = []; listening_ports = [] };
  topology = record { runtime_active = false; runtime_name = []; containers = [] };
  security = record quiet {
    suspicious_processes = mimic ∷ [];
    sudo_nopasswd_entries = codes "bob ALL=(ALL) NOPASSWD: ALL [GRANTS:ALL]" ∷ [];
    access_alignment = record {
      keys = [];
      sudoers_nopasswd_all = record { principal = codes "bob" } ∷ [];
      root_equivalent_groups =
          record { group = codes "docker"; members = codes "bob" ∷ []; bypasses_sudo = true } ∷ [];
    };
  };
  packages = record { upgradable = [] };
}

abbrev report : AgentReport Facts
report = record {
  hostname = codes "web-1";
  input_address = none;
  failed_scanners = codes "network" ∷ [];
  is_root_execution = true;
  scan_warnings = [];
  facts = infected;
}

abbrev id_and_weight : Finding → String × ℕ
id_and_weight f = (f.id, f.weight)

-- The finding on the firewall is withheld, since its scanner panicked.
evaluate_test :
    (map id_and_weight (evaluate plain_host (λ p. p) (λ ts. ts) report)
      ≡ ("SEC-005", 0) ∷ ("SEC-012", 15) ∷ ("SEC-061", 0) ∷ ("SEC-020", 60) ∷ ("COV-001", 0) ∷ [])
    × (security_verdict_from_findings (evaluate plain_host (λ p. p) (λ ts. ts) report)
        ≡ compromised)
unfolding owlzops_mapper.Scoring.Rules.Persistence.mapped
    owlzops_mapper.Scoring.Rules.Persistence.active_preloads
    owlzops_mapper.Scoring.Rules.Persistence.preload_injections
    owlzops_mapper.Scoring.Rules.Persistence.ld_so_text
    owlzops_mapper.Scoring.Rules.Persistence.ld_so_conf
    owlzops_mapper.Scoring.Rules.Persistence.is_volatile_escape
    owlzops_mapper.Scoring.Rules.Persistence.classify_generator
    owlzops_mapper.Scoring.Rules.Persistence.describe_generator
    owlzops_mapper.Scoring.Rules.Persistence.generator_verdict
    owlzops_mapper.Scoring.Rules.Persistence.generators_with
    owlzops_mapper.Scoring.Rules.Persistence.generators owlzops_mapper.Scoring.Rules.Units.sel
    owlzops_mapper.Scoring.Rules.Units.live_rogue owlzops_mapper.Scoring.Rules.Units.live_vendor
    owlzops_mapper.Scoring.Rules.Units.dormant owlzops_mapper.Scoring.Rules.Units.weak_targets
    owlzops_mapper.Scoring.Rules.Units.unpackaged_targets
    owlzops_mapper.Scoring.Rules.Access.firewall_inactive
    owlzops_mapper.Scoring.Rules.Access.ssh_root_login
    owlzops_mapper.Scoring.Rules.Access.security_updates
    owlzops_mapper.Scoring.Rules.Access.certificate_expiring
    owlzops_mapper.Scoring.Rules.Access.prp_sec012 owlzops_mapper.Scoring.Rules.Access.is_root_path
    owlzops_mapper.Scoring.Rules.Access.prp_sec005
    owlzops_mapper.Scoring.Rules.Access.nopasswd_weight
    owlzops_mapper.Scoring.Rules.Access.sudo_nopasswd
    owlzops_mapper.Scoring.Rules.Access.sudoers_mode_of
    owlzops_mapper.Scoring.Rules.Access.sudoers_mode owlzops_mapper.Scoring.Rules.Access.sysctl_cis
    owlzops_mapper.Scoring.Rules.Access.sysctl_title
    owlzops_mapper.Scoring.Rules.Access.sysctl_issue
    owlzops_mapper.Scoring.Rules.Access.sysctl_issues
    owlzops_mapper.Scoring.Rules.Access.ssh_password_auth
    owlzops_mapper.Scoring.Rules.Access.root_with_password
    owlzops_mapper.Scoring.Rules.Access.noncompliant_keys
    owlzops_mapper.Scoring.Rules.Access.passwordless_all owlzops_mapper.Scoring.Rules.Access.carrier
    owlzops_mapper.Scoring.Rules.Access.group_weight owlzops_mapper.Scoring.Rules.Access.escalations
    owlzops_mapper.Scoring.Rules.Access.root_groups
    owlzops_mapper.Scoring.Rules.Reliability.host_reliability
    owlzops_mapper.Scoring.Rules.Reliability.ntp owlzops_mapper.Scoring.Rules.Ghosts.age_text
    owlzops_mapper.Scoring.Rules.Ghosts.ghost_text owlzops_mapper.Scoring.Rules.Ghosts.ghost_pids
    owlzops_mapper.Scoring.Rules.Ghosts.cron_jobs owlzops_mapper.Scoring.Rules.Ghosts.leak_text
    owlzops_mapper.Scoring.Rules.Ghosts.leaks_text owlzops_mapper.Scoring.Rules.Ghosts.secret_leaks
    owlzops_mapper.Scoring.Rules.Ghosts.self_leaks
    owlzops_mapper.Scoring.Rules.Capabilities.cap_names
    owlzops_mapper.Scoring.Rules.Capabilities.moby_default_caps
    owlzops_mapper.Scoring.Rules.Capabilities.container_escape_caps
    owlzops_mapper.Scoring.Rules.Capabilities.without_cap
    owlzops_mapper.Scoring.Rules.Capabilities.position_from
    owlzops_mapper.Scoring.Rules.Capabilities.cap_name_to_bit
    owlzops_mapper.Scoring.Rules.Capabilities.cap_add_from
    owlzops_mapper.Scoring.Rules.Capabilities.cap_add_to_mask
    owlzops_mapper.Scoring.Rules.Capabilities.undeclared_escape_caps
    owlzops_mapper.Scoring.Rules.Capabilities.is_on_net
    owlzops_mapper.Scoring.Rules.Capabilities.is_exposed
    owlzops_mapper.Scoring.Rules.Capabilities.critical_capabilities
    owlzops_mapper.Scoring.Rules.Capabilities.ambient_text
    owlzops_mapper.Scoring.Rules.Capabilities.escalating_ambient
    owlzops_mapper.Scoring.Rules.Capabilities.harmless_ambient
    owlzops_mapper.Scoring.Rules.Capabilities.ambient_capabilities
    owlzops_mapper.Scoring.Rules.Plain.is_proper owlzops_mapper.Scoring.Rules.Plain.is_plain
    owlzops_mapper.Scoring.Rules.Pam.services_text owlzops_mapper.Scoring.Rules.Pam.pam_text
    owlzops_mapper.Scoring.Rules.Pam.classify_pam owlzops_mapper.Scoring.Rules.Pam.pam_with
    owlzops_mapper.Scoring.Rules.Pam.pam_injections
    owlzops_mapper.Scoring.Rules.Files.expected_capabilities
    owlzops_mapper.Scoring.Rules.Files.unexpected_capabilities
    owlzops_mapper.Scoring.Rules.Files.file_capabilities
    owlzops_mapper.Scoring.Rules.Files.expected_setuid
    owlzops_mapper.Scoring.Rules.Files.unexpected_setuid
    owlzops_mapper.Scoring.Rules.Files.setuid_files owlzops_mapper.Scoring.Rules.Files.ebpf_objects
    owlzops_mapper.Scoring.Rules.Kernel.has_taint owlzops_mapper.Scoring.Rules.Kernel.hidden_module
    owlzops_mapper.Scoring.Rules.Kernel.flags_text
    owlzops_mapper.Scoring.Rules.Kernel.taint_tampering
    owlzops_mapper.Scoring.Rules.Kernel.kernel_taint
    owlzops_mapper.Scoring.Rules.Kernel.cpu_mitigations
    owlzops_mapper.Scoring.Rules.Kernel.confinement
    owlzops_mapper.Scoring.Rules.Kernel.hidden_modules
    owlzops_mapper.Scoring.Rules.Kernel.describe_hooks
    owlzops_mapper.Scoring.Rules.Kernel.is_correlated
    owlzops_mapper.Scoring.Rules.Kernel.is_module_backed
    owlzops_mapper.Scoring.Rules.Kernel.unattributed_hooks
    owlzops_mapper.Scoring.Rules.Kernel.ftrace_hooks
    owlzops_mapper.Scoring.Rules.Kernel.core_pattern_of
    owlzops_mapper.Scoring.Rules.Kernel.core_pattern owlzops_mapper.Scoring.Rules.Kernel.lockdown_of
    owlzops_mapper.Scoring.Rules.Kernel.lockdown owlzops_mapper.Scoring.Rules.Processes.known_text
    owlzops_mapper.Scoring.Rules.Processes.known_malware_running
    owlzops_mapper.Scoring.Rules.Processes.deleted
    owlzops_mapper.Scoring.Rules.Processes.deleted_from
    owlzops_mapper.Scoring.Rules.Processes.fileless owlzops_mapper.Scoring.Rules.Processes.self_text
    owlzops_mapper.Scoring.Rules.Processes.fileless_self
    owlzops_mapper.Scoring.Rules.Processes.privileged_text
    owlzops_mapper.Scoring.Rules.Processes.privileged_texts
    owlzops_mapper.Scoring.Rules.Processes.fileless_privileged
    owlzops_mapper.Scoring.Rules.Processes.mimic_text owlzops_mapper.Scoring.Rules.Processes.mimics
    owlzops_mapper.Scoring.Rules.Processes.mount_masking
    owlzops_mapper.Scoring.Rules.Processes.fd_text owlzops_mapper.Scoring.Rules.Processes.shell_text
    owlzops_mapper.Scoring.Rules.Processes.reverse_shells
    owlzops_mapper.Scoring.Rules.Containers.security_issues
    owlzops_mapper.Scoring.Rules.Containers.has_issue
    owlzops_mapper.Scoring.Rules.Containers.container_limits
    owlzops_mapper.Scoring.Rules.Containers.tampered_text
    owlzops_mapper.Scoring.Rules.Containers.tampered_texts
    owlzops_mapper.Scoring.Rules.Containers.runtime_tampering
    owlzops_mapper.Scoring.Rules.Containers.bypass_text
    owlzops_mapper.Scoring.Rules.Containers.bypassed_ports
    owlzops_mapper.Scoring.Rules.Containers.exposed_ports
    owlzops_mapper.Scoring.Rules.Containers.firewall_bypass
    owlzops_mapper.Scoring.Rules.Containers.sensitive_mounts
    owlzops_mapper.Scoring.Rules.Containers.text_leb
    owlzops_mapper.Scoring.Rules.Containers.insert_sorted
    owlzops_mapper.Scoring.Rules.Containers.sort_names
    owlzops_mapper.Scoring.Rules.Containers.names_with
    owlzops_mapper.Scoring.Rules.Containers.container_health
    owlzops_mapper.Scoring.Rules.Listeners.listener_tiers
    owlzops_mapper.Scoring.Rules.Listeners.listeners
    owlzops_mapper.Scoring.Rules.Listeners.critical_holder
    owlzops_mapper.Scoring.Rules.Listeners.implant owlzops_mapper.Scoring.Rules.Listeners.implants
    owlzops_mapper.Scoring.Rules.Listeners.reachable_implants
    owlzops_mapper.Scoring.Rules.Memory.push_region owlzops_mapper.Scoring.Rules.Memory.sort_regions
    owlzops_mapper.Scoring.Rules.Memory.regions
    owlzops_mapper.Scoring.Rules.Memory.classic_injections
    owlzops_mapper.Scoring.Rules.Memory.payload_figures
    owlzops_mapper.Scoring.Rules.Memory.payload_text
    owlzops_mapper.Scoring.Rules.Memory.unattributed_payloads
    owlzops_mapper.Scoring.Rules.Memory.first_regions
    owlzops_mapper.Scoring.Rules.Memory.region_counts
    owlzops_mapper.Scoring.Rules.Memory.count_texts
    owlzops_mapper.Scoring.Rules.Memory.memory_anomalies
    owlzops_mapper.Scoring.Rules.Memory.provisional_regions
    owlzops_mapper.Scoring.Rules.Memory.jit_advisories
    owlzops_mapper.Scoring.Rules.Memory.unlink_ghosts
    owlzops_mapper.Scoring.Rules.Sshd.is_replaceable
    owlzops_mapper.Scoring.Rules.Sshd.sshd_directives
    owlzops_mapper.Scoring.Rules.Sshd.permit_user_environment
    owlzops_mapper.Scoring.Rules.Sshd.environment_keys
    owlzops_mapper.Scoring.Rules.Hygiene.is_weakest_hash
    owlzops_mapper.Scoring.Rules.Hygiene.weak_hashes owlzops_mapper.Scoring.Rules.Hygiene.accounts
    owlzops_mapper.Scoring.Rules.Hygiene.issue_text
    owlzops_mapper.Scoring.Rules.Hygiene.is_sudoers_d
    owlzops_mapper.Scoring.Rules.Hygiene.credential_files
    owlzops_mapper.Scoring.Rules.Hygiene.key_text owlzops_mapper.Scoring.Rules.Hygiene.key_files
    owlzops_mapper.Scoring.Rules.Hygiene.account_hygiene
    owlzops_mapper.Scoring.Rules.Hygiene.systemd_hardening_of
    owlzops_mapper.Scoring.Rules.Hygiene.systemd_hardening
    owlzops_mapper.Scoring.Rules.Memory.Bucket.classify
    owlzops_mapper.Scoring.Rules.Memory.Bucket.is_trumping_malice
    owlzops_mapper.Scoring.Rules.Memory.Bucket.is_benign_shape
    owlzops_mapper.Scoring.Rules.Memory.Bucket.reputable_exe
    owlzops_mapper.Scoring.Rules.Memory.Bucket.known_runtime_comms
    owlzops_mapper.Scoring.Rules.Memory.Bucket.comm_asserts_runtime
    owlzops_mapper.Scoring.Rules.Memory.Bucket.process_behavior_clean
    owlzops_mapper.Scoring.Rules.Memory.Bucket.origin_bucket
    owlzops_mapper.Scoring.Rules.Memory.Bucket.ghost_bucket
    owlzops_mapper.Scoring.Rules.Memory.Bucket.source_bucket
    owlzops_mapper.Scoring.Rules.Memory.Bucket.mem_bucket
    owlzops_mapper.Scoring.Rules.Memory.Bucket.hex_digits
    owlzops_mapper.Scoring.Rules.Memory.Bucket.from_str_radix_16
    owlzops_mapper.Scoring.Rules.Memory.Bucket.is_one_page
    owlzops_mapper.Scoring.Rules.Memory.Bucket.is_trampoline_page
    owlzops_mapper.Scoring.Rules.scanner_panicked owlzops_mapper.Scoring.Rules.host_findings
    owlzops_mapper.Scoring.Rules.evaluate owlzops_mapper.Scoring.Finding.discrete_scanner
    owlzops_mapper.Scoring.Finding.from_name
    owlzops_mapper.Scoring.Finding.finding_from_failed_scanner
    owlzops_mapper.Scoring.Finding.evidence_list
    owlzops_mapper.Scoring.Classify.unit_is_vendor_shipped owlzops_mapper.Scoring.Classify.last_of
    owlzops_mapper.Scoring.Classify.basename_of owlzops_mapper.Scoring.Classify.known_handlers
    owlzops_mapper.Scoring.Classify.first_word
    owlzops_mapper.Scoring.Classify.core_pattern_is_trusted
    owlzops_mapper.Scoring.Classify.benign_caps owlzops_mapper.Scoring.Classify.dangerous_from
    owlzops_mapper.Scoring.Classify.ambient_escalation_weight
    owlzops_mapper.Scoring.Classify.is_unattributable
    owlzops_mapper.Scoring.Classify.known_cap_binaries owlzops_mapper.Scoring.Classify.bare
    owlzops_mapper.Scoring.Classify.known_binary owlzops_mapper.Scoring.Classify.classify_cap_binary
    owlzops_mapper.Scoring.Classify.setuid_system_dirs owlzops_mapper.Scoring.Classify.setuid_weight
    owlzops_mapper.Scoring.Classify.classify_setuid owlzops_mapper.Utils.Provenance.system_bin
    owlzops_mapper.Utils.Provenance.system_roots
    owlzops_mapper.Utils.Provenance.is_system_managed_path
    owlzops_mapper.Utils.Provenance.runtime_manager_roots
    owlzops_mapper.Utils.Provenance.contains_any
    owlzops_mapper.Utils.Provenance.is_standard_install_path
    owlzops_mapper.Utils.Provenance.populated_below
    owlzops_mapper.Utils.Provenance.populated_tree_within
    owlzops_mapper.Utils.Provenance.exe_provenance owlzops_mapper.Utils.Provenance.label
    owlzops_mapper.Utils.Provenance.port_provenance owlzops_mapper.Utils.Provenance.tier_of
    owlzops_mapper.Utils.Provenance.port_tier owlzops_mapper.Utils.Provenance.push_tier
    owlzops_mapper.Utils.Provenance.classify_port owlzops_mapper.Utils.Provenance.classify_from
    owlzops_mapper.Utils.Provenance.classify_listeners owlzops_mapper.Common.text_beq
    mathlib.Core.Bool.decide owlzops_mapper.Common.contains_text owlzops_mapper.Common.starts_with
    owlzops_mapper.Common.strip_prefix owlzops_mapper.Common.eq_ignore_ascii_case
    owlzops_mapper.Utils.Paths.is_known_malware owlzops_mapper.Utils.Paths.is_ambiguous_malware
    owlzops_mapper.Utils.Paths.known_malware owlzops_mapper.Utils.Paths.ambiguous_malware
    security_verdict_from_findings owlzops_mapper.Scoring.Verdict.compromise_ids
    owlzops_mapper.Scoring.Verdict.has owlzops_mapper.Scoring.Verdict.from_findings
    owlzops_mapper.Scoring.Verdict.verdict_of
evaluate_test = (refl, refl)

evaluate-IsWeighed_example : All IsWeighed (evaluate plain_host (λ p. p) (λ ts. ts) report)
evaluate-IsWeighed_example = evaluate-IsWeighed plain_host (λ p. p) (λ ts. ts) report

evaluate-compromised_score_example :
    55 ≤ (score (evaluate plain_host (λ p. p) (λ ts. ts) report)).total
evaluate-compromised_score_example =
    evaluate-compromised_score plain_host (λ p. p) (λ ts. ts) report evaluate_test.1

host_findings-carriers_example :
    carriers (concat (host_findings plain_host (λ p. p) (λ ts. ts) infected)) ≡ (
      if prp_sec012 infected || prp_sec005 infected || non_empty (escalations infected)
      then 1
      else 0)
host_findings-carriers_example = host_findings-carriers plain_host (λ p. p) (λ ts. ts) infected

evaluate-failed_example :
    All
      (λ f. finding_from_failed_scanner f report.failed_scanners ≡ false)
      (evaluate plain_host (λ p. p) (λ ts. ts) report)
    × (panics (evaluate plain_host (λ p. p) (λ ts. ts) report)
        ≡ map scanner_panicked report.failed_scanners)
evaluate-failed_example = evaluate-failed plain_host (λ p. p) (λ ts. ts) report
