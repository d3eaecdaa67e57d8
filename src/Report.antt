-- ===== src/Report.antt =====
-- src/models.rs: the report of a host, with the fields that src/scoring.rs and src/main.rs read.
pub mod Process
pub mod Kernel
pub mod Files
pub mod Access
use owlzops_mapper.Common.{ℕ, Text, Bool, List, Option}
use owlzops_mapper.Utils.Provenance.{PortInfo}
use owlzops_mapper.Report.Process.{
  SuspiciousProcess, ProcCapFinding, MountMaskingFinding, ReverseShellFinding,
  LibraryInjectionFinding, GhostPidFinding, SecretLeak,
}
use owlzops_mapper.Report.Kernel.{
  EbpfInventory, KernelTaint, CpuVulnerability, ConfinementReport, KernelModuleInventory,
  FtraceHookInventory,
}
use owlzops_mapper.Report.Files.{
  ProvenanceSource, FileCapFinding, SetuidFinding, ExecStartFinding, PreloadFinding,
  LdSoConfInjection, GeneratorFinding, PamFinding,
}
use owlzops_mapper.Report.Access.{
  SshdDirective, AccessAuditResult, AccountHygieneInfo, HardeningFinding,
}

pub data CronSeverity : Type 0 where
  ok warning critical : CronSeverity

pub record CronJob : Type 0 where
  pub command : Text
  pub severity : CronSeverity

pub record HostInfo : Type 0 where
  pub oom_kills : ℕ
  pub native_services : List Text
  pub cron_jobs : List CronJob
  pub failed_services : List Text
  pub backup_tools : List Text
  pub ntp_synchronized : Bool

pub record SslCertInfo : Type 0 where
  pub is_critical : Bool

pub record NetworkInfo : Type 0 where
  pub firewall_active : Bool
  pub ssl_certificates : List SslCertInfo
  pub listening_ports : List PortInfo

-- Of a limit of a container only its presence counts.
pub record ContainerInfo : Type 0 where
  pub name : Text
  pub state : Text
  pub privileged : Bool
  pub memory_limit_mb : Option ℕ
  pub cpu_limit : Option Text
  pub cap_add : List Text
  pub sensitive_mounts : List Text
  pub restart_count : ℕ
  pub oom_killed : Bool
  pub health_status : Option Text
  pub runtime_bounding_caps : Option ℕ

pub record TopologyInfo : Type 0 where
  pub runtime_active : Bool
  pub runtime_name : Text
  pub containers : List ContainerInfo

pub record UpgradablePackage : Type 0 where
  pub is_security : Bool

pub record PackagesInfo : Type 0 where
  pub upgradable : List UpgradablePackage

pub record FirewallBypassFinding : Type 0 where
  pub container : Text
  pub published : Text
  pub host_port : ℕ
  pub protocol : Text
  pub sensitive : Bool
  pub firewall_was_active : Bool

pub record SecurityInfo : Type 0 where
  pub ssh_password_auth_enabled : Bool
  pub ssh_root_login_enabled : Bool
  pub ssh_permit_root_login_detail : Option Text
  pub sudo_nopasswd_entries : List Text
  pub sudoers_mode : Option ℕ
  pub sysctl_issues : List Text
  pub access_alignment : AccessAuditResult
  pub secret_hygiene : List SecretLeak
  pub capability_audit : List ProcCapFinding
  pub suspicious_processes : List SuspiciousProcess
  pub mount_masking : List MountMaskingFinding
  pub reverse_shells : List ReverseShellFinding
  pub library_injections : List LibraryInjectionFinding
  pub ghost_pids : List GhostPidFinding
  pub file_capabilities : List FileCapFinding
  pub ebpf_inventory : EbpfInventory
  pub setuid_files : List SetuidFinding
  pub provenance_source : ProvenanceSource
  pub kernel_taint : KernelTaint
  pub confinement : ConfinementReport
  pub kernel_modules : KernelModuleInventory
  pub ftrace_hooks : FtraceHookInventory
  pub preload_injections : List PreloadFinding
  pub core_pattern : Option Text
  pub lockdown : Option Text
  pub exec_start_injections : List ExecStartFinding
  pub ld_so_conf_injections : List LdSoConfInjection
  pub generators : List GeneratorFinding
  pub pam_injections : List PamFinding
  pub cpu_vulnerabilities : List CpuVulnerability
  pub sshd_sensitive_directives : List SshdDirective
  pub firewall_bypass_findings : List FirewallBypassFinding
  pub account_hygiene : AccountHygieneInfo
  pub systemd_hardening : List HardeningFinding

-- The parts of a report that the rules read.
pub record Facts : Type 0 where
  pub host : HostInfo
  pub network : NetworkInfo
  pub topology : TopologyInfo
  pub security : SecurityInfo
  pub packages : PackagesInfo

-- The other fields, with the facts of some type.
pub record AgentReport (F : Type 0) : Type 0 where
  pub hostname : Text
  pub input_address : Option Text
  pub failed_scanners : List Text
  pub is_root_execution : Bool
  pub scan_warnings : List Text
  pub facts : F
