-- ===== src/Report/Kernel.antt =====
-- src/models.rs: what a report says of the kernel, with the fields that the rules of
-- src/scoring.rs read. The lists of `EbpfInventory` are only counted.
use owlzops_mapper.Common.{ℕ, Text, Bool, List}

pub record EbpfInventory : Type 0 where
  pub programs : List Text
  pub maps : List Text
  pub pins : List Text
  pub links : List Text

-- The code of a flag is a character.
pub record TaintFlag : Type 0 where
  pub code : ℕ
  pub name : Text
  pub security_relevant : Bool

pub record KernelTaint : Type 0 where
  pub raw : ℕ
  pub flags : List TaintFlag

pub record CpuVulnerability : Type 0 where
  pub name : Text
  pub status : Text
  pub vulnerable : Bool

pub record ComplainProc : Type 0 where
  pub pid : ℕ
  pub comm : Text
  pub profile : Text

pub record ConfinementReport : Type 0 where
  pub selinux_permissive : Bool
  pub complain_profiles : List ComplainProc

pub record HiddenModule : Type 0 where
  pub name : Text
  pub seen_in : List Text

pub record KernelModuleInventory : Type 0 where
  pub hidden_candidates : List HiddenModule

pub record FtraceHook : Type 0 where
  pub function : Text
  pub callback : Text

pub record FtraceHookInventory : Type 0 where
  pub unattributed_syscall_hooks : List FtraceHook
  pub live_tracer_active : Bool
  pub attribution_degraded : Bool
