-- ===== src/Report/Process.antt =====
-- src/models.rs: what a report says of processes and their memory, with the fields that the rules
-- of src/scoring.rs read.
use owlzops_mapper.Common.{ℕ, Text, Bool, List, Option}

pub record SuspiciousProcess : Type 0 where
  pub pid : ℕ
  pub name : Text
  pub exe_path : Option Text
  pub is_deleted : Bool
  pub euid : ℕ
  pub is_mimic : Bool
  pub self_attributed : Option Text

pub data CapReason : Type 0 where
  ambient_caps_no_new_privs : CapReason

pub record ProcCapFinding : Type 0 where
  pub pid : ℕ
  pub comm : Text
  pub euid : ℕ
  pub ambient : ℕ
  pub no_new_privs : Option Bool
  pub critical_caps : List Text
  pub reason : Option CapReason

pub record MountMaskingFinding : Type 0 where
  pub target_path : Text
  pub fstype : Text
  pub reason : Text

pub record ReverseShellFinding : Type 0 where
  pub pid : ℕ
  pub process : Text
  pub remote_address : Text
  pub stdio_fd : Option ℕ

pub data Origin : Type 0 where
  ffi_closure g_object_callback jit_code runtime_trampoline hot_spot pcre2_jit : Origin
  unknown_payload inconclusive managed_jit reserved_buffer : Origin
  ghost_clean_image ghost_suspect_image ghost_inconclusive : Origin

pub data Prologue : Type 0 where
  endbr64 push_rbp : Prologue

pub data PointerKind : Type 0 where
  lib_text jit_cluster lib_data unmapped : PointerKind

pub record ResolvedPointer : Type 0 where
  pub kind : PointerKind

-- The entropy is an f32: what the code asks of it is `>= 7.0`, `< 6.5` and `{:.1}`.
pub record Entropy : Type 0 where
  pub at_least_7 : Bool
  pub below_6_5 : Bool
  pub one_decimal : Text

pub record DeepMemoryAnalysis : Type 0 where
  pub origin : Origin
  pub confidence : ℕ
  pub entropy : Entropy
  pub prologue : Option Prologue
  pub resolved_pointers : List ResolvedPointer
  pub image_header : Bool

pub record LibraryInjectionFinding : Type 0 where
  pub pid : ℕ
  pub process : Text
  pub object_path : Text
  pub source : Text
  pub is_deleted : Bool
  pub region_addr : Option Text
  pub deep_forensics : Option DeepMemoryAnalysis
  pub exe_path : Option Text

pub record GhostPidFinding : Type 0 where
  pub pid : ℕ
  pub state : Option Text
  pub age_secs : Option ℕ
  pub confirmed_via : Text
  pub confirmed_ioc : Bool
  pub holds_socket : Bool

pub record SecretLeak : Type 0 where
  pub pid : ℕ
  pub process : Text
  pub source : Text
  pub matched_key : Text
  pub self_attributed : Option Text
  pub age_secs : Option ℕ
