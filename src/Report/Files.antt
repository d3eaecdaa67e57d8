-- ===== src/Report/Files.antt =====
-- src/models.rs: what a report says of files, units and packages, with the fields that the rules of
-- src/scoring.rs read. The field `package` is `package_name`, and the field `module` of a PAM
-- finding `pam_module`.
use owlzops_mapper.Common.{ℕ, Text, Bool, List, Option, Eq, eq_of_discrete}

pub data ProvenanceSource : Type 0 where
  dpkg apk partial_apk rpm unavailable : ProvenanceSource

unfoldable pub discrete_source : Discrete ProvenanceSource
discrete_source = hlevel

instance abbrev pub provenance_source_eq : Eq ProvenanceSource
provenance_source_eq = eq_of_discrete discrete_source

pub data ExecWritability : Type 0 where
  root_only non_root_writable missing unknown : ExecWritability

unfoldable pub discrete_writability : Discrete ExecWritability
discrete_writability = hlevel

instance abbrev pub exec_writability_eq : Eq ExecWritability
exec_writability_eq = eq_of_discrete discrete_writability

pub record FileCapFinding : Type 0 where
  pub path : Text
  pub capabilities : List Text
  pub package_name : Option Text

pub record SetuidFinding : Type 0 where
  pub path : Text
  pub setuid : Bool
  pub setgid : Bool
  pub root_owner : Bool
  pub package_name : Option Text

pub record ExecStartFinding : Type 0 where
  pub source : Text
  pub unit_path : Text
  pub unit_package : Option Text
  pub exec_path : Text
  pub volatile : Bool
  pub writability : ExecWritability
  pub package_name : Option Text
  pub runs_as_root : Bool

pub record PreloadFinding : Type 0 where
  pub path : Text
  pub volatile : Bool
  pub package_name : Option Text
  pub mapped_by_pids : Option ℕ

pub record LdSoConfInjection : Type 0 where
  pub path : Text
  pub volatile : Bool
  pub mode : Option ℕ
  pub uid : ℕ

pub data GeneratorOrigin : Type 0 where
  vendor local_admin admin at_runtime : GeneratorOrigin

pub data GeneratorKind : Type 0 where
  executable search_dir : GeneratorKind

pub record GeneratorFinding : Type 0 where
  pub path : Text
  pub kind : GeneratorKind
  pub origin : GeneratorOrigin
  pub package_name : Option Text
  pub writability : ExecWritability
  pub symlink_target : Option Text
  pub resolved_path : Option Text
  pub uid : ℕ

pub record PamModule : Type 0 where
  pub module_path : Text

pub data PamTargetKind : Type 0 where
  module_target exec_script config : PamTargetKind

pub record PamFinding : Type 0 where
  pub services : List Text
  pub pam_module : PamModule
  pub writability : ExecWritability
  pub volatile : Bool
  pub package_name : Option Text
  pub parent_takeable : Bool
  pub target_kind : PamTargetKind
