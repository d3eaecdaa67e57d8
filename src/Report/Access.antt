-- ===== src/Report/Access.antt =====
-- src/models.rs: what a report says of accounts, keys and sudo, with the fields that the rules of
-- src/scoring.rs read. An entry of `sudoers_nopasswd_all` is only counted.
use owlzops_mapper.Common.{Text, Bool, List, Option}
use owlzops_mapper.Report.Files.{ExecWritability}

pub record SshdDirective : Type 0 where
  pub directive : Text
  pub value : Text
  pub writability : Option ExecWritability

pub record SshKeyAudit : Type 0 where
  pub user : Text
  pub comment : Text
  pub compliant : Bool
  pub options : List Text

pub record SudoersEntry : Type 0 where
  pub principal : Text

pub record RootEquivalentGroup : Type 0 where
  pub group : Text
  pub members : List Text
  pub bypasses_sudo : Bool

pub record AccessAuditResult : Type 0 where
  pub keys : List SshKeyAudit
  pub sudoers_nopasswd_all : List SudoersEntry
  pub root_equivalent_groups : List RootEquivalentGroup

pub record WeakHashFinding : Type 0 where
  pub username : Text
  pub hash_type : Text

pub record CredentialFileIssue : Type 0 where
  pub path : Text
  pub mode : Text
  pub reason : Text

pub record PrivateKeyFinding : Type 0 where
  pub path : Text
  pub mode : Text

pub record AccountHygieneInfo : Type 0 where
  pub weak_password_hashes : List WeakHashFinding
  pub empty_password_users : List Text
  pub duplicate_uid_zero : List Text
  pub system_accounts_with_shell : List Text
  pub file_permission_issues : List CredentialFileIssue
  pub ssh_private_key_readable : List PrivateKeyFinding
  pub authorized_keys_writable : List Text
  pub root_dotfiles_readable : List CredentialFileIssue

pub record HardeningFinding : Type 0 where
  pub unit : Text
  pub missing : List Text
