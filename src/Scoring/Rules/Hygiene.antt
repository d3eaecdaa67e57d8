-- ===== src/Scoring/Rules/Hygiene.antt =====
-- src/scoring.rs, `evaluate`: accounts, credentials and the hardening of services.
use owlzops_mapper.Common.{
  Text, codes, Bool, not, ◌&&◌, ◌||◌, List, [], ◌∷◌, ◌++◌, none, some, if◌then◌else◌, ◌==◌, text_eq,
  any, filter, map, length, take, starts_with,
}
use owlzops_mapper.Scoring.Finding.{Finding, Category, Scanner, evidence_list}
use owlzops_mapper.Scoring.Rules.Push.{finding, push_if, non_empty, counted}
use owlzops_mapper.Report.{Facts}
use owlzops_mapper.Report.Access.{
  AccountHygieneInfo, WeakHashFinding, CredentialFileIssue, PrivateKeyFinding, HardeningFinding,
}

unfoldable pub is_weakest_hash : WeakHashFinding → Bool
unfolding starts_with
is_weakest_hash h = starts_with h.hash_type (codes "DES") || starts_with h.hash_type (codes "$1$")

unfoldable pub weak_hashes : AccountHygieneInfo → List Finding
unfolding is_weakest_hash evidence_list
weak_hashes ah = push_if (non_empty ah.weak_password_hashes) (
    finding "SEC-070" Scanner.security (codes "Weak password hash algorithm in /etc/shadow")
      Category.security (if any is_weakest_hash ah.weak_password_hashes then 20 else 10)
      (counted (length ah.weak_password_hashes) (codes " user(s): ")
        ++ evidence_list
            (map (λ h. h.username ++ codes ": " ++ h.hash_type) (take 6 ah.weak_password_hashes)) 6)
      none (some "CIS 5.4.4"))

unfoldable pub accounts : AccountHygieneInfo → List Finding
unfolding evidence_list
accounts ah =
    push_if (non_empty ah.empty_password_users) (
      finding "SEC-071" Scanner.security (codes "Account with no password (empty shadow field)")
        Category.security 40
        (counted (length ah.empty_password_users) (codes " user(s): ")
          ++ evidence_list ah.empty_password_users 8)
        none (some "CIS 5.4.2"))
    ++ push_if (non_empty ah.duplicate_uid_zero) (
        finding "SEC-072" Scanner.security (codes "Non-root account with UID 0") Category.security
          25
          (counted (length ah.duplicate_uid_zero) (codes " user(s): ")
            ++ evidence_list ah.duplicate_uid_zero 6)
          none (some "CIS 5.5.2"))
    ++ push_if (non_empty ah.system_accounts_with_shell) (
        finding "SEC-073" Scanner.security (codes "System account with interactive shell")
          Category.security 5
          (counted (length ah.system_accounts_with_shell) (codes " account(s): ")
            ++ evidence_list ah.system_accounts_with_shell 8)
          none (some "CIS 5.4.2"))

unfoldable pub issue_text : CredentialFileIssue → Text
issue_text f = f.path ++ codes " (mode " ++ f.mode ++ codes ", " ++ f.reason ++ codes ")"

abbrev pub is_shadow : CredentialFileIssue → Bool
is_shadow f = f.path == codes "/etc/shadow"

abbrev pub is_gshadow : CredentialFileIssue → Bool
is_gshadow f = not (is_shadow f) && f.path == codes "/etc/gshadow"

unfoldable pub is_sudoers_d : CredentialFileIssue → Bool
unfolding starts_with
is_sudoers_d f =
    not (is_shadow f)
    && not (f.path == codes "/etc/gshadow")
    && starts_with f.path (codes "/etc/sudoers.d/")

unfoldable pub credential_files : AccountHygieneInfo → List Finding
unfolding issue_text is_sudoers_d evidence_list
credential_files ah =
    let fs = ah.file_permission_issues in
    let perm_074 = map issue_text (filter is_shadow fs) in
    let perm_075 = map issue_text (filter is_gshadow fs) in
    let perm_076 = map issue_text (filter is_sudoers_d fs) in
    push_if (non_empty perm_074) (
      finding "SEC-074" Scanner.security (codes "/etc/shadow readable by non-root")
        Category.security 15 (evidence_list perm_074 4) none (some "CIS 1.8.1"))
    ++ push_if (non_empty perm_075) (
        finding "SEC-075" Scanner.security (codes "/etc/gshadow readable by non-root")
          Category.security 10 (evidence_list perm_075 4) none none)
    ++ push_if (non_empty perm_076) (
        finding "SEC-076" Scanner.security (codes "sudoers.d file has unsafe permissions")
          Category.security 15 (evidence_list perm_076 6) none (some "CIS 1.8.2"))

unfoldable pub key_text : PrivateKeyFinding → Text
key_text k = k.path ++ codes " (mode " ++ k.mode ++ codes ")"

unfoldable pub key_files : AccountHygieneInfo → List Finding
unfolding key_text issue_text evidence_list
key_files ah =
    push_if (non_empty ah.ssh_private_key_readable) (
      finding "SEC-077" Scanner.security (codes "SSH private key readable by group or other")
        Category.security 20
        (counted (length ah.ssh_private_key_readable) (codes " key(s): ")
          ++ evidence_list (map key_text (take 6 ah.ssh_private_key_readable)) 6)
        none none)
    ++ push_if (non_empty ah.authorized_keys_writable) (
        finding "SEC-078" Scanner.security (codes "authorized_keys writable by non-owner")
          Category.security 25 (evidence_list ah.authorized_keys_writable 6) none none)
    ++ push_if (non_empty ah.root_dotfiles_readable) (
        finding "SEC-079" Scanner.security (codes "/root dotfile readable by non-root")
          Category.security 10 (evidence_list (map issue_text ah.root_dotfiles_readable) 6) none
          none)

unfoldable pub account_hygiene : Facts → List Finding
unfolding weak_hashes accounts credential_files key_files
account_hygiene r =
    weak_hashes r.security.account_hygiene
    ++ accounts r.security.account_hygiene
    ++ credential_files r.security.account_hygiene
    ++ key_files r.security.account_hygiene

-- The first service is the worst one.
unfoldable pub systemd_hardening_of : List HardeningFinding → List Finding
unfolding evidence_list
systemd_hardening_of [] = []
systemd_hardening_of (w ∷ ws) =
    finding "SEC-081" Scanner.security
      (codes "systemd services run with hardening posture below baseline") Category.security 5
      (counted (length (w ∷ ws)) (codes " running service(s) below hardening baseline. Worst: ")
        ++ w.unit
        ++ codes " — missing "
        ++ evidence_list w.missing 6)
      none none
    ∷ []

unfoldable pub systemd_hardening : Facts → List Finding
unfolding systemd_hardening_of
systemd_hardening r = systemd_hardening_of r.security.systemd_hardening
