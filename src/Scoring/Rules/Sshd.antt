-- ===== src/Scoring/Rules/Sshd.antt =====
-- src/scoring.rs, `evaluate`: directives of sshd and options of authorized keys.
use owlzops_mapper.Common.{
  Text, codes, Bool, true, false, not, ◌&&◌, List, ◌++◌, none, some, if◌then◌else◌, ◌==◌, text_eq,
  any, filter, map, starts_with, eq_ignore_ascii_case,
}
use owlzops_mapper.Scoring.Finding.{Finding, Category, Scanner, evidence_list}
use owlzops_mapper.Scoring.Rules.Push.{finding, push_if, non_empty}
use owlzops_mapper.Report.{Facts}
use owlzops_mapper.Report.Files.{root_only, non_root_writable, missing, unknown}
use owlzops_mapper.Report.Access.{SshdDirective}

-- The match that sends a directive to `replaceable` or to `present`.
unfoldable pub is_replaceable : SshdDirective → Bool
is_replaceable d = elim d.writability [
  | some non_root_writable ↦ true
  | some missing ↦ d.directive == codes "authorizedkeyscommand"
  | some root_only ↦ false
  | some unknown ↦ false
  | none ↦ false
]

abbrev pub directive_line : SshdDirective → Text
directive_line d = d.directive ++ codes " " ++ d.value

unfoldable pub sshd_directives : Facts → List Finding
unfolding is_replaceable evidence_list
sshd_directives r =
    let ds = r.security.sshd_sensitive_directives in
    let replaceable = map directive_line (filter is_replaceable ds) in
    let present = map directive_line (filter (λ d. not (is_replaceable d)) ds) in
    push_if (non_empty replaceable) (
      finding "SEC-062" Scanner.security
        (codes "sshd executes or trusts a target replaceable by a non-root user") Category.security
        30 (evidence_list replaceable 4) none none)
    ++ push_if (non_empty present) (
        finding "SEC-062" Scanner.security (codes "sshd login-path directives present (inventory)")
          Category.security 0 (evidence_list present 4)
          (some (
            codes "Root-only targets. AuthorizedKeysCommand/TrustedUserCAKeys are normal "
            ++ codes "with SSO or an SSH CA; review that the operator expects them."))
          none)

unfoldable pub permit_user_environment : Facts → Bool
unfolding eq_ignore_ascii_case
permit_user_environment r =
    any
      (λ d.
        d.directive == codes "permituserenvironment"
        && not (eq_ignore_ascii_case d.value (codes "no")))
      r.security.sshd_sensitive_directives

unfoldable pub environment_keys : Facts → List Finding
unfolding permit_user_environment starts_with evidence_list
environment_keys r =
    let env_keys =
      map (λ k. k.user ++ codes " (" ++ k.comment ++ codes ")")
        (filter (λ k. any (λ o. starts_with o (codes "environment=")) k.options)
          r.security.access_alignment.keys) in
    push_if (non_empty env_keys) (
      finding "SEC-063" Scanner.security
        (codes "authorized_keys sets environment= (LD_PRELOAD at login)") Category.security
        (if permit_user_environment r then 20 else 0) (evidence_list env_keys 6)
        (if permit_user_environment r
          then none
          else some (
              codes "PermitUserEnvironment is off: sshd ignores environment= today; "
              ++ codes "it becomes live the moment that directive flips."))
        none)
