-- ===== src/Scoring/Rules/Plain/Access.antt =====
-- src/scoring.rs, `evaluate`: the findings on firewall, ssh, updates and sudo.
use owlzops_mapper.Common.{refl, arith}
use owlzops_mapper.Report.{Facts}
use owlzops_mapper.Scoring.Rules.Plain.{AllPlain, push_if-AllPlain, is_plain}
use owlzops_mapper.Scoring.Rules.Access.{
  firewall_inactive, ssh_root_login, security_updates, certificate_expiring, ssh_password_auth,
  root_with_password, noncompliant_keys,
}

pub firewall_inactive-AllPlain : (r : Facts) → AllPlain (firewall_inactive r)
unfolding firewall_inactive is_plain
firewall_inactive-AllPlain r = push_if-AllPlain _ _ refl

pub ssh_root_login-AllPlain : (r : Facts) → AllPlain (ssh_root_login r)
unfolding ssh_root_login is_plain
ssh_root_login-AllPlain r = push_if-AllPlain _ _ (ground arith)

pub security_updates-AllPlain : (r : Facts) → AllPlain (security_updates r)
unfolding security_updates is_plain
security_updates-AllPlain r = push_if-AllPlain _ _ (ground arith)

pub certificate_expiring-AllPlain : (r : Facts) → AllPlain (certificate_expiring r)
unfolding certificate_expiring is_plain
certificate_expiring-AllPlain r = push_if-AllPlain _ _ refl

pub ssh_password_auth-AllPlain : (r : Facts) → AllPlain (ssh_password_auth r)
unfolding ssh_password_auth is_plain
ssh_password_auth-AllPlain r = push_if-AllPlain _ _ refl

pub root_with_password-AllPlain : (r : Facts) → AllPlain (root_with_password r)
unfolding root_with_password is_plain
root_with_password-AllPlain r = push_if-AllPlain _ _ refl

pub noncompliant_keys-AllPlain : (r : Facts) → AllPlain (noncompliant_keys r)
unfolding noncompliant_keys is_plain
noncompliant_keys-AllPlain r = push_if-AllPlain _ _ refl
