-- ===== src/Scoring/Rules/Plain/Hygiene.antt =====
-- src/scoring.rs, `evaluate`: the findings on accounts and services.
use owlzops_mapper.Common.{List, [], ◌∷◌, refl, arith}
use owlzops_mapper.Report.{Facts}
use owlzops_mapper.Scoring.Rules.Plain.{
  plain, AllPlain, push_if-AllPlain, append-AllPlain, is_plain,
}
use owlzops_mapper.Scoring.Rules.Hygiene.{
  weak_hashes, accounts, credential_files, key_files, account_hygiene, systemd_hardening_of,
  systemd_hardening,
}
use owlzops_mapper.Report.Access.{AccountHygieneInfo, HardeningFinding}

weak_hashes-AllPlain : (ah : AccountHygieneInfo) → AllPlain (weak_hashes ah)
unfolding weak_hashes is_plain
weak_hashes-AllPlain ah = push_if-AllPlain _ _ (ground arith)

accounts-AllPlain : (ah : AccountHygieneInfo) → AllPlain (accounts ah)
unfolding accounts is_plain
accounts-AllPlain ah = search plain

credential_files-AllPlain : (ah : AccountHygieneInfo) → AllPlain (credential_files ah)
unfolding credential_files is_plain
credential_files-AllPlain ah = search plain

key_files-AllPlain : (ah : AccountHygieneInfo) → AllPlain (key_files ah)
unfolding key_files is_plain
key_files-AllPlain ah = search plain

pub account_hygiene-AllPlain : (r : Facts) → AllPlain (account_hygiene r)
unfolding account_hygiene
account_hygiene-AllPlain r = search (
  append-AllPlain, weak_hashes-AllPlain, accounts-AllPlain, credential_files-AllPlain,
  key_files-AllPlain,
)

systemd_hardening_of-AllPlain : (hs : List HardeningFinding) → AllPlain (systemd_hardening_of hs)
unfolding systemd_hardening_of is_plain
systemd_hardening_of-AllPlain [] = tt
systemd_hardening_of-AllPlain (h ∷ hs) = (refl, tt)

pub systemd_hardening-AllPlain : (r : Facts) → AllPlain (systemd_hardening r)
unfolding systemd_hardening
systemd_hardening-AllPlain r = systemd_hardening_of-AllPlain r.security.systemd_hardening
