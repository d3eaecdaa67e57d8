-- ===== src/Scoring/Rules/Class.antt =====
-- src/scoring.rs, `evaluate`: which finding carries the weight of the passwordless-root class.
use owlzops_mapper.Common.{
  ℕ, ◌+◌, Text, Bool, Bool-cases, true, false, not, ◌&&◌, ◌||◌, List, [], ◌∷◌, ◌++◌, ◌≡◌, refl,
  arith, inl, inr, All, contains, string_eq, nat_eq, ◌==◌, filter, length, any, if◌then◌else◌, drop,
  ◌∙◌, ap,
}
use owlzops_mapper.Utils.Provenance.{Host}
use owlzops_mapper.Report.{Facts}
use owlzops_mapper.Scoring.Finding.{Finding}
use owlzops_mapper.Scoring.Rules.{host_findings}
use owlzops_mapper.Scoring.Rules.Push.{concat, non_empty, push_if}
use owlzops_mapper.Scoring.Rules.Access.{
  sudo_nopasswd, passwordless_all, root_groups, prp_sec005, prp_sec012, escalations, carrier,
  group_weight, nopasswd_weight, is_root_path, risk_passwordless_root,
}
use owlzops_mapper.Scoring.Rules.Plain.{AllPlain, is_plain, class_ids}
use owlzops_mapper.Scoring.Rules.Plain.Access.{
  firewall_inactive-AllPlain, ssh_root_login-AllPlain, security_updates-AllPlain,
  certificate_expiring-AllPlain, ssh_password_auth-AllPlain, root_with_password-AllPlain,
  noncompliant_keys-AllPlain,
}
use owlzops_mapper.Scoring.Rules.Plain.Sudo.{sudoers_mode-AllPlain, sysctl_issues-AllPlain}
use owlzops_mapper.Scoring.Rules.Plain.Later.{later_rules-AllPlain}

-- A finding of the class that carries its weight, and how many there are.
abbrev pub is_carrier : Finding → Bool
is_carrier f = contains class_ids f.id && f.weight == risk_passwordless_root

abbrev pub carriers : List Finding → ℕ
carriers fs = length (filter is_carrier fs)

plain_parts : (a b c : Bool) → (a && not b) ≡ true → (b && c) ≡ false
plain_parts a b c h = ground arith

is_plain-not_carrier : (f : Finding) → is_plain f ≡ true → is_carrier f ≡ false
unfolding is_plain
is_plain-not_carrier f h =
    plain_parts _ (contains class_ids f.id) (f.weight == risk_passwordless_root) h

carriers-plain : (xs ys : List Finding) → AllPlain xs → carriers (xs ++ ys) ≡ carriers ys
carriers-plain [] ys h = refl
carriers-plain (x ∷ xs) ys h = rw (is_plain-not_carrier x h.0) (carriers-plain xs ys h.1)

carriers-concat : (xss : List (List Finding)) → All AllPlain xss → carriers (concat xss) ≡ 0
carriers-concat [] h = refl
carriers-concat (xs ∷ xss) h = carriers-plain xs (concat xss) h.0 ∙ carriers-concat xss h.1

carriers-append : (xs ys : List Finding) → carriers (xs ++ ys) ≡ carriers xs + carriers ys
carriers-append [] ys = omega arith
carriers-append (x ∷ xs) ys = elim (Bool-cases (is_carrier x)) [
  | inl e ↦ rw e (omega (arith, carriers-append xs ys))
  | inr e ↦ rw e (carriers-append xs ys)
]

carriers-push_if :
    (c : Bool) (f : Finding) → carriers (push_if c f) ≡ (if c && is_carrier f then 1 else 0)
carriers-push_if true f = elim (Bool-cases (is_carrier f)) [ inl e ↦ rw e refl | inr e ↦ rw e refl ]
carriers-push_if false f = refl

any-non_empty : (p : Text → Bool) (xs : List Text) → any p xs ≡ true → non_empty xs ≡ true
any-non_empty p [] h = cc
any-non_empty p (x ∷ xs) h = refl

nopasswd_weight-carrier : (a b c : Bool) → ((nopasswd_weight a b c).0 == 15) ≡ (a && not b)
unfolding nopasswd_weight
nopasswd_weight-carrier a b c = ground arith

same_test : (n a b : Bool) → (a ≡ true → n ≡ true) → (n && (a && b)) ≡ (a && b)
same_test n true b h = rw (h refl) refl
same_test true false b h = refl
same_test false false b h = refl

prp_sec005-entries :
    (r : Facts) → prp_sec005 r ≡ true → non_empty r.security.sudo_nopasswd_entries ≡ true
unfolding prp_sec005
prp_sec005-entries r h = any-non_empty is_root_path r.security.sudo_nopasswd_entries h

sudo_nopasswd-carriers :
    (r : Facts) → carriers (sudo_nopasswd r) ≡ (if prp_sec005 r && not (prp_sec012 r) then 1 else 0)
unfolding sudo_nopasswd
sudo_nopasswd-carriers r =
    let entries = r.security.sudo_nopasswd_entries in
    let plain_entry = any (λ e. not (is_root_path e)) entries in
    carriers-push_if (non_empty entries) _
    ∙ ap (λ (b : Bool). if non_empty entries && b then 1 else 0)
        (nopasswd_weight-carrier (prp_sec005 r) (prp_sec012 r) plain_entry)
    ∙ ap (λ (b : Bool). if b then 1 else 0)
        (same_test (non_empty entries) (prp_sec005 r) (not (prp_sec012 r)) (prp_sec005-entries r))

passwordless_all-carriers :
    (r : Facts) → carriers (passwordless_all r) ≡ (if prp_sec012 r then 1 else 0)
unfolding passwordless_all
passwordless_all-carriers r = elim (Bool-cases (prp_sec012 r)) [
  | inl e ↦ rw e refl
  | inr e ↦ rw e refl
]

group_weight-carrier :
    (r : Facts) → ((group_weight (carrier r)).0 == 15) ≡ not (prp_sec012 r || prp_sec005 r)
unfolding group_weight carrier
group_weight-carrier r = ground arith

root_groups-carriers :
    (r : Facts)
    → carriers (root_groups r)
      ≡ (if non_empty (escalations r) && not (prp_sec012 r || prp_sec005 r) then 1 else 0)
unfolding root_groups
root_groups-carriers r =
    carriers-push_if (non_empty (escalations r)) _
    ∙ ap (λ (b : Bool). if non_empty (escalations r) && b then 1 else 0) (group_weight-carrier r)

one_of :
    (a b c : Bool)
    → (if b && not a then 1 else 0)
        + ((if a then 1 else 0) + ((if c && not (a || b) then 1 else 0) + 0))
      ≡ (if a || b || c then 1 else 0)
one_of a b c = ground arith

module _ (host : Host) (file_name : Text → Text) (bucket_order : List Text → List Text) where
  -- Among all findings of the rules, exactly one carries the weight of the passwordless-root class
  -- where a principal may use sudo for everything, an entry without a password leads to root, or a
  -- group bypasses sudo; and none does elsewhere.
  pub host_findings-carriers :
      (r : Facts)
      → carriers (concat (host_findings host file_name bucket_order r))
        ≡ (if prp_sec012 r || prp_sec005 r || non_empty (escalations r) then 1 else 0)
  unfolding host_findings
  host_findings-carriers r =
      let later = concat (drop 12 (host_findings host file_name bucket_order r)) in
      let none_later =
        carriers-concat (drop 12 (host_findings host file_name bucket_order r))
          (later_rules-AllPlain host file_name bucket_order r) in
      let groups = root_groups r ++ later in
      let behind = concat (drop 5 (host_findings host file_name bucket_order r)) in
      let skip_first : carriers (concat (host_findings host file_name bucket_order r))
          ≡ carriers (sudo_nopasswd r ++ behind) =
        carriers-plain _ _ (firewall_inactive-AllPlain r)
        ∙ carriers-plain _ _ (ssh_root_login-AllPlain r)
        ∙ carriers-plain _ _ (security_updates-AllPlain r)
        ∙ carriers-plain _ _ (certificate_expiring-AllPlain r) in
      let skip_second : carriers behind ≡ carriers (passwordless_all r ++ groups) =
        carriers-plain _ _ (sudoers_mode-AllPlain r)
        ∙ carriers-plain _ _ (sysctl_issues-AllPlain r)
        ∙ carriers-plain _ _ (ssh_password_auth-AllPlain r)
        ∙ carriers-plain _ _ (root_with_password-AllPlain r)
        ∙ carriers-plain _ _ (noncompliant_keys-AllPlain r) in
      omega (
        arith,
        skip_first,
        skip_second,
        none_later,
        carriers-append (sudo_nopasswd r) behind,
        carriers-append (passwordless_all r) groups,
        carriers-append (root_groups r) later,
        sudo_nopasswd-carriers r,
        passwordless_all-carriers r,
        root_groups-carriers r,
        one_of (prp_sec012 r) (prp_sec005 r) (non_empty (escalations r)),
      )
