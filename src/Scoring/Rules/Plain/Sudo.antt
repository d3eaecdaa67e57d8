-- ===== src/Scoring/Rules/Plain/Sudo.antt =====
-- src/scoring.rs, `evaluate`: the findings on sudo and sysctl.
use owlzops_mapper.Common.{
  Text, List, [], ◌∷◌, Option, none, some, ◌≡◌, refl, arith, true, Bool, leb, map, nat_eq, ℕ,
}
use owlzops_mapper.Report.{Facts}
use owlzops_mapper.Scoring.Finding.{Finding}
use owlzops_mapper.Scoring.Rules.Plain.{
  AllPlain, push_if-AllPlain, is_plain, push_if-All, AllProper, is_proper, if-is_plain,
}
use owlzops_mapper.Scoring.Rules.Access.{
  sudoers_mode_of, sudo_nopasswd, sudoers_mode, sysctl_issue, sysctl_issues, passwordless_all,
  root_groups, nopasswd_weight, group_weight, prp_sec005, prp_sec012, carrier,
}

sudoers_mode_of-AllPlain : (mode : Option ℕ) → AllPlain (sudoers_mode_of mode)
unfolding sudoers_mode_of is_plain
sudoers_mode_of-AllPlain none = tt
sudoers_mode_of-AllPlain (some mode) = push_if-AllPlain _ _ refl

pub sudoers_mode-AllPlain : (r : Facts) → AllPlain (sudoers_mode r)
unfolding sudoers_mode
sudoers_mode-AllPlain r = sudoers_mode_of-AllPlain r.security.sudoers_mode

sysctl_issue-is_plain : (r : Facts) (issue : Text) → is_plain (sysctl_issue r issue) ≡ true
unfolding sysctl_issue is_plain
sysctl_issue-is_plain r issue = search if-is_plain

map-AllPlain :
    (g : Text → Finding) (xs : List Text)
    → ((x : Text) → is_plain (g x) ≡ true)
    → AllPlain (map g xs)
map-AllPlain g [] h = tt
map-AllPlain g (x ∷ xs) h = (h x, map-AllPlain g xs h)

pub sysctl_issues-AllPlain : (r : Facts) → AllPlain (sysctl_issues r)
unfolding sysctl_issues
sysctl_issues-AllPlain r =
    map-AllPlain (sysctl_issue r) r.security.sysctl_issues (sysctl_issue-is_plain r)

nopasswd_weight-le : (a b c : Bool) → leb (nopasswd_weight a b c).0 60 ≡ true
unfolding nopasswd_weight
nopasswd_weight-le a b c = ground arith

pub sudo_nopasswd-AllProper : (r : Facts) → AllProper (sudo_nopasswd r)
unfolding sudo_nopasswd is_proper
sudo_nopasswd-AllProper r =
    push_if-All _ _ _ (rw (nopasswd_weight-le (prp_sec005 r) (prp_sec012 r) _) refl)

pub passwordless_all-AllProper : (r : Facts) → AllProper (passwordless_all r)
unfolding passwordless_all is_proper
passwordless_all-AllProper r = push_if-All _ _ _ refl

group_weight-le : (o : Option Text) → leb (group_weight o).0 60 ≡ true
unfolding group_weight
group_weight-le none = refl
group_weight-le (some id) = refl

pub root_groups-AllProper : (r : Facts) → AllProper (root_groups r)
unfolding root_groups is_proper
root_groups-AllProper r = push_if-All _ _ _ (rw (group_weight-le (carrier r)) refl)
