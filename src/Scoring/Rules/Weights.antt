-- ===== src/Scoring/Rules/Weights.antt =====
-- src/scoring.rs, `evaluate`: the weights of its findings.
use owlzops_mapper.Common.{
  true≢false, sym, ◌∙◌, drop, ◌≤◌, Text, Bool, Bool-cases, true, false, not, ◌&&◌, ◌||◌, List, [],
  ◌∷◌, Option, none, some, ◌≡◌, refl, arith, ◌⊎◌, inl, inr, All, All-mono, All-append, Any,
  contains, string_eq, filter, map, leb, leb→le, is_none, ◌==◌,
}
use owlzops_mapper.Utils.Provenance.{Host}
use owlzops_mapper.Report.{Facts, AgentReport}
use owlzops_mapper.Scoring.Finding.{Finding, Category, finding_from_failed_scanner}
use owlzops_mapper.Scoring.Verdict.{
  compromise_ids, compromised, security_verdict_from_findings, is_live,
}
use owlzops_mapper.Scoring.Verdict.Laws.{IsLiveIn, verdict-compromised_iff}
use owlzops_mapper.Scoring.Score.{score}
use owlzops_mapper.Scoring.Score.Sum.{live_weight, share, score_exact}
use owlzops_mapper.Scoring.Rules.{host_findings, evaluate, scanner_panicked}
use owlzops_mapper.Scoring.Rules.Push.{concat}
use owlzops_mapper.Scoring.Rules.Plain.{AllPlain, AllProper, is_plain, is_proper, is_security}
use owlzops_mapper.Scoring.Rules.Plain.Access.{
  firewall_inactive-AllPlain, ssh_root_login-AllPlain, security_updates-AllPlain,
  certificate_expiring-AllPlain, ssh_password_auth-AllPlain, root_with_password-AllPlain,
  noncompliant_keys-AllPlain,
}
use owlzops_mapper.Scoring.Rules.Plain.Sudo.{
  sudo_nopasswd-AllProper, sudoers_mode-AllPlain, sysctl_issues-AllPlain,
  passwordless_all-AllProper, root_groups-AllProper,
}
use owlzops_mapper.Scoring.Rules.Plain.Later.{later_rules-AllPlain}

-- At most 60 points; and with a compromise id at least 55 of the security axis, not suppressed.
abbrev pub IsWeighed : Finding → Type 0
IsWeighed f =
    (f.weight ≤ 60)
    × ((contains compromise_ids f.id ≡ false)
        ⊎ ((55 ≤ f.weight) × (f.suppressed ≡ none) × (f.category ≡ Category.security)))

is_none→eq : (o : Option Text) → is_none o ≡ true → o ≡ none
is_none→eq none h = refl
is_none→eq (some t) h = absurd (cc)

is_security→eq : (c : Category) → is_security c ≡ true → c ≡ Category.security
is_security→eq Category.security h = refl
is_security→eq Category.reliability h = absurd (cc)
is_security→eq Category.hygiene h = absurd (cc)

proper_parts :
    (a b c d e g : Bool)
    → (a && not b && (not c || d && e && g)) ≡ true
    → (a ≡ true) × ((c ≡ false) ⊎ ((d ≡ true) × (e ≡ true) × (g ≡ true)))
proper_parts a b c d e g h = ground arith

is_proper-IsWeighed : (f : Finding) → is_proper f ≡ true → IsWeighed f
unfolding is_proper
is_proper-IsWeighed f h =
    let parts =
      proper_parts (leb f.weight 60) (f.id == "COV-001") (contains compromise_ids f.id)
        (leb 55 f.weight) (is_none f.suppressed) (is_security f.category) h in
    (
      leb→le f.weight 60 parts.0,
      elim parts.1 [
        | inl n ↦ inl n
        | inr (d, e, g) ↦
            inr (leb→le 55 f.weight d, is_none→eq f.suppressed e, is_security→eq f.category g)
      ],
    )

and-left : (a b : Bool) → (a && b) ≡ true → a ≡ true
and-left a b h = ground arith

pub is_plain-is_proper : (xs : List Finding) → AllPlain xs → AllProper xs
unfolding is_plain
is_plain-is_proper xs h = All-mono xs (λ f p. and-left _ _ p) h

pub concat-AllProper : (xss : List (List Finding)) → All AllProper xss → AllProper (concat xss)
concat-AllProper [] h = tt
concat-AllProper (xs ∷ xss) h =
    All-append (λ f. is_proper f ≡ true) xs (concat xss) h.0 (concat-AllProper xss h.1)

pub All-filter :
    (P : Finding → Type 0) (p : Finding → Bool) (xs : List Finding) → All P xs → All P (filter p xs)
All-filter P p [] h = tt
All-filter P p (x ∷ xs) h = elim (Bool-cases (p x)) [
  | inl e ↦ rw e (h.0, All-filter P p xs h.1)
  | inr e ↦ rw e (All-filter P p xs h.1)
]

scanner_panicked-IsWeighed : (ns : List Text) → All IsWeighed (map scanner_panicked ns)
unfolding scanner_panicked compromise_ids
scanner_panicked-IsWeighed [] = tt
scanner_panicked-IsWeighed (n ∷ ns) = ((omega arith, inl refl), scanner_panicked-IsWeighed ns)

-- A live finding of the security axis weighs on it.
share-le :
    (f : Finding)
    → is_live f ≡ true
    → f.category ≡ Category.security
    → f.weight ≤ share Category.security f
unfolding share
share-le f l c = rw c (ground (arith, l))

live_weight-le :
    (fs : List Finding)
    → All IsWeighed fs
    → Any (IsLiveIn compromise_ids) fs
    → 55 ≤ live_weight Category.security fs
unfolding live_weight
live_weight-le [] h a = absurd a
live_weight-le (f ∷ fs) h (inl (i, l)) = elim h.0.1 [
  | inl n ↦ absurd (true≢false (sym i ∙ n))
  | inr (d, e, g) ↦ omega (arith, d, share-le f l g)
]
live_weight-le (f ∷ fs) h (inr a) = omega (arith, live_weight-le fs h.1 a)

module _ (host : Host) (file_name : Text → Text) (bucket_order : List Text → List Text) where
  pub host_findings-AllProper :
      (r : Facts) → All AllProper (host_findings host file_name bucket_order r)
  unfolding host_findings
  host_findings-AllProper r = (
    is_plain-is_proper _ (firewall_inactive-AllPlain r),
    (
      is_plain-is_proper _ (ssh_root_login-AllPlain r),
      (
        is_plain-is_proper _ (security_updates-AllPlain r),
        (
          is_plain-is_proper _ (certificate_expiring-AllPlain r),
          (
            sudo_nopasswd-AllProper r,
            (
              is_plain-is_proper _ (sudoers_mode-AllPlain r),
              (
                is_plain-is_proper _ (sysctl_issues-AllPlain r),
                (
                  is_plain-is_proper _ (ssh_password_auth-AllPlain r),
                  (
                    is_plain-is_proper _ (root_with_password-AllPlain r),
                    (
                      is_plain-is_proper _ (noncompliant_keys-AllPlain r),
                      (
                        passwordless_all-AllProper r,
                        (
                          root_groups-AllProper r,
                          All-mono (drop 12 (host_findings host file_name bucket_order r))
                              (λ xs. is_plain-is_proper xs)
                              (later_rules-AllPlain host file_name bucket_order r),
                        ),
                      ),
                    ),
                  ),
                ),
              ),
            ),
          ),
        ),
      ),
    ),
  )

  -- Whatever the report says, no finding weighs more than 60 points; and one with a compromise id
  -- weighs at least 55, on the security axis, and is not suppressed.
  pub evaluate-IsWeighed :
      (report : AgentReport Facts) → All IsWeighed (evaluate host file_name bucket_order report)
  unfolding evaluate
  evaluate-IsWeighed report =
      let found = concat (host_findings host file_name bucket_order report.facts) in
      All-append IsWeighed
        (filter (λ f. not (finding_from_failed_scanner f report.failed_scanners)) found)
        (map scanner_panicked report.failed_scanners)
        (All-filter IsWeighed (λ f. not (finding_from_failed_scanner f report.failed_scanners))
          found
          (All-mono found is_proper-IsWeighed (
            concat-AllProper (host_findings host file_name bucket_order report.facts)
              (host_findings-AllProper report.facts))))
        (scanner_panicked-IsWeighed report.failed_scanners)

  -- A report whose verdict is Compromised scores at least 55.
  pub evaluate-compromised_score :
      (report : AgentReport Facts)
      → security_verdict_from_findings (evaluate host file_name bucket_order report) ≡ compromised
      → 55 ≤ (score (evaluate host file_name bucket_order report)).total
  evaluate-compromised_score report v =
      let fs = evaluate host file_name bucket_order report in
      let heavy =
        live_weight-le fs (evaluate-IsWeighed report) ((verdict-compromised_iff fs).0 v) in
      let exact = score_exact fs in omega (arith, heavy, exact.0, exact.1, exact.2, exact.3)
