-- ===== src/Acceptance/Rules/Checked.antt =====
-- src/acceptance.rs: which policies `load` accepts, and which rule a refusal names.
use owlzops_mapper.Common.{
  true, ℕ, suc, ◌+◌, ◌≤◌, Text, as_bytes, trim, false, List, [], ◌∷◌, ◌++◌, Option, none, some, ◌≡◌,
  ◌≢◌, refl, length, All, arith, is_none, Option-cases, ◌↔◌, string_eq, inl, inr, ap, sym, ◌∙◌,
  subst,
}
use owlzops_mapper.Acceptance.Rules.{
  AcceptRule, Chrono, RuleError, LoadError, bad_rule, ok, err, is_never_acceptable, parse_expiry,
  min_justification, check_rule, check_rules, load, Bool,
}

-- A rule that may be applied: it names a finding that may be accepted, with a reason and an expiry.
pub record IsAcceptable (chrono : Chrono) (r : AcceptRule) : Type 0 where
  pub named : r.finding_id ≢ ""
  pub allowed : is_never_acceptable r.finding_id ≡ false
  pub reasoned : min_justification ≤ length (as_bytes (trim r.justification))
  pub dated : is_none (parse_expiry chrono r.expires) ≡ false

module _ (chrono : Chrono) where
  check_rule→IsAcceptable : (r : AcceptRule) → check_rule chrono r ≡ none → IsAcceptable chrono r
  unfolding check_rule
  check_rule→IsAcceptable r h = record {
    named = ground (arith, string_eq.beq_iff r.finding_id "");
    allowed = ground arith;
    reasoned = ground arith;
    dated = ground arith;
  }

  check_rule_complete : (r : AcceptRule) → IsAcceptable chrono r → check_rule chrono r ≡ none
  unfolding check_rule
  check_rule_complete r v = ground (arith, string_eq.beq_iff r.finding_id "")

  check_rules→All :
      (i : ℕ) (rs : List AcceptRule) → check_rules chrono i rs ≡ none → All (IsAcceptable chrono) rs
  unfolding check_rules
  check_rules→All i [] h = tt
  check_rules→All i (r ∷ rs) h = elim (Option-cases (check_rule chrono r)) [
    | inl e ↦ (check_rule→IsAcceptable r e, check_rules→All (suc i) rs (ground (arith, e)))
    | inr (x, e) ↦ absurd (ground (arith, e))
  ]

  All→check_rules :
      (i : ℕ) (rs : List AcceptRule) → All (IsAcceptable chrono) rs → check_rules chrono i rs ≡ none
  unfolding check_rules
  All→check_rules i [] h = refl
  All→check_rules i (r ∷ rs) h =
      ground (arith, check_rule_complete r h.0, All→check_rules (suc i) rs h.1)

  -- A refusal splits the list at the first bad rule.
  check_rules-err :
      (i : ℕ) (rs : List AcceptRule) {e : LoadError}
      → check_rules chrono i rs ≡ some e
      → (before : List AcceptRule) × (r : AcceptRule) × (after : List AcceptRule) × (x : RuleError)
        × (rs ≡ before ++ r ∷ after)
        × All (IsAcceptable chrono) before
        × (check_rule chrono r ≡ some x)
        × (e ≡ bad_rule (i + (length before + 1)) x)
  unfolding check_rules
  check_rules-err i [] h = absurd (cc)
  check_rules-err i (r ∷ rs) {e} h = elim (Option-cases (check_rule chrono r)) [
    | inr (x, q) ↦ ([], r, rs, x, refl, tt, q, ground (arith, q))
    | inl q ↦
        let (before, r', after, x, split, good, bad, at) =
          check_rules-err (suc i) rs {e = e} (ground (arith, q)) in
        (
          r ∷ before,
          r',
          after,
          x,
          ap (λ t. r ∷ t) split,
          (check_rule→IsAcceptable r q, good),
          bad,
          at ∙ ap (λ n. bad_rule n x) (omega arith),
        )
  ]

module _ (chrono : Chrono) (from_str : Text → Option (List AcceptRule)) where
  -- `load` accepts a file that was read whole and parsed exactly when every rule is acceptable,
  -- and then it keeps the rules as they are.
  pub load-ok_iff :
      (text : Text) (rules : List AcceptRule)
      → from_str text ≡ some rules
      → (load chrono from_str (some (text, false)) ≡ ok rules) ↔ All (IsAcceptable chrono) rules
  unfolding load
  load-ok_iff text rules parsed = (
    λ h. elim (Option-cases (check_rules chrono 0 rules)) [
      | inl e ↦ check_rules→All chrono 0 rules e
      | inr (x, e) ↦ absurd (ground (arith, parsed, e))
    ],
    λ h. ground (arith, parsed, All→check_rules chrono 0 rules h),
  )

  -- Whatever was read, the rules of a policy that `load` returns are acceptable.
  pub load→All :
      (read : Option (Text × Bool)) {rules : List AcceptRule}
      → load chrono from_str read ≡ ok rules
      → All (IsAcceptable chrono) rules
  unfolding load
  load→All none h = absurd (cc)
  load→All (some (t, true)) h = absurd (cc)
  load→All (some (t, false)) {rules} h = elim (Option-cases (from_str t)) [
    | inl e ↦ absurd (ground (arith, e))
    | inr (rs, e) ↦ elim (Option-cases (check_rules chrono 0 rs)) [
      | inl q ↦
          let same : rs ≡ rules = ground (arith, e, q) in
          subst (All (IsAcceptable chrono)) same (check_rules→All chrono 0 rs q)
      | inr (x, q) ↦ absurd (ground (arith, e, q))
    ]
  ]

  -- Otherwise the refusal names the first rule that is not acceptable, counted from 1, and the
  -- check that it fails.
  pub load-bad_rule :
      (text : Text) (rules : List AcceptRule) (n : ℕ) (x : RuleError)
      → from_str text ≡ some rules
      → load chrono from_str (some (text, false)) ≡ err (bad_rule n x)
      → (before : List AcceptRule) × (r : AcceptRule) × (after : List AcceptRule) × (rules
          ≡ before ++ r ∷ after)
        × All (IsAcceptable chrono) before
        × (check_rule chrono r ≡ some x)
        × (n ≡ length before + 1)
  unfolding load
  load-bad_rule text rules n x parsed h = elim (Option-cases (check_rules chrono 0 rules)) [
    | inl e ↦ absurd (ground (arith, parsed, e))
    | inr (y, e) ↦
        let (before, r, after, z, split, good, bad, at) = check_rules-err chrono 0 rules e in
        let same : y ≡ bad_rule n x = ground (arith, parsed, e) in
        let both : bad_rule n x ≡ bad_rule (length before + 1) z =
          sym same ∙ at ∙ ap (λ k. bad_rule k z) (omega arith) in
        (before, r, after, split, good, bad ∙ ap some (cc both), cc both)
  ]
