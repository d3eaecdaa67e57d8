-- ===== src/Acceptance/Apply.antt =====
-- src/acceptance.rs: `Acceptances::apply` and `accepted_count`.
pub mod Keeps
pub mod Silence
use owlzops_mapper.Common.{
  ℕ, Text, codes, trim, starts_with, Bool, false, ◌&&◌, List, [], ◌∷◌, ◌++◌, Option, none, some,
  ◌==◌, string_eq, if◌then◌else◌, filter, find, length, ltb,
}
use owlzops_mapper.Scoring.Finding.{Finding}
use owlzops_mapper.Acceptance.Glob.{glob_match}
use owlzops_mapper.Acceptance.Rules.{AcceptRule, Chrono, parse_expiry}

abbrev pub accepted_marker : Text
accepted_marker = codes "ACCEPTED:"

abbrev pub ticket_suffix : Option Text → Text
ticket_suffix none = []
ticket_suffix (some t) = codes ", " ++ t

abbrev pub after_marker : AcceptRule → Text
after_marker rule =
    codes " "
    ++ (trim rule.justification
        ++ (codes " (until " ++ (rule.expires ++ (ticket_suffix rule.ticket ++ codes ")"))))

-- The note that an accepted finding carries.
unfoldable pub acceptance_note : AcceptRule → Text
acceptance_note rule = accepted_marker ++ after_marker rule

unfoldable pub expired_note : Finding → Text → AcceptRule → Text
expired_note f hostname rule =
    codes "acceptance for "
    ++ (codes f.id
        ++ (codes " on "
            ++ (hostname
                ++ (codes " expired on " ++ (rule.expires ++ codes " — finding is live again")))))

abbrev pub or_now : ℕ → Option ℕ → ℕ
or_now now none = now
or_now now (some t) = t

module _ (chrono : Chrono) (now : ℕ) (rules : List AcceptRule) (hostname : Text) where
  -- The first rule for the finding on this host.
  unfoldable pub rule_for : Finding → Option AcceptRule
  rule_for f = find (λ (r : AcceptRule). r.finding_id == f.id && glob_match r.host hostname) rules

  -- One round of the loop: the finding as it is left, and the notes pushed.
  unfoldable pub apply_rule : Finding → AcceptRule → Finding × List Text
  apply_rule f rule =
      if ltb (or_now now (parse_expiry chrono rule.expires)) now
      then (f, expired_note f hostname rule ∷ [])
      else (record f { suppressed = some (acceptance_note rule) }, [])

  unfoldable pub apply_finding : Finding → Finding × List Text
  apply_finding f = elim f.suppressed [
    | some reason ↦ (f, [])
    | none ↦ elim (rule_for f) [ none ↦ (f, []) | some rule ↦ apply_rule f rule ]
  ]

  unfoldable pub apply : List Finding → List Finding × List Text
  apply [] = ([], [])
  apply (f ∷ fs) =
      let rest = apply fs in let head = apply_finding f in (head.0 ∷ rest.0, head.1 ++ rest.1)

-- The finding carries the marker of this policy, and not one of a scanner's.
unfoldable pub is_accepted : Finding → Bool
unfolding starts_with
is_accepted f = elim f.suppressed [ none ↦ false | some s ↦ starts_with s accepted_marker ]

unfoldable pub accepted_count : List Finding → ℕ
unfolding is_accepted
accepted_count findings = length (filter is_accepted findings)
