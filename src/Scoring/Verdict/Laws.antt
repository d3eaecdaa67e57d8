-- ===== src/Scoring/Verdict/Laws.antt =====
-- What decides a verdict, and how verdicts of several hosts combine.
use owlzops_mapper.Common.{
  String, Bool, List, [], ◌∷◌, any, ◌≡◌, refl, string_eq, arith, ◌≤◌, true, fun_ext, false,
  contains, filter, ap, ◌↔◌, Any, Any-mono, any→Any, Any→any, ◌==◌, ◌&&◌, ◌||◌, ◌∙◌,
}
use owlzops_mapper.Scoring.Finding.{Finding}
use owlzops_mapper.Scoring.Verdict.{
  SecurityVerdict, rank, worse, live, has, from_findings, security_verdict_from_findings,
  verdict_of, is_live, compromised, CriticalFlags, compromise_ids,
}

-- `worse` is the join of the order by rank: a least upper bound, so that the verdict of a fleet
-- depends neither on the order of the hosts nor on how they are grouped.
pub worse-IsJoin :
    (a b c : SecurityVerdict)
    → (rank a ≤ rank (worse a b))
      × (rank b ≤ rank (worse a b))
      × ((rank (worse a b) ≤ rank c) ↔ ((rank a ≤ rank c) × (rank b ≤ rank c)))
      × (worse a b ≡ worse b a)
      × (worse (worse a b) c ≡ worse a (worse b c))
unfolding worse
worse-IsJoin a b c = ground arith

has-live : (fs : List Finding) (id : String) → has (live fs) id ≡ has fs id
unfolding has live
has-live [] id = refl
has-live (f ∷ fs) id = ground (arith, has-live fs id)

count-live :
    (fs : List Finding)
    → filter (λ (f : Finding). f.id == "SEC-007" && is_live f) (live fs)
      ≡ filter (λ (f : Finding). f.id == "SEC-007" && is_live f) fs
unfolding live
count-live [] = refl
count-live (f ∷ fs) = ground (arith, count-live fs)

has-live_fun : (fs : List Finding) → has (live fs) ≡ has fs
has-live_fun fs = fun_ext (has-live fs)

from_findings-live : (fs : List Finding) → from_findings (live fs) ≡ from_findings fs
unfolding from_findings
from_findings-live fs = rw (has-live_fun fs, count-live fs) refl

-- Dropping the suppressed findings first, as the verdict does, changes nothing: each flag already
-- looks at live findings only.
pub verdict-live :
    (fs : List Finding) → security_verdict_from_findings fs ≡ verdict_of (from_findings fs)
unfolding security_verdict_from_findings
verdict-live fs = ap verdict_of (from_findings-live fs)

-- A live finding with an id of the list.
abbrev pub IsLiveIn : List String → Finding → Type 0
IsLiveIn ids f = (contains ids f.id ≡ true) × (is_live f ≡ true)

any-or :
    (a : String) (l : Bool) (h : String → Bool) (ids : List String)
    → any (λ id. (a == id && l) || h id) ids ≡ (contains ids a && l) || any h ids
any-or a l h [] = refl
any-or a l h (id ∷ ids) =
    ground (arith, any-or a l h ids, string_eq.beq_iff a id, string_eq.beq_iff id a)

any-none : (ids : List String) → any (λ _. false) ids ≡ false
any-none [] = refl
any-none (id ∷ ids) = any-none ids

any-has :
    (ids : List String) (fs : List Finding)
    → any (has fs) ids ≡ any (λ (f : Finding). contains ids f.id && is_live f) fs
unfolding has
any-has ids [] = any-none ids
any-has ids (f ∷ fs) =
    any-or f.id (is_live f) (has fs) ids
    ∙ ap (λ b. contains ids f.id && is_live f || b) (any-has ids fs)

IsLiveIn-iff :
    (ids : List String) (fs : List Finding) → (any (has fs) ids ≡ true) ↔ Any (IsLiveIn ids) fs
IsLiveIn-iff ids fs = rw (any-has ids fs) (
  λ h. Any-mono fs (λ f e. ground arith) (any→Any _ fs h),
  λ h. Any→any _ fs (Any-mono fs (λ f e. ground arith) h),
)

-- Only the flag `compromised_host` gives the worst verdict.
verdict_of-compromised_iff :
    (flags : CriticalFlags) → (verdict_of flags ≡ compromised) ↔ (flags.compromised_host ≡ true)
unfolding verdict_of
verdict_of-compromised_iff flags = ground arith

-- A host is Compromised exactly when a live finding carries one of the compromise ids.
pub verdict-compromised_iff :
    (fs : List Finding)
    → (security_verdict_from_findings fs ≡ compromised) ↔ Any (IsLiveIn compromise_ids) fs
unfolding from_findings
verdict-compromised_iff fs = rw (verdict-live fs) (
  λ h. (IsLiveIn-iff compromise_ids fs).0 ((verdict_of-compromised_iff (from_findings fs)).0 h),
  λ h. (verdict_of-compromised_iff (from_findings fs)).1 ((IsLiveIn-iff compromise_ids fs).1 h),
)
