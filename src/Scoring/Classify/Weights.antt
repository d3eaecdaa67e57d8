-- ===== src/Scoring/Classify/Weights.antt =====
-- When src/scoring.rs gives no weight to a capability set or a set-uid file.
use owlzops_mapper.Common.{
  ℕ, zero, suc, ◌+◌, ◌≤◌, ◌<◌, Bool, true, false, ◌&&◌, ◌||◌, not, ◌≡◌, refl, arith, ◌↔◌, ◌⊎◌, inl,
  inr, contains, is_some, Option-cases, Bool-cases, nat_eq, ◌==◌, if◌then◌else◌, nat_beq_iff, ◌≢◌,
  sym, ◌∙◌, subst, not_true,
}
use owlzops_mapper.Report.Files.{ProvenanceSource, SetuidFinding}
use owlzops_mapper.Scoring.Classify.{
  has_bit, benign_caps, moderate_cap, dangerous_from, ambient_escalation_weight, classify_setuid,
  setuid_weight, is_unattributable, setuid_system_dirs,
}
use owlzops_mapper.Utils.Paths.{starts_with_any}

-- A capability that the set has is a benign one, or the moderate one.
abbrev IsMild : ℕ → ℕ → Type 0
IsMild mask i = has_bit mask i ≡ true → (contains benign_caps i ≡ true) ⊎ (i ≡ moderate_cap)

mild_bit :
    (x y z r : Bool) → (x && not y && not z || r) ≡ false → x ≡ true → (y ≡ true) ⊎ (z ≡ true)
mild_bit x y z r h hx = ground arith

no_bit :
    (x y z r : Bool)
    → (x ≡ true → (y ≡ true) ⊎ (z ≡ true))
    → r ≡ false
    → (x && not y && not z || r) ≡ false
no_bit true true z r h hr = ground arith
no_bit true false z r h hr = ground (arith, h)
no_bit false y z r h hr = ground arith

moderate_test : (i : ℕ) → (i == moderate_cap) ≡ true → i ≡ moderate_cap
moderate_test i = (nat_beq_iff i moderate_cap).0

test_moderate : (i : ℕ) → i ≡ moderate_cap → (i == moderate_cap) ≡ true
test_moderate i = (nat_beq_iff i moderate_cap).1

or_false : (a b : Bool) → (a || b) ≡ false → b ≡ false
or_false a b h = ground arith

-- The first round, and the rounds behind it.
first-IsMild : (n k mask : ℕ) → dangerous_from (suc n) k mask ≡ false → IsMild mask k
unfolding dangerous_from
first-IsMild n k mask h bit =
    elim (mild_bit (has_bit mask k) (contains benign_caps k) (k == moderate_cap) _ h bit) [
      | inl b ↦ inl b
      | inr m ↦ inr (moderate_test k m)
    ]

rest_mild :
    (n k mask : ℕ) → dangerous_from (suc n) k mask ≡ false → dangerous_from n (suc k) mask ≡ false
unfolding dangerous_from
rest_mild n k mask h =
    or_false (has_bit mask k && not (contains benign_caps k) && not (k == moderate_cap)) _ h

dangerous_from→mild :
    (n k mask : ℕ) → dangerous_from n k mask ≡ false → (i : ℕ) → k ≤ i → i < k + n → IsMild mask i
unfolding dangerous_from
dangerous_from→mild zero k mask h i lo hi = absurd (omega arith)
dangerous_from→mild (suc n) k mask h i lo hi = elim (Bool-cases (k == i)) [
  | inl e ↦ subst (IsMild mask) ((nat_beq_iff k i).0 e) (first-IsMild n k mask h)
  | inr e ↦
      let apart : k ≢ i = λ q. ground (arith, e, (nat_beq_iff k i).1 q) in
      dangerous_from→mild n (suc k) mask (rest_mild n k mask h) i (omega (arith, apart, lo))
        (omega (arith, hi))
]

mild→dangerous_from :
    (n k mask : ℕ) → ((i : ℕ) → k ≤ i → i < k + n → IsMild mask i) → dangerous_from n k mask ≡ false
unfolding dangerous_from
mild→dangerous_from zero k mask h = refl
mild→dangerous_from (suc n) k mask h =
    let rest = mild→dangerous_from n (suc k) mask (λ i lo hi. h i (omega arith) (omega arith)) in
    let here = h k (omega arith) (omega arith) in
    no_bit (has_bit mask k) (contains benign_caps k) (k == moderate_cap) _
      (λ bit. elim (here bit) [ inl b ↦ inl b | inr m ↦ inr (test_moderate k m) ]) rest

true≢false : true ≢ false
true≢false e = cc

abbrev weigh : Bool → Bool → ℕ
weigh d m = if d then 12 else if m then 5 else 0

choose : (d m : Bool) → weigh d m ≡ 0 → (d ≡ false) × (m ≡ false)
choose true m h = absurd (omega (arith, h))
choose false true h = absurd (omega (arith, h))
choose false false h = (refl, refl)

zero_danger : (a : ℕ) → ambient_escalation_weight a ≡ 0 → dangerous_from 64 0 a ≡ false
unfolding ambient_escalation_weight
zero_danger a h = (choose (dangerous_from 64 0 a) (has_bit a moderate_cap) h).0

not_moderate : (a : ℕ) → ambient_escalation_weight a ≡ 0 → ¬ (has_bit a moderate_cap ≡ true)
unfolding ambient_escalation_weight
not_moderate a h bit =
    let off = (choose (dangerous_from 64 0 a) (has_bit a moderate_cap) h).1 in
    true≢false (sym bit ∙ off)

moderate_not_benign : ¬ (contains benign_caps moderate_cap ≡ true)
unfolding benign_caps
moderate_not_benign h = cc

weight_zero :
    (a : ℕ)
    → dangerous_from 64 0 a ≡ false
    → ¬ (has_bit a moderate_cap ≡ true)
    → ambient_escalation_weight a ≡ 0
unfolding ambient_escalation_weight
weight_zero a h m = rw (h, not_true m) refl

-- An ambient capability set weighs nothing exactly if all of its 64 possible members are benign.
pub ambient_escalation_weight-zero_iff :
    (ambient : ℕ)
    → (ambient_escalation_weight ambient ≡ 0)
      ↔ ((i : ℕ) → i < 64 → has_bit ambient i ≡ true → contains benign_caps i ≡ true)
unfolding ambient_escalation_weight
ambient_escalation_weight-zero_iff ambient = (
  λ h i hi bit.
      elim (dangerous_from→mild 64 0 ambient (zero_danger ambient h) i (omega arith)
        (omega (arith, hi)) bit) [
          | inl b ↦ b
          | inr m ↦ absurd (not_moderate ambient h (subst (λ k. has_bit ambient k ≡ true) m bit))
        ],
  λ h.
      weight_zero ambient
        (mild→dangerous_from 64 0 ambient (λ i lo hi bit. inl (h i (omega (arith, hi)) bit)))
        (λ bit. absurd (moderate_not_benign (h moderate_cap (omega arith) bit))),
)

setuid_weight-bounds :
    (u d r : Bool)
    → ((setuid_weight u d r).0 ≢ 0)
      × ((setuid_weight u d r).0 ≤ 14)
      × ((setuid_weight u d true).0 ≤ (setuid_weight u d false).0)
unfolding setuid_weight
setuid_weight-bounds u d r = ground arith

-- A set-uid file weighs nothing exactly if a package owns it, never more than 14, and no more when
-- root owns it than when another user does.
pub classify_setuid-bounds :
    (f : SetuidFinding) (source : ProvenanceSource)
    → (((classify_setuid f source).0 ≡ 0) ↔ (is_some f.package_name ≡ true))
      × ((classify_setuid f source).0 ≤ 14)
      × ((classify_setuid (record f { root_owner = true }) source).0
          ≤ (classify_setuid (record f { root_owner = false }) source).0)
unfolding classify_setuid setuid_weight
classify_setuid-bounds f source = elim (Option-cases f.package_name) [
  | inl e ↦ ground (
    arith,
    e,
    setuid_weight-bounds (is_unattributable source) (starts_with_any setuid_system_dirs f.path)
        f.root_owner,
  )
  | inr (p, e) ↦ ground (arith, e)
]
