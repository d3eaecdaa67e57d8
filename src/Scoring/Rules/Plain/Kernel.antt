-- ===== src/Scoring/Rules/Plain/Kernel.antt =====
-- src/scoring.rs, `evaluate`: the findings on the kernel.
use owlzops_mapper.Common.{
  Text, List, Option, none, some, ◌≡◌, refl, if◌then◌else◌, true, false, Bool, ◌∷◌, [],
}
use owlzops_mapper.Report.{Facts}
use owlzops_mapper.Scoring.Finding.{Finding}
use owlzops_mapper.Scoring.Rules.Plain.{plain, AllPlain, push_if-AllPlain, is_plain, if-is_plain}
use owlzops_mapper.Scoring.Rules.Kernel.{
  taint_tampering, kernel_taint, cpu_mitigations, confinement, hidden_modules, unattributed_hooks,
  ftrace_hooks, core_pattern_of, core_pattern, lockdown_of, lockdown,
}

pub cpu_mitigations-AllPlain : (r : Facts) → AllPlain (cpu_mitigations r)
unfolding cpu_mitigations is_plain
cpu_mitigations-AllPlain r = push_if-AllPlain _ _ refl

pub confinement-AllPlain : (r : Facts) → AllPlain (confinement r)
unfolding confinement is_plain
confinement-AllPlain r = search plain

pub hidden_modules-AllPlain : (r : Facts) → AllPlain (hidden_modules r)
unfolding hidden_modules is_plain
hidden_modules-AllPlain r = push_if-AllPlain _ _ refl

unattributed_hooks-is_plain : (r : Facts) → is_plain (unattributed_hooks r) ≡ true
unfolding unattributed_hooks is_plain
unattributed_hooks-is_plain r = search if-is_plain

pub ftrace_hooks-AllPlain : (r : Facts) → AllPlain (ftrace_hooks r)
unfolding ftrace_hooks
ftrace_hooks-AllPlain r = push_if-AllPlain _ _ (unattributed_hooks-is_plain r)

core_pattern_of-AllPlain : (o : Option Text) → AllPlain (core_pattern_of o)
unfolding core_pattern_of is_plain
core_pattern_of-AllPlain none = tt
core_pattern_of-AllPlain (some t) = push_if-AllPlain _ _ refl

pub core_pattern-AllPlain : (r : Facts) → AllPlain (core_pattern r)
unfolding core_pattern
core_pattern-AllPlain r = core_pattern_of-AllPlain r.security.core_pattern

lockdown_of-AllPlain : (o : Option Text) → AllPlain (lockdown_of o)
unfolding lockdown_of is_plain
lockdown_of-AllPlain none = tt
lockdown_of-AllPlain (some t) = push_if-AllPlain _ _ refl

pub lockdown-AllPlain : (r : Facts) → AllPlain (lockdown r)
unfolding lockdown
lockdown-AllPlain r = lockdown_of-AllPlain r.security.lockdown

if-AllPlain :
    (c : Bool) (xs ys : List Finding) → AllPlain xs → AllPlain ys → AllPlain (if c then xs else ys)
if-AllPlain true xs ys h k = h
if-AllPlain false xs ys h k = k

taint_tampering-is_plain : (c : Bool) (t : Text) → is_plain (taint_tampering c t) ≡ true
unfolding taint_tampering is_plain
taint_tampering-is_plain true t = refl
taint_tampering-is_plain false t = refl

one-AllPlain : (f : Finding) → is_plain f ≡ true → AllPlain (f ∷ [])
one-AllPlain f h = (h, tt)

pub kernel_taint-AllPlain : (r : Facts) → AllPlain (kernel_taint r)
unfolding kernel_taint is_plain
kernel_taint-AllPlain r =
    search (if-AllPlain, one-AllPlain, taint_tampering-is_plain, push_if-AllPlain)
