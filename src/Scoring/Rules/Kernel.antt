-- ===== src/Scoring/Rules/Kernel.antt =====
-- src/scoring.rs, `evaluate`: taint, mitigations, confinement, hidden modules and ftrace hooks.
use owlzops_mapper.Common.{
  ℕ, Text, codes, Bool, true, false, not, ◌&&◌, ◌||◌, List, [], ◌∷◌, ◌++◌, none, some,
  if◌then◌else◌, ◌==◌, nat_eq, text_eq, any, filter, map, length, decimal, contains, contains_text,
  starts_with, strip_prefix, Option,
}
use owlzops_mapper.Scoring.Finding.{Finding, Category, Scanner, join, evidence_list}
use owlzops_mapper.Scoring.Classify.{core_pattern_is_trusted}
use owlzops_mapper.Scoring.Rules.Push.{finding, push_if, non_empty, counted, is_some_and}
use owlzops_mapper.Scoring.Rules.Processes.{with_pid}
use owlzops_mapper.Report.{Facts}
use owlzops_mapper.Report.Kernel.{FtraceHook, HiddenModule, ComplainProc}

unfoldable pub has_taint : Facts → ℕ → Bool
has_taint r c = any (λ f. f.code == c) r.security.kernel_taint.flags

unfoldable pub hidden_module : Facts → Bool
hidden_module r = non_empty r.security.kernel_modules.hidden_candidates

unfoldable pub flags_text : Facts → Text
flags_text r =
    join
      (map (λ f. f.name ++ codes " (" ++ (f.code ∷ []) ++ codes ")")
        (filter (λ f. f.security_relevant || f.code == b'O') r.security.kernel_taint.flags))
      (codes ", ")

abbrev pub taint_note : Bool → ℕ × Text
taint_note true = (
  25,
  codes " CORRELATED with a module hidden from /proc/modules (SEC-040) — "
      ++ codes "strong LKM-rootkit signal.",
)
taint_note false = (10, codes " Force-loaded/-unloaded or test module — unusual on a server.")

unfoldable pub taint_tampering : Bool → Text → Finding
taint_tampering correlated shown =
    finding "SEC-038" Scanner.security (codes "Kernel taint indicates module tampering")
      Category.security (taint_note correlated).0 (shown ++ codes "." ++ (taint_note correlated).1)
      none none

unfoldable pub kernel_taint : Facts → List Finding
unfolding has_taint hidden_module flags_text taint_tampering
kernel_taint r =
    let forced = has_taint r b'F' || has_taint r b'R' || has_taint r b'N' in
    let unsigned_or_oot = has_taint r b'E' || has_taint r b'O' in
    let correlated = unsigned_or_oot && hidden_module r in
    let shown =
      codes "/proc/sys/kernel/tainted = "
      ++ decimal r.security.kernel_taint.raw
      ++ codes ": "
      ++ flags_text r in
    if forced || correlated
    then taint_tampering correlated shown ∷ []
    else push_if unsigned_or_oot (
        finding "SEC-038" Scanner.security
          (codes "Kernel tainted by unsigned/out-of-tree module (informational)") Category.security
          0 shown
          (some (
            codes "Unsigned or out-of-tree modules are normal for third-party drivers "
            ++ codes "(nvidia, dkms, virtualbox). This escalates to a weighted finding only when "
            ++ codes "correlated with a hidden module (SEC-040) or when it appears as drift."))
          none)

unfoldable pub cpu_mitigations : Facts → List Finding
unfolding evidence_list
cpu_mitigations r =
    let unmitigated =
      map (λ v. v.name ++ codes ": " ++ v.status)
        (filter (λ v. v.vulnerable) r.security.cpu_vulnerabilities) in
    push_if (non_empty unmitigated) (
      finding "SEC-060" Scanner.security
        (codes "CPU speculative-execution mitigations disabled or absent") Category.security 0
        (counted (length unmitigated) (codes " unmitigated: ") ++ evidence_list unmitigated 6)
        (some (
          codes "Informational: `mitigations=off` is a deliberate performance trade on "
          ++ codes "some fleets. Escalates only as drift "
          ++ codes "(a mitigation that was on and went off)."))
        none)

abbrev pub complain_text : ComplainProc → Text
complain_text p = with_pid p.comm p.pid (codes ", profile " ++ p.profile)

unfoldable pub confinement : Facts → List Finding
confinement r =
    let c = r.security.confinement in
    push_if c.selinux_permissive (
      finding "SEC-039" Scanner.security
        (codes "SELinux running in permissive mode (not enforcing)") Category.security 15
        (codes "SELinux is loaded but in permissive mode — policy violations are "
          ++ codes "logged, not blocked.")
        none none)
    ++ push_if (non_empty c.complain_profiles) (
        finding "SEC-039" Scanner.security
          (codes "AppArmor profiles in complain mode (informational)") Category.security 0
          (counted (length c.complain_profiles) (codes " profile(s) defined but not enforcing: ")
            ++ join (map complain_text c.complain_profiles) (codes "; "))
          (some (
            codes "Complain mode is frequently an intentional baseline for services whose "
            ++ codes "vendor profile is too strict (e.g. named/BIND under a control panel). A "
            ++ codes "regression from enforce→complain is surfaced as drift by `compare`."))
          none)

abbrev pub hidden_text : HiddenModule → Text
hidden_text h = h.name ++ codes " (seen in " ++ join h.seen_in (codes "+") ++ codes ")"

unfoldable pub hidden_modules : Facts → List Finding
unfolding hidden_module
hidden_modules r =
    let found = r.security.kernel_modules.hidden_candidates in
    push_if (hidden_module r) (
      finding "SEC-040" Scanner.security
        (codes "ACTIVE COMPROMISE: kernel module hidden from /proc/modules") Category.security 55
        (counted (length found) (
            codes " module(s) live in sysfs/kallsyms but scrubbed from /proc/modules "
            ++ codes "(module_list unlink — Diamorphine-class LKM rootkit): ")
          ++ join (map hidden_text found) (codes "; "))
        none none)

unfoldable pub describe_hooks : List FtraceHook → Text
describe_hooks hooks =
    join (map (λ h. h.function ++ codes " (via " ++ h.callback ++ codes ")") hooks) (codes "; ")

-- The callback is of a module that is hidden.
unfoldable pub is_correlated : Facts → FtraceHook → Bool
unfolding strip_prefix
is_correlated r h =
    is_some_and (λ m. contains (map (λ c. c.name) r.security.kernel_modules.hidden_candidates) m)
      (strip_prefix h.callback (codes "module:"))

unfoldable pub is_module_backed : FtraceHook → Bool
unfolding starts_with contains_text
is_module_backed h =
    starts_with h.callback (codes "module:") && not (contains_text h.callback (codes "unresolved"))

unfoldable pub unattributed_hooks : Facts → Finding
unfolding is_correlated is_module_backed describe_hooks
unattributed_hooks r =
    let inv = r.security.ftrace_hooks in
    let hooks = inv.unattributed_syscall_hooks in
    let correlated = filter (is_correlated r) hooks in
    if non_empty correlated
    then finding "SEC-041" Scanner.security
        (codes "ACTIVE COMPROMISE: syscall ftrace-hooked by a hidden module") Category.security 55
        (counted (length correlated) (
            codes " syscall entry point(s) ftrace-hooked by a module hidden from "
            ++ codes "/proc/modules (SEC-040 correlated — ftrace-rootkit): ")
          ++ describe_hooks correlated)
        none none
    else if inv.attribution_degraded && not (any is_module_backed hooks)
    then finding "SEC-041" Scanner.security
        (codes "Unattributed ftrace hooks on syscalls (attribution degraded)") Category.security 0
        (counted (length hooks) (
            codes " syscall entry point(s) carry an ftrace_ops whose callback could not "
            ++ codes "be resolved (kptr_restrict): ")
          ++ describe_hooks hooks)
        (some (
          codes "kptr_restrict hides the ftrace callback, so a legitimate BPF/kprobe source "
          ++ codes "cannot be ruled out. Lower kptr_restrict for attribution, or rely on drift "
          ++ codes "(a NEW hook between snapshots is weighted regardless)."))
        none
    else finding "SEC-041" Scanner.security
        (codes "Unexplained ftrace hook on a syscall entry point") Category.security 30
        (counted (length hooks) (
            codes " syscall entry point(s) ftrace-hooked with no BPF/kprobe/livepatch source "
            ++ codes "and no active tracer — verify the owning module (EDR?) or investigate: ")
          ++ describe_hooks hooks)
        none none

unfoldable pub ftrace_hooks : Facts → List Finding
unfolding unattributed_hooks
ftrace_hooks r =
    let inv = r.security.ftrace_hooks in
    push_if (not inv.live_tracer_active && non_empty inv.unattributed_syscall_hooks)
      (unattributed_hooks r)

unfoldable pub core_pattern_of : Option Text → List Finding
unfolding core_pattern_is_trusted
core_pattern_of none = []
core_pattern_of (some cp) = push_if (not (core_pattern_is_trusted cp)) (
    finding "SEC-044" Scanner.persistence
      (codes "Suspicious core_pattern (piped to unknown handler)") Category.security 25
      (codes "core_pattern = " ++ cp) none none)

unfoldable pub core_pattern : Facts → List Finding
unfolding core_pattern_of
core_pattern r = core_pattern_of r.security.core_pattern

unfoldable pub lockdown_of : Option Text → List Finding
lockdown_of none = []
lockdown_of (some lock) = push_if (lock == codes "none") (
    finding "SEC-044" Scanner.persistence (codes "Kernel lockdown is inactive") Category.security 0
      (codes "lockdown = none")
      (some (
        codes "Kernel lockdown is not enabled. Consider setting lockdown=integrity "
        ++ codes "in kernel command line to restrict userspace access to kernel memory."))
      none)

unfoldable pub lockdown : Facts → List Finding
unfolding lockdown_of
lockdown r = lockdown_of r.security.lockdown
