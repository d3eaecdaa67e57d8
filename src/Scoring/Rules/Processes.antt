-- ===== src/Scoring/Rules/Processes.antt =====
-- src/scoring.rs, `evaluate`: suspicious processes, masking mounts and reverse shells.
use owlzops_mapper.Common.{
  ℕ, Text, codes, ◌||◌, List, [], ◌∷◌, ◌++◌, Option, none, some, if◌then◌else◌, ◌==◌, nat_eq,
  filter, map, length, decimal, is_some, is_none, starts_with,
}
use owlzops_mapper.Utils.Paths.{is_known_malware, is_ambiguous_malware}
use owlzops_mapper.Scoring.Finding.{Finding, Category, Scanner, join}
use owlzops_mapper.Scoring.Rules.Push.{finding, push_if, non_empty, counted}
use owlzops_mapper.Scoring.Rules.Listeners.{critical_holder}
use owlzops_mapper.Report.{Facts}
use owlzops_mapper.Report.Process.{SuspiciousProcess, MountMaskingFinding, ReverseShellFinding}

-- "{name} (pid {pid}{detail})"
abbrev pub with_pid : Text → ℕ → Text → Text
with_pid name pid detail = name ++ codes " (pid " ++ decimal pid ++ detail ++ codes ")"

unfoldable pub known_text : SuspiciousProcess → Text
known_text p = elim p.exe_path [
  | some exe ↦ with_pid p.name p.pid (codes ", " ++ exe)
  | none ↦ with_pid p.name p.pid []
]

unfoldable pub known_malware_running : Facts → List Finding
unfolding known_text is_known_malware is_ambiguous_malware
known_malware_running r =
    let hits =
      filter (λ p. is_known_malware p.name || is_ambiguous_malware p.name)
        r.security.suspicious_processes in
    push_if (non_empty hits) (
      finding "SEC-016" Scanner.security
        (codes "ACTIVE COMPROMISE: known malicious process detected") Category.security 60
        (counted (length hits) (codes " known-bad process(es): ")
          ++ join (map known_text hits) (codes ", "))
        none none)

unfoldable pub deleted : Facts → List SuspiciousProcess
deleted r = filter (λ p. p.is_deleted) r.security.suspicious_processes

-- What `where_` says in SEC-017 and SEC-019.
unfoldable pub deleted_from : SuspiciousProcess → Text
unfolding starts_with
deleted_from p = elim p.exe_path [
  | some exe ↦
      if starts_with exe (codes "/memfd:")
      then codes "executing in-memory (memfd)"
      else codes "deleted from " ++ exe
  | none ↦ codes "deleted"
]

unfoldable pub fileless : Facts → List Finding
unfolding deleted deleted_from
fileless r =
    let found = filter (λ p. is_none p.self_attributed) (deleted r) in
    push_if (non_empty found) (
      finding "SEC-017" Scanner.security
        (codes "ACTIVE COMPROMISE: fileless malware executing from ephemeral path")
        Category.security 60
        (counted (length found) (codes " fileless process(es): ")
          ++ join (map (λ p. with_pid p.name p.pid (codes ", " ++ deleted_from p)) found)
              (codes ", "))
        none none)

unfoldable pub self_text : SuspiciousProcess → Text
self_text p = elim p.exe_path [
  | some exe ↦ with_pid p.name p.pid (codes ", deleted from " ++ exe)
  | none ↦ with_pid p.name p.pid (codes ", deleted")
]

unfoldable pub fileless_self : Facts → List Finding
unfolding deleted self_text
fileless_self r =
    let found = filter (λ p. is_some p.self_attributed) (deleted r) in
    push_if (non_empty found) (
      finding "SEC-032" Scanner.security
        (codes "Scanner self-image: ephemeral privileged execution (attributed)") Category.security
        0
        (counted (length found) (
            codes " process(es) attributed to this scanner by a PID identity established inside "
            ++ codes "the process: ")
          ++ join (map self_text found) (codes "; ")
          ++ codes ". Injection-class findings (SEC-023/026/028/029) against these "
          ++ codes "PIDs are NOT suppressed. See self_integrity for exec-image provenance.")
        (some (
          codes "Unlink-on-exec is this scanner's own deployment footprint. Identity anchored on "
          ++ codes "an unforgeable PID, never on comm/argv. Footprint class only — self address "
          ++ codes "space remains under full injection scrutiny."))
        none)

-- What one deleted process gives to `fileless_priv`.
unfoldable pub privileged_text : Facts → SuspiciousProcess → List Text
unfolding deleted_from critical_holder
privileged_text r p =
    if is_some p.self_attributed
    then []
    else if p.euid == 0
    then (with_pid p.name p.pid (codes ", " ++ deleted_from p)
        ++ codes " (root-run fileless implant, full kernel capabilities by default)")
      ∷ []
    else elim (critical_holder r p.pid) [
      | none ↦ []
      | some c ↦
          (with_pid p.name p.pid (codes ", " ++ deleted_from p)
            ++ codes " holds ["
            ++ join c.critical_caps (codes ", ")
            ++ codes "]")
          ∷ []
    ]

unfoldable pub privileged_texts : Facts → List SuspiciousProcess → List Text
unfolding privileged_text
privileged_texts r [] = []
privileged_texts r (p ∷ ps) = privileged_text r p ++ privileged_texts r ps

unfoldable pub fileless_privileged : Facts → List Finding
unfolding privileged_texts deleted
fileless_privileged r =
    let found = privileged_texts r (deleted r) in
    push_if (non_empty found) (
      finding "SEC-019" Scanner.security
        (codes "ACTIVE COMPROMISE: fileless malware holds critical kernel capabilities")
        Category.security 60
        (counted (length found) (codes " privileged fileless process(es): ")
          ++ join found (codes "; "))
        none none)

unfoldable pub mimic_text : SuspiciousProcess → Text
mimic_text p = elim p.exe_path [
  | some exe ↦ with_pid p.name p.pid (codes ", real exe " ++ exe)
  | none ↦ with_pid p.name p.pid (codes ", kernel-thread name with userspace cmdline")
]

unfoldable pub mimics : Facts → List Finding
unfolding mimic_text
mimics r =
    let found = filter (λ p. p.is_mimic) r.security.suspicious_processes in
    push_if (non_empty found) (
      finding "SEC-020" Scanner.security
        (codes "ACTIVE COMPROMISE: process masquerading as kernel thread") Category.security 60
        (counted (length found) (codes " masquerading process(es): ")
          ++ join (map mimic_text found) (codes "; "))
        none none)

abbrev pub masking_text : MountMaskingFinding → Text
masking_text m = m.target_path ++ codes " [" ++ m.fstype ++ codes "] — " ++ m.reason

unfoldable pub mount_masking : Facts → List Finding
mount_masking r =
    let found = r.security.mount_masking in
    push_if (non_empty found) (
      finding "SEC-021" Scanner.security (codes "ACTIVE COMPROMISE: Bind-mount masking detected")
        Category.security 60
        (counted (length found) (codes " masking mount(s): ")
          ++ join (map masking_text found) (codes "; "))
        none none)

unfoldable pub fd_text : Option ℕ → Text
fd_text none = []
fd_text (some fd) =
    if fd == 0
    then codes " (stdin)"
    else if fd == 1
    then codes " (stdout)"
    else if fd == 2
    then codes " (stderr)"
    else []

unfoldable pub shell_text : ReverseShellFinding → Text
unfolding fd_text
shell_text s = with_pid s.process s.pid [] ++ codes " → " ++ s.remote_address ++ fd_text s.stdio_fd

unfoldable pub reverse_shells : Facts → List Finding
unfolding shell_text
reverse_shells r =
    let found = r.security.reverse_shells in
    push_if (non_empty found) (
      finding "SEC-022" Scanner.security
        (codes "ACTIVE COMPROMISE: Reverse shell / C2 connection detected") Category.security 60
        (counted (length found) (codes " interpreter(s) with outbound socket to a public host: ")
          ++ join (map shell_text found) (codes "; "))
        none none)
