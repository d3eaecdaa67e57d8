-- ===== src/Scoring/Rules/Capabilities.antt =====
-- src/scoring.rs, `evaluate`: capabilities of processes and of containers, with the tables of
-- src/scanners/capabilities.rs. A mask is a number, read bit by bit.
use owlzops_mapper.Common.{
  ℕ, zero, suc, ◌+◌, ◌-◌, ◌^◌, Text, codes, Bool, not, ◌&&◌, ◌||◌, List, [], ◌∷◌, ◌++◌, Option,
  none, some, if◌then◌else◌, ◌==◌, nat_eq, any, filter, map, length, take, drop, decimal, is_some,
  ltb, trim, eq_ignore_ascii_case, get_elem?,
}
use owlzops_mapper.Utils.Paths.{is_wildcard_bind}
use owlzops_mapper.Utils.Provenance.{PortInfo}
use owlzops_mapper.Scoring.Finding.{Finding, Category, Scanner, join}
use owlzops_mapper.Scoring.Classify.{has_bit, ambient_escalation_weight}
use owlzops_mapper.Scoring.Rules.Push.{
  finding, push_if, non_empty, counted, or_else, is_some_and, max_of,
}
use owlzops_mapper.Report.{Facts}
use owlzops_mapper.Report.Process.{ProcCapFinding}

unfoldable pub cap_names : List Text
cap_names = map codes (
    "CAP_CHOWN" ∷ "CAP_DAC_OVERRIDE" ∷ "CAP_DAC_READ_SEARCH" ∷ "CAP_FOWNER" ∷ "CAP_FSETID"
    ∷ "CAP_KILL" ∷ "CAP_SETGID" ∷ "CAP_SETUID" ∷ "CAP_SETPCAP" ∷ "CAP_LINUX_IMMUTABLE"
    ∷ "CAP_NET_BIND_SERVICE" ∷ "CAP_NET_BROADCAST" ∷ "CAP_NET_ADMIN" ∷ "CAP_NET_RAW"
    ∷ "CAP_IPC_LOCK" ∷ "CAP_IPC_OWNER" ∷ "CAP_SYS_MODULE" ∷ "CAP_SYS_RAWIO" ∷ "CAP_SYS_CHROOT"
    ∷ "CAP_SYS_PTRACE" ∷ "CAP_SYS_PACCT" ∷ "CAP_SYS_ADMIN" ∷ "CAP_SYS_BOOT" ∷ "CAP_SYS_NICE"
    ∷ "CAP_SYS_RESOURCE" ∷ "CAP_SYS_TIME" ∷ "CAP_SYS_TTY_CONFIG" ∷ "CAP_MKNOD" ∷ "CAP_LEASE"
    ∷ "CAP_AUDIT_WRITE" ∷ "CAP_AUDIT_CONTROL" ∷ "CAP_SETFCAP" ∷ "CAP_MAC_OVERRIDE" ∷ "CAP_MAC_ADMIN"
    ∷ "CAP_SYSLOG" ∷ "CAP_WAKE_ALARM" ∷ "CAP_BLOCK_SUSPEND" ∷ "CAP_AUDIT_READ" ∷ "CAP_PERFMON"
    ∷ "CAP_BPF" ∷ "CAP_CHECKPOINT_RESTORE" ∷ [])

-- The bits from `i` on, `n` of them.
unfoldable pub decode_from : ℕ → ℕ → ℕ → List Text
unfolding cap_names
decode_from zero i mask = []
decode_from (suc n) i mask =
    let rest = decode_from n (suc i) mask in
    if has_bit mask i
    then or_else (get_elem? cap_names i) (codes "CAP_" ++ decimal i) ∷ rest
    else rest

unfoldable pub decode_mask : ℕ → List Text
unfolding decode_from
decode_mask mask = decode_from 64 0 mask

unfoldable pub moby_default_caps : ℕ
moby_default_caps = 2818844155

unfoldable pub container_escape_caps : List (ℕ × Text)
container_escape_caps =
    (2, codes "CAP_DAC_READ_SEARCH")
    ∷ (16, codes "CAP_SYS_MODULE")
    ∷ (17, codes "CAP_SYS_RAWIO")
    ∷ (19, codes "CAP_SYS_PTRACE")
    ∷ (21, codes "CAP_SYS_ADMIN")
    ∷ (39, codes "CAP_BPF")
    ∷ (40, codes "CAP_CHECKPOINT_RESTORE")
    ∷ []

-- The prefix is of ASCII, so four bytes are four characters where it matches.
unfoldable pub without_cap : Text → Text
unfolding eq_ignore_ascii_case
without_cap n = if eq_ignore_ascii_case (take 4 n) (codes "CAP_") then drop 4 n else n

-- `position`, counted from `i`.
unfoldable pub position_from : ℕ → Text → List Text → Option ℕ
unfolding eq_ignore_ascii_case
position_from i name [] = none
position_from i name (full ∷ names) =
    let rest = position_from (suc i) name names in
    if eq_ignore_ascii_case (drop 4 full) name then some i else rest

unfoldable pub cap_name_to_bit : Text → Option ℕ
unfolding trim without_cap position_from cap_names
cap_name_to_bit name = position_from 0 (without_cap (trim name)) cap_names

-- `mask | 1 << b`
abbrev pub set_bit : ℕ → ℕ → ℕ
set_bit mask b = if has_bit mask b then mask else mask + 2 ^ b

unfoldable pub cap_add_from : ℕ → List Text → ℕ
unfolding trim without_cap cap_name_to_bit eq_ignore_ascii_case
cap_add_from mask [] = mask
cap_add_from mask (entry ∷ rest) =
    let onward =
      cap_add_from (elim (cap_name_to_bit (trim entry)) [ none ↦ mask | some b ↦ set_bit mask b ])
        rest in
    if eq_ignore_ascii_case (without_cap (trim entry)) (codes "ALL") then 2 ^ 64 - 1 else onward

unfoldable pub cap_add_to_mask : List Text → ℕ
unfolding cap_add_from
cap_add_to_mask cap_add = cap_add_from 0 cap_add

unfoldable pub undeclared_escape_caps : ℕ → List Text → List Text
unfolding moby_default_caps cap_add_to_mask container_escape_caps
undeclared_escape_caps runtime_bounding cap_add =
    let added = cap_add_to_mask cap_add in
    map (λ c. c.1)
      (filter
        (λ c.
          has_bit runtime_bounding c.0 && not (has_bit moby_default_caps c.0 || has_bit added c.0))
        container_escape_caps)

-- Whether a process listens, and whether it does on a wildcard address.
unfoldable pub is_on_net : List PortInfo → ProcCapFinding → Bool
is_on_net ports f = any (λ p. is_some_and (λ q. q == f.pid) p.pid) ports

unfoldable pub is_exposed : List PortInfo → ProcCapFinding → Bool
unfolding is_wildcard_bind
is_exposed ports f =
    any (λ p. is_some_and (λ q. q == f.pid) p.pid && is_wildcard_bind p.bind_address) ports

unfoldable pub critical_capabilities : Facts → List Finding
unfolding is_on_net is_exposed
critical_capabilities r =
    let ports = r.network.listening_ports in
    let found = filter (λ f. non_empty f.critical_caps) r.security.capability_audit in
    let nnp_open = length (filter (λ f. is_some_and not f.no_new_privs) found) in
    let listening = length (filter (is_on_net ports) found) in
    let exposed = length (filter (is_exposed ports) found) in
    push_if (non_empty found) (
      finding "CAP-001" Scanner.security
        (codes "Non-root processes hold critical kernel capabilities") Category.security
        (if ltb 0 exposed then 20 else 8)
        (counted (length found) (
            codes " non-root process(es) with SYS_ADMIN/SYS_PTRACE/DAC_OVERRIDE/NET_RAW "
            ++ codes "capability sets")
          ++ (if ltb 0 nnp_open
              then codes "; "
                ++ decimal nnp_open
                ++ codes " of them with NoNewPrivs=0 — setuid execve escalation path open"
              else [])
          ++ (if ltb 0 listening
              then codes "; WARNING: "
                ++ decimal listening
                ++ (if ltb 0 exposed
                    then codes " of these listening on the network ("
                      ++ decimal exposed
                      ++ codes " exposed globally on 0.0.0.0/::)"
                    else codes " of these listening on the network (none exposed globally)")
              else []))
        none none)

unfoldable pub ambient_text : ProcCapFinding → Text
unfolding decode_mask
ambient_text f =
    f.comm
    ++ codes " (pid "
    ++ decimal f.pid
    ++ codes ", euid "
    ++ decimal f.euid
    ++ codes "): ambient ["
    ++ join (decode_mask f.ambient) (codes ", ")
    ++ codes "]"

unfoldable pub escalating_ambient : List ProcCapFinding → List Finding
unfolding ambient_text ambient_escalation_weight
escalating_ambient active = push_if (non_empty active) (
    finding "CAP-002" Scanner.security
      (codes "Escalation-capable ambient capabilities with NoNewPrivs disabled") Category.security
      (max_of (map (λ f. ambient_escalation_weight f.ambient) active))
      (counted (length active) (
          codes " non-root process(es) hold escalation-primitive ambient capabilities "
          ++ codes "while NoNewPrivs is off — the set survives execve of a "
          ++ codes "non-setuid binary: ")
        ++ join (map ambient_text active) (codes "; "))
      none none)

unfoldable pub harmless_ambient : List ProcCapFinding → List Finding
unfolding ambient_text
harmless_ambient harmless = push_if (non_empty harmless) (
    finding "CAP-002" Scanner.security (codes "Benign ambient capabilities (informational)")
      Category.security 0
      (counted (length harmless)
          (codes " non-root process(es) hold only non-escalation ambient capabilities: ")
        ++ join (map ambient_text harmless) (codes "; "))
      (some (
        codes "These ambient capabilities are not privilege-escalation primitives and are "
        ++ codes "commonly granted intentionally via systemd AmbientCapabilities (e.g. a "
        ++ codes "database holding CAP_IPC_LOCK for memory locking)."))
      none)

unfoldable pub ambient_capabilities : Facts → List Finding
unfolding escalating_ambient harmless_ambient ambient_escalation_weight
ambient_capabilities r =
    let found = filter (λ f. is_some f.reason) r.security.capability_audit in
    escalating_ambient (filter (λ f. ltb 0 (ambient_escalation_weight f.ambient)) found)
    ++ harmless_ambient (filter (λ f. not (ltb 0 (ambient_escalation_weight f.ambient))) found)
