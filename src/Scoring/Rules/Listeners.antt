-- ===== src/Scoring/Rules/Listeners.antt =====
-- src/scoring.rs, `evaluate`: processes that listen on the network.
use owlzops_mapper.Common.{
  ℕ, Text, codes, not, ◌&&◌, List, [], ◌∷◌, ◌++◌, Option, none, some, if◌then◌else◌, ◌==◌, nat_eq,
  find, length, decimal,
}
use owlzops_mapper.Utils.Paths.{is_wildcard_bind, is_ephemeral_exec_path}
use owlzops_mapper.Utils.Provenance.{Host, PortInfo, ListenerTiers, classify_listeners}
use owlzops_mapper.Scoring.Finding.{Finding, Category, Scanner, join}
use owlzops_mapper.Scoring.Rules.Push.{finding, push_if, non_empty, counted}
use owlzops_mapper.Report.{Facts}
use owlzops_mapper.Report.Process.{ProcCapFinding}

unfoldable pub listener_tiers : ListenerTiers → List Finding
listener_tiers tiers =
    push_if (non_empty tiers.suspicious) (
      finding "SEC-013" Scanner.network
        (codes "Suspicious process listening on network port (Shadow IT)") Category.security 20
        (counted (length tiers.suspicious) (codes " suspicious listener(s): ")
          ++ join tiers.suspicious (codes ", "))
        none none)
    ++ push_if (non_empty tiers.devtool) (
        finding "SEC-030" Scanner.network
          (codes "Developer tool listening on loopback (IPC) — informational") Category.security 0
          (counted (length tiers.devtool)
              (codes " loopback-only listener(s) from root-owned installed applications: ")
            ++ join tiers.devtool (codes ", "))
          (some (codes "Loopback-only bind from a populated ROOT-OWNED install tree.")) none)
    ++ push_if (non_empty tiers.provisional) (
        finding "SEC-031" Scanner.network
          (codes "User-space tool listening on loopback (IPC) — PROVISIONAL") Category.security 0
          (counted (length tiers.provisional) (
              codes " loopback-only listener(s) nested under user-writable install tree "
              ++ codes "(parentage unverified): ")
            ++ join tiers.provisional (codes ", "))
          (some (
            codes "Loopback-only bind from a user-writable directory. "
            ++ codes "Trust is PROVISIONAL until parentage is verified."))
          none)

unfoldable pub listeners : Host → Facts → List Finding
unfolding listener_tiers classify_listeners
listeners host r = listener_tiers (classify_listeners host r.network.listening_ports)

-- `find(|c| c.pid == pid && !c.critical_caps.is_empty())`
unfoldable pub critical_holder : Facts → ℕ → Option ProcCapFinding
critical_holder r pid =
    find (λ c. c.pid == pid && non_empty c.critical_caps) r.security.capability_audit

abbrev pub implant_text : ProcCapFinding → Text → Text → Text
implant_text cap exe bind_address =
    codes "pid "
    ++ decimal cap.pid
    ++ codes " ("
    ++ cap.comm
    ++ codes ") exe "
    ++ exe
    ++ codes " listening on "
    ++ bind_address
    ++ codes " holds ["
    ++ join cap.critical_caps (codes ", ")
    ++ codes "]"

-- What one port gives to `ioc_evidence`.
unfoldable pub implant : Facts → PortInfo → List Text
unfolding critical_holder
implant r port = if not (is_wildcard_bind port.bind_address) then [] else elim port.exe_path [
  | none ↦ []
  | some exe ↦ if not (is_ephemeral_exec_path exe) then [] else elim port.pid [
    | none ↦ []
    | some pid ↦ elim (critical_holder r pid) [
      | none ↦ []
      | some cap ↦ implant_text cap exe port.bind_address ∷ []
    ]
  ]
]

unfoldable pub implants : Facts → List PortInfo → List Text
unfolding implant
implants r [] = []
implants r (p ∷ ps) = implant r p ++ implants r ps

unfoldable pub reachable_implants : Facts → List Finding
unfolding implants
reachable_implants r =
    let found = implants r r.network.listening_ports in
    push_if (non_empty found) (
      finding "SEC-015" Scanner.security
        (codes "ACTIVE COMPROMISE: privileged non-root process on ephemeral path "
          ++ codes "listening on network")
        Category.security 60
        (counted (length found) (codes " reachable implant(s): ") ++ join found (codes "; ")) none
        none)
