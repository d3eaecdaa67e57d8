-- ===== src/Scoring/Rules/Containers.antt =====
-- src/scoring.rs, `evaluate`: containers, and src/models.rs, `ContainerInfo::security_issues`.
use owlzops_mapper.Common.{
  ℕ, Text, codes, Bool, true, false, not, ◌&&◌, ◌||◌, List, [], ◌∷◌, ◌++◌, none, some,
  if◌then◌else◌, ◌==◌, text_eq, any, filter, map, length, contains, is_none, leb, ltb, decimal,
  ends_with,
}
use owlzops_mapper.Scoring.Finding.{Finding, Category, Scanner, join, evidence_list}
use owlzops_mapper.Scoring.Rules.Push.{finding, push_if, non_empty, counted, is_some_and}
use owlzops_mapper.Scoring.Rules.Capabilities.{undeclared_escape_caps}
use owlzops_mapper.Report.{Facts, ContainerInfo, FirewallBypassFinding}

unfoldable pub security_issues : ContainerInfo → List Text
security_issues c =
    (if c.privileged then codes "PRIVILEGED" ∷ [] else [])
    ++ (if is_none c.memory_limit_mb then codes "NoMemLimit" ∷ [] else [])
    ++ (if is_none c.cpu_limit then codes "NoCpuLimit" ∷ [] else [])
    ++ (if contains c.cap_add (codes "SYS_ADMIN") then codes "SYS_ADMIN" ∷ [] else [])
    ++ (if contains c.cap_add (codes "NET_ADMIN") then codes "NET_ADMIN" ∷ [] else [])

-- A flag of the loop over the issues of the containers.
unfoldable pub has_issue : Facts → Text → Bool
unfolding security_issues
has_issue r issue = any (λ c. contains (security_issues c) issue) r.topology.containers

unfoldable pub container_limits : Facts → List Finding
unfolding has_issue
container_limits r =
    push_if (has_issue r (codes "NoMemLimit")) (
      finding "DOCK-001" Scanner.docker (codes "Docker containers without memory limits")
        Category.security 5 (codes "At least one container lacks a memory limit") none
        (some "CIS 5.2.3"))
    ++ push_if (has_issue r (codes "NoCpuLimit")) (
        finding "DOCK-002" Scanner.docker (codes "Docker containers without CPU limits")
          Category.security 3 (codes "At least one container lacks a CPU limit") none
          (some "CIS 5.2.2"))
    ++ push_if (has_issue r (codes "PRIVILEGED")) (
        finding "DOCK-003" Scanner.docker (codes "Privileged Docker containers detected")
          Category.security 10 (codes "At least one container is running in privileged mode") none
          (some "CIS 5.2.4"))
    ++ push_if (has_issue r (codes "SYS_ADMIN") || has_issue r (codes "NET_ADMIN")) (
        finding "DOCK-004" Scanner.docker (codes "Docker containers with dangerous capabilities")
          Category.security 10
          (codes "At least one container has elevated kernel capabilities (SYS_ADMIN/NET_ADMIN)")
          none (some "CIS 5.2.5"))

-- What one container gives to `tampered`.
unfoldable pub tampered_text : ContainerInfo → List Text
unfolding undeclared_escape_caps
tampered_text c = if c.privileged then [] else elim c.runtime_bounding_caps [
  | none ↦ []
  | some bnd ↦
      let undeclared = undeclared_escape_caps bnd c.cap_add in
      if non_empty undeclared
      then (c.name ++ codes " holds undeclared [" ++ join undeclared (codes ", ") ++ codes "]") ∷ []
      else []
]

unfoldable pub tampered_texts : List ContainerInfo → List Text
unfolding tampered_text
tampered_texts [] = []
tampered_texts (c ∷ cs) = tampered_text c ++ tampered_texts cs

unfoldable pub runtime_tampering : Facts → List Finding
unfolding tampered_texts
runtime_tampering r =
    let tampered = tampered_texts r.topology.containers in
    push_if (non_empty tampered) (
      finding "DOCK-010" Scanner.docker
        (codes "ACTIVE COMPROMISE: container runtime capabilities exceed declared config")
        Category.security 60
        (counted (length tampered) (codes " container(s) with runtime cap tampering: ")
          ++ join tampered (codes "; "))
        none (some "CIS 5.2.5"))

unfoldable pub bypass_text : FirewallBypassFinding → Text
bypass_text b =
    b.container
    ++ codes " "
    ++ b.published
    ++ codes " (host port "
    ++ decimal b.host_port
    ++ codes ", "
    ++ b.protocol
    ++ codes ")"

unfoldable pub bypassed_ports : List FirewallBypassFinding → List Finding
unfolding bypass_text evidence_list
bypassed_ports with_fw = push_if (non_empty with_fw) (
    finding "SEC-065" Scanner.network (codes "Docker published port bypasses active host firewall")
      Category.security (if any (λ b. b.sensitive) with_fw then 35 else 20)
      (counted (length with_fw) (
          codes " port(s) published on a non-loopback host address while the host firewall is "
          ++ codes "active. Docker writes iptables rules that precede the INPUT chain, "
          ++ codes "so the firewall does not filter these ports: ")
        ++ evidence_list (map bypass_text with_fw) 8)
      none none)

unfoldable pub exposed_ports : List FirewallBypassFinding → List Finding
unfolding bypass_text evidence_list
exposed_ports no_fw = push_if (non_empty no_fw) (
    finding "SEC-066" Scanner.network
      (codes "Docker published port exposed without any host firewall") Category.security
      (if any (λ b. b.sensitive) no_fw then 25 else 15)
      (counted (length no_fw) (
          codes " port(s) published on a non-loopback host address on a host with no active "
          ++ codes "firewall — reachable from the network: ")
        ++ evidence_list (map bypass_text no_fw) 8)
      none none)

unfoldable pub firewall_bypass : Facts → List Finding
unfolding bypassed_ports exposed_ports
firewall_bypass r =
    bypassed_ports (filter (λ b. b.firewall_was_active) r.security.firewall_bypass_findings)
    ++ exposed_ports (filter (λ b. not b.firewall_was_active) r.security.firewall_bypass_findings)

abbrev pub is_takeover_mount : Text → Bool
is_takeover_mount m = m == codes "DOCKER_SOCKET" || m == codes "HOST_ROOT"

unfoldable pub sensitive_mounts : Facts → List Finding
unfolding ends_with
sensitive_mounts r =
    let has_socket_or_root =
      any (λ c. any is_takeover_mount c.sensitive_mounts) r.topology.containers in
    let has_sensitive_rw =
      any
        (λ c. any (λ m. not (is_takeover_mount m) && ends_with m (codes "(rw)")) c.sensitive_mounts)
        r.topology.containers in
    push_if has_socket_or_root (
      finding "DOCK-005" Scanner.docker
        (codes "Container mounts runtime control socket or host root") Category.security 15
        (codes "A container bind-mounts the "
          ++ (if non_empty r.topology.runtime_name
              then r.topology.runtime_name
              else codes "container runtime")
          ++ codes " control socket or / (host takeover primitive)")
        none (some "CIS 5.31"))
    ++ push_if has_sensitive_rw (
        finding "DOCK-006" Scanner.docker (codes "Container mounts sensitive host path (writable)")
          Category.security 10
          (codes "A container has a writable bind-mount of a sensitive host directory") none
          (some "CIS 5.7"))

abbrev pub restart_loop_threshold : ℕ
restart_loop_threshold = 3

abbrev pub risk_container_oom : ℕ
risk_container_oom = 10

abbrev pub risk_container_restart_loop : ℕ
risk_container_restart_loop = 5

abbrev pub risk_container_unhealthy : ℕ
risk_container_unhealthy = 10

-- `&str` in the order of its bytes, which is that of its characters.
unfoldable pub text_leb : Text → Text → Bool
text_leb [] t = true
text_leb (a ∷ s) [] = false
text_leb (a ∷ s) (b ∷ t) =
    let rest = text_leb s t in if ltb a b then true else if ltb b a then false else rest

unfoldable pub insert_sorted : Text → List Text → List Text
unfolding text_leb
insert_sorted x [] = x ∷ []
insert_sorted x (y ∷ ys) =
    let rest = insert_sorted x ys in if text_leb x y then x ∷ y ∷ ys else y ∷ rest

-- `sort_unstable`: equal names cannot be told apart.
unfoldable pub sort_names : List Text → List Text
unfolding insert_sorted
sort_names [] = []
sort_names (x ∷ xs) = insert_sorted x (sort_names xs)

unfoldable pub names_with : Facts → (ContainerInfo → Bool) → List Text
unfolding sort_names
names_with r p = sort_names (map (λ c. c.name) (filter p r.topology.containers))

abbrev pub is_looping : ContainerInfo → Bool
is_looping c = leb restart_loop_threshold c.restart_count || c.state == codes "restarting"

abbrev pub is_unhealthy : ContainerInfo → Bool
is_unhealthy c = is_some_and (λ s. s == codes "unhealthy") c.health_status

unfoldable pub container_health : Facts → List Finding
unfolding names_with
container_health r =
    let oom_names = names_with r (λ c. c.oom_killed) in
    let loop_names = names_with r is_looping in
    let unhealthy_names = names_with r is_unhealthy in
    push_if (non_empty oom_names) (
      finding "DOCK-007" Scanner.docker (codes "Containers killed by OOM") Category.reliability
        risk_container_oom (codes "OOMKilled: " ++ join oom_names (codes ", ")) none none)
    ++ push_if (non_empty loop_names) (
        finding "DOCK-008" Scanner.docker (codes "Containers in restart loop") Category.reliability
          risk_container_restart_loop
          (codes "restart_count >= 3 or currently restarting: " ++ join loop_names (codes ", "))
          none none)
    ++ push_if (non_empty unhealthy_names) (
        finding "DOCK-009" Scanner.docker (codes "Unhealthy containers (failing healthcheck)")
          Category.reliability risk_container_unhealthy
          (codes "unhealthy: " ++ join unhealthy_names (codes ", ")) none none)
