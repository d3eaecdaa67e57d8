-- ===== src/Scoring/Rules/Plain/Containers.antt =====
-- src/scoring.rs, `evaluate`: the findings on containers.
use owlzops_mapper.Common.{List, refl, arith}
use owlzops_mapper.Report.{Facts, FirewallBypassFinding}
use owlzops_mapper.Scoring.Rules.Plain.{
  plain, AllPlain, push_if-AllPlain, append-AllPlain, is_plain,
}
use owlzops_mapper.Scoring.Rules.Containers.{
  container_limits, runtime_tampering, bypassed_ports, exposed_ports, firewall_bypass,
  sensitive_mounts, container_health,
}

pub container_limits-AllPlain : (r : Facts) → AllPlain (container_limits r)
unfolding container_limits is_plain
container_limits-AllPlain r = search plain

pub runtime_tampering-AllPlain : (r : Facts) → AllPlain (runtime_tampering r)
unfolding runtime_tampering is_plain
runtime_tampering-AllPlain r = push_if-AllPlain _ _ refl

pub bypassed_ports-AllPlain : (xs : List FirewallBypassFinding) → AllPlain (bypassed_ports xs)
unfolding bypassed_ports is_plain
bypassed_ports-AllPlain xs = push_if-AllPlain _ _ (ground arith)

pub exposed_ports-AllPlain : (xs : List FirewallBypassFinding) → AllPlain (exposed_ports xs)
unfolding exposed_ports is_plain
exposed_ports-AllPlain xs = push_if-AllPlain _ _ (ground arith)

pub firewall_bypass-AllPlain : (r : Facts) → AllPlain (firewall_bypass r)
unfolding firewall_bypass
firewall_bypass-AllPlain r =
    search (append-AllPlain, bypassed_ports-AllPlain, exposed_ports-AllPlain)

pub sensitive_mounts-AllPlain : (r : Facts) → AllPlain (sensitive_mounts r)
unfolding sensitive_mounts is_plain
sensitive_mounts-AllPlain r = search plain

pub container_health-AllPlain : (r : Facts) → AllPlain (container_health r)
unfolding container_health is_plain
container_health-AllPlain r = search plain
