-- ===== src/Scoring/Rules/Units.antt =====
-- src/scoring.rs, `evaluate`: what systemd units and cron files execute.
use owlzops_mapper.Common.{
  Text, codes, Bool, true, false, not, ◌&&◌, ◌||◌, List, ◌++◌, none, some, if◌then◌else◌, any,
  filter, map, length, is_none,
}
use owlzops_mapper.Scoring.Finding.{Finding, Category, Scanner, evidence_list}
use owlzops_mapper.Scoring.Classify.{unit_is_vendor_shipped}
use owlzops_mapper.Scoring.Rules.Push.{finding, push_if, non_empty, counted}
use owlzops_mapper.Scoring.Rules.Pam.{is_root_only}
use owlzops_mapper.Report.{Facts}
use owlzops_mapper.Report.Files.{
  ExecStartFinding, ExecWritability, root_only, non_root_writable, missing, unknown,
}

abbrev pub exec_text : ExecStartFinding → Text
exec_text f = f.source ++ codes " → " ++ f.exec_path

unfoldable pub sel : (ExecStartFinding → Bool) → List ExecStartFinding → List Text
sel p inj = map exec_text (filter p inj)

-- `matches!(f.writability, W::RootOnly | W::NonRootWritable)`
abbrev pub exists_there : ExecWritability → Bool
exists_there root_only = true
exists_there non_root_writable = true
exists_there missing = false
exists_there unknown = false

abbrev pub is_missing : ExecWritability → Bool
is_missing missing = true
is_missing _ = false

abbrev pub is_writable : ExecWritability → Bool
is_writable non_root_writable = true
is_writable _ = false

unfoldable pub live_rogue : Facts → List Finding
unfolding sel unit_is_vendor_shipped evidence_list
live_rogue r =
    let texts =
      sel (λ f. f.volatile && exists_there f.writability && not (unit_is_vendor_shipped f))
        r.security.exec_start_injections in
    push_if (non_empty texts) (
      finding "SEC-043" Scanner.persistence
        (codes "ACTIVE COMPROMISE: unpackaged unit executes a live target on tmpfs")
        Category.security 55
        (counted (length texts) (
            codes " entr(ies) where an unpackaged unit/cron file points at an EXISTING "
            ++ codes "executable on a volatile filesystem: ")
          ++ evidence_list texts 10)
        none none)

unfoldable pub live_vendor : Facts → List Finding
unfolding sel unit_is_vendor_shipped evidence_list
live_vendor r =
    let texts =
      sel (λ f. f.volatile && exists_there f.writability && unit_is_vendor_shipped f)
        r.security.exec_start_injections in
    push_if (non_empty texts) (
      finding "SEC-047" Scanner.persistence
        (codes "Vendor unit executes from a runtime-provisioned path") Category.security 0
        (counted (length texts) (codes " entr(ies): ") ++ evidence_list texts 10)
        (some (
          codes "The unit file belongs to an installed package and the target is placed on "
          ++ codes "tmpfs by the runtime by design (LXD/Incus agent, cloud-init, dracut). "
          ++ codes "A change of unit provenance is surfaced as drift by `compare`."))
        none)

unfoldable pub dormant : Facts → List Finding
unfolding sel unit_is_vendor_shipped evidence_list
dormant r =
    let found =
      filter (λ f. f.volatile && is_missing f.writability) r.security.exec_start_injections in
    let rogue = any (λ f. not (unit_is_vendor_shipped f)) found in
    let texts = sel (λ f. not rogue || not (unit_is_vendor_shipped f)) found in
    push_if (non_empty found) (
      finding "SEC-048" Scanner.persistence
        (codes "Unit references a volatile path that does not exist") Category.security
        (if rogue then 20 else 0)
        (counted (length found) (codes " dormant entr(ies): ") ++ evidence_list texts 10)
        (if rogue
          then none
          else some (
              codes "All declaring units are package-owned: this is the standard "
              ++ codes "runtime-provisioned agent pattern on a host where that runtime is not "
              ++ codes "active (e.g. lxd-agent.service on a VM not managed by LXD). Nothing is "
              ++ codes "executing — the target is absent."))
        none)

unfoldable pub weak_targets : Facts → List Finding
unfolding sel evidence_list
weak_targets r =
    let texts =
      sel (λ f. f.runs_as_root && not f.volatile && is_writable f.writability)
        r.security.exec_start_injections in
    push_if (non_empty texts) (
      finding "SEC-046" Scanner.persistence
        (codes "Root-executed unit/cron target is writable by a non-root principal")
        Category.security 25
        (counted (length texts) (
            codes " entr(ies) where the executable or its parent directory is non-root-owned "
            ++ codes "or group/other-writable — anyone with that access controls what root "
            ++ codes "runs: ")
          ++ evidence_list texts 10)
        none none)

unfoldable pub unpackaged_targets : Facts → List Finding
unfolding sel evidence_list
unpackaged_targets r =
    let texts =
      sel (λ f. not f.volatile && is_root_only f.writability && is_none f.package_name)
        r.security.exec_start_injections in
    push_if (non_empty texts) (
      finding "SEC-045" Scanner.persistence
        (codes "Unit/cron targets with no package owner (inventory)") Category.security 0
        (counted (length texts) (codes " root-owned target(s) unresolved: ")
          ++ evidence_list texts 10)
        (some (
          codes "Root-owned, non-writable and outside any volatile filesystem: only root "
          ++ codes "could have placed these. Package databases miss locally built software, "
          ++ codes "vendor packages and alternatives symlinks, so absence of an owner is not "
          ++ codes "evidence. A target that BECOMES unpackaged between snapshots is surfaced "
          ++ codes "as drift by `compare`."))
        none)
