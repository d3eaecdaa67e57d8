-- ===== src/Scoring/Rules/Persistence.antt =====
-- src/scoring.rs, `evaluate`: preloaded libraries, ld.so.conf, systemd generators and PAM, with
-- the decisions of src/scanners/generators.rs. The feature `local-scan`, under which the rules on
-- generators are compiled, is on.
use owlzops_mapper.Common.{
  Text, codes, Bool, true, false, not, ◌&&◌, ◌||◌, List, [], ◌++◌, Option, none, some,
  if◌then◌else◌, ◌==◌, nat_eq, filter, map, length, decimal, is_some, is_none, starts_with, ltb,
}
use owlzops_mapper.Utils.Paths.{is_volatile_exec_path}
use owlzops_mapper.Scoring.Finding.{Finding, Category, Scanner, evidence_list}
use owlzops_mapper.Scoring.Rules.Push.{
  finding, push_if, non_empty, counted, or_else, octal, is_some_and,
}
use owlzops_mapper.Scoring.Rules.Files.{bool_text}
use owlzops_mapper.Report.{Facts}
use owlzops_mapper.Report.Files.{
  PreloadFinding, LdSoConfInjection, GeneratorFinding, GeneratorKind, GeneratorOrigin,
  ExecWritability, ProvenanceSource, unavailable, root_only, non_root_writable, missing, unknown,
  vendor, local_admin, admin, at_runtime, executable, search_dir, provenance_source_eq,
  exec_writability_eq,
}

unfoldable pub mapped : PreloadFinding → Text
mapped f = elim f.mapped_by_pids [ none ↦ codes "?" | some n ↦ decimal n ]

abbrev pub with_mapped : PreloadFinding → Text
with_mapped f = f.path ++ codes " (mapped by " ++ mapped f ++ codes ")"

-- The four lists of the loop over the preloaded libraries.
abbrev pub is_unverifiable : Facts → PreloadFinding → Bool
is_unverifiable r f =
    not f.volatile && is_none f.package_name && r.security.provenance_source == unavailable

abbrev pub is_unpackaged : Facts → PreloadFinding → Bool
is_unpackaged r f =
    not f.volatile && is_none f.package_name && not (r.security.provenance_source == unavailable)

abbrev pub is_mapped : PreloadFinding → Bool
is_mapped f = is_some_and (λ n. ltb 0 n) f.mapped_by_pids

unfoldable pub active_preloads : List Text → List Text → List Finding
unfolding evidence_list
active_preloads pre_volatile pre_mapped =
    let entries = pre_volatile ++ pre_mapped in
    push_if (non_empty pre_volatile || non_empty pre_mapped) (
      finding "SEC-042" Scanner.persistence
        (codes "ACTIVE COMPROMISE: system-wide LD_PRELOAD injected") Category.security
        (if non_empty pre_volatile then 60 else 55)
        (counted (length entries) (codes " entr(ies) in /etc/ld.so.preload: ")
          ++ evidence_list entries 10)
        none none)

unfoldable pub preload_injections : Facts → List Finding
unfolding evidence_list mapped active_preloads
preload_injections r =
    let fs = r.security.preload_injections in
    let pre_volatile = map (λ f. f.path) (filter (λ f. f.volatile) fs) in
    let pre_unverifiable = map (λ f. f.path) (filter (is_unverifiable r) fs) in
    let pre_mapped = map with_mapped (filter (λ f. is_unpackaged r f && is_mapped f) fs) in
    let pre_unmapped = map with_mapped (filter (λ f. is_unpackaged r f && not (is_mapped f)) fs) in
    active_preloads pre_volatile pre_mapped
    ++ push_if (non_empty pre_unmapped) (
        finding "SEC-050" Scanner.persistence
          (codes "System-wide LD_PRELOAD injected (unpackaged, not yet mapped)") Category.security
          30 (counted (length pre_unmapped) (codes " entr(ies): ") ++ evidence_list pre_unmapped 10)
          none none)
    ++ push_if (non_empty pre_unverifiable) (
        finding "SEC-049" Scanner.persistence
          (codes "System-wide LD_PRELOAD present (ownership unverifiable)") Category.security 20
          (counted (length pre_unverifiable)
              (codes " entr(ies) in /etc/ld.so.preload; package database unavailable: ")
            ++ evidence_list pre_unverifiable 10)
          none none)

unfoldable pub ld_so_text : LdSoConfInjection → Text
unfolding octal
ld_so_text f =
    f.path
    ++ codes " (uid "
    ++ decimal f.uid
    ++ codes ", mode "
    ++ octal (or_else f.mode 0)
    ++ codes ", volatile:"
    ++ bool_text f.volatile
    ++ codes ")"

unfoldable pub ld_so_conf : Facts → List Finding
unfolding ld_so_text evidence_list
ld_so_conf r = push_if (non_empty r.security.ld_so_conf_injections) (
    finding "SEC-051" Scanner.persistence
      (codes "ld.so.conf paths allow unprivileged library injection") Category.security 30
      (evidence_list (map ld_so_text r.security.ld_so_conf_injections) 10) none none)

-- What a loop puts in one of three lists, or in none.
pub data GeneratorVerdict : Type 0 where
  ioc unpackaged unverifiable benign : GeneratorVerdict

abbrev pub is_ioc : GeneratorVerdict → Bool
is_ioc ioc = true
is_ioc _ = false

abbrev pub is_without_package : GeneratorVerdict → Bool
is_without_package unpackaged = true
is_without_package _ = false

abbrev pub is_undecided : GeneratorVerdict → Bool
is_undecided unverifiable = true
is_undecided _ = false

unfoldable pub is_volatile_escape : Text → Bool
unfolding starts_with is_volatile_exec_path
is_volatile_escape resolved =
    is_volatile_exec_path resolved && not (starts_with resolved (codes "/run/systemd/"))

abbrev pub is_vendor : GeneratorOrigin → Bool
is_vendor vendor = true
is_vendor local_admin = false
is_vendor admin = false
is_vendor at_runtime = false

unfoldable pub classify_generator :
    GeneratorKind
    → GeneratorOrigin
    → ExecWritability
    → Bool
    → Option Text
    → ProvenanceSource
    → GeneratorVerdict
classify_generator search_dir origin writability volatile_escape package_name provenance = ioc
classify_generator executable origin non_root_writable volatile_escape package_name provenance = ioc
classify_generator executable origin missing volatile_escape package_name provenance = ioc
classify_generator executable origin unknown volatile_escape package_name provenance = unverifiable
classify_generator executable origin root_only volatile_escape package_name provenance =
    if volatile_escape
    then ioc
    else if is_vendor origin || is_some package_name
    then benign
    else if provenance == unavailable
    then unverifiable
    else unpackaged

unfoldable pub describe_generator : GeneratorFinding → Text
describe_generator g =
    g.path
    ++ elim g.symlink_target [ none ↦ [] | some t ↦ codes " → " ++ t ]
    ++ elim g.writability [
      | non_root_writable ↦ codes " (writable, uid " ++ decimal g.uid ++ codes ")"
      | missing ↦ codes " (dangling link — target can be created)"
      | unknown ↦ codes " (target unresolvable — not verified)"
      | root_only ↦ []
    ]

unfoldable pub generator_verdict : Facts → GeneratorFinding → GeneratorVerdict
unfolding classify_generator is_volatile_escape
generator_verdict r g =
    classify_generator g.kind g.origin g.writability
      (is_some_and is_volatile_escape g.resolved_path) g.package_name r.security.provenance_source

unfoldable pub generators_with : Facts → (GeneratorVerdict → Bool) → List Text
unfolding generator_verdict describe_generator
generators_with r p =
    map describe_generator (filter (λ g. p (generator_verdict r g)) r.security.generators)

unfoldable pub generators : Facts → List Finding
unfolding generators_with evidence_list
generators r =
    push_if (non_empty (generators_with r is_ioc)) (
      finding "SEC-052" Scanner.persistence
        (codes "ACTIVE COMPROMISE: systemd generator controlled by a non-root principal")
        Category.security 55
        (counted (length (generators_with r is_ioc)) (
            codes " generator target(s) executed as root at every boot and daemon-reload, "
            ++ codes "writable by non-root or resolving off the systemd hierarchy: ")
          ++ evidence_list (generators_with r is_ioc) 10)
        none none)
    ++ push_if (non_empty (generators_with r is_without_package)) (
        finding "SEC-053" Scanner.persistence
          (codes "Unpackaged systemd generator outside the vendor hierarchy") Category.security 30
          (counted (length (generators_with r is_without_package)) (
              codes " generator(s) belong to no installed package and do not live in "
              ++ codes "/usr/lib/systemd/*-generators: ")
            ++ evidence_list (generators_with r is_without_package) 10)
          none none)
    ++ push_if (non_empty (generators_with r is_undecided)) (
        finding "SEC-054" Scanner.persistence
          (codes "systemd generator present (origin or target unverifiable)") Category.security 20
          (counted (length (generators_with r is_undecided)) (
              codes " non-vendor generator(s); package database unavailable — origin "
              ++ codes "cannot be verified: ")
            ++ evidence_list (generators_with r is_undecided) 10)
          none none)
