-- ===== src/Scoring/Rules/Pam.antt =====
-- src/scoring.rs, `evaluate`: modules and files of PAM.
use owlzops_mapper.Common.{
  Text, codes, Bool, true, false, not, ◌&&◌, List, [], ◌++◌, none, if◌then◌else◌, ◌==◌, nat_eq,
  filter, map, length, decimal, is_none, take, leb,
}
use owlzops_mapper.Scoring.Finding.{Finding, Category, Scanner, join, evidence_list}
use owlzops_mapper.Scoring.Rules.Push.{finding, push_if, non_empty, counted}
use owlzops_mapper.Scoring.Rules.Persistence.{
  GeneratorVerdict, ioc, unpackaged, unverifiable, benign, is_ioc, is_without_package, is_undecided,
}
use owlzops_mapper.Report.{Facts}
use owlzops_mapper.Report.Files.{
  PamFinding, PamTargetKind, ExecWritability, root_only, non_root_writable, missing, unknown,
  module_target, exec_script, config,
}

unfoldable pub services_text : List Text → Text
services_text services =
    if leb (length services) 3
    then join services (codes ", ")
    else join (take 3 services) (codes ", ") ++ codes "..."

unfoldable pub pam_text : PamFinding → Text
unfolding services_text
pam_text f =
    let n = length f.services in
    f.pam_module.module_path
    ++ codes " ("
    ++ decimal n
    ++ (if leb n 3
        then codes " service" ++ (if n == 1 then [] else codes "s")
        else codes " services")
    ++ codes "): — used by: "
    ++ services_text f.services

abbrev pub is_config : PamTargetKind → Bool
is_config config = true
is_config module_target = false
is_config exec_script = false

abbrev pub is_root_only : ExecWritability → Bool
is_root_only root_only = true
is_root_only _ = false

-- The list that a finding goes to; `benign` stands for none.
unfoldable pub classify_pam : PamFinding → GeneratorVerdict
classify_pam f =
    if is_config f.target_kind && not (is_root_only f.writability)
    then ioc
    else elim f.writability [
      | non_root_writable ↦ ioc
      | missing ↦ if f.parent_takeable then ioc else benign
      | unknown ↦ unverifiable
      | root_only ↦
          if f.volatile then ioc else if is_none f.package_name then unpackaged else benign
    ]

unfoldable pub pam_with : Facts → (GeneratorVerdict → Bool) → List Text
unfolding classify_pam pam_text
pam_with r p = map pam_text (filter (λ f. p (classify_pam f)) r.security.pam_injections)

abbrev pub pam_evidence : List Text → Text
pam_evidence texts = counted (length texts) (codes " PAM line(s): ") ++ evidence_list texts 10

unfoldable pub pam_injections : Facts → List Finding
unfolding pam_with evidence_list
pam_injections r =
    push_if (non_empty (pam_with r is_ioc)) (
      finding "SEC-055" Scanner.persistence
        (codes "ACTIVE COMPROMISE: PAM module/config writable or volatile "
          ++ codes "(authentication bypass)")
        Category.security 55 (pam_evidence (pam_with r is_ioc)) none none)
    ++ push_if (non_empty (pam_with r is_without_package)) (
        finding "SEC-056" Scanner.persistence
          (codes "Unpackaged PAM module outside trusted directories") Category.security 30
          (pam_evidence (pam_with r is_without_package)) none none)
    ++ push_if (non_empty (pam_with r is_undecided)) (
        finding "SEC-057" Scanner.persistence (codes "PAM module present (ownership unverifiable)")
          Category.security 20 (pam_evidence (pam_with r is_undecided)) none none)
