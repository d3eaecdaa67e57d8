-- ===== src/Scoring/Rules/Files.antt =====
-- src/scoring.rs, `evaluate`: files with capabilities, set-uid files and eBPF objects. `file_name`
-- is `Path::file_name` as a text.
use owlzops_mapper.Common.{
  ℕ, ◌+◌, String, Text, codes, Bool, true, false, not, List, ◌++◌, none, some, ◌==◌, nat_eq, filter,
  map, length, decimal, ltb,
}
use owlzops_mapper.Scoring.Finding.{Finding, Category, Scanner, join}
use owlzops_mapper.Scoring.Classify.{classify_cap_binary, classify_setuid}
use owlzops_mapper.Scoring.Rules.Push.{finding, push_if, non_empty, counted, max_of}
use owlzops_mapper.Report.{Facts}
use owlzops_mapper.Report.Files.{FileCapFinding, SetuidFinding}

-- A file with its weight and the reason.
abbrev pub weighed {ℓ} : {A : Type ℓ} → (A → ℕ × String) → List A → List (A × (ℕ × String))
weighed f xs = map (λ x. (x, f x)) xs

abbrev pub weightless {ℓ} : {A : Type ℓ} → List (A × (ℕ × String)) → List (A × (ℕ × String))
weightless = filter (λ e. e.1.0 == 0)

abbrev pub heavy {ℓ} : {A : Type ℓ} → List (A × (ℕ × String)) → List (A × (ℕ × String))
heavy = filter (λ e. not (e.1.0 == 0))

abbrev pub capabilities_text : FileCapFinding → Text
capabilities_text f = f.path ++ codes ": [" ++ join f.capabilities (codes ", ") ++ codes "]"

unfoldable pub expected_capabilities : List (FileCapFinding × (ℕ × String)) → List Finding
expected_capabilities files = push_if (non_empty (weightless files)) (
    finding "SEC-034" Scanner.security (codes "Files with capabilities (setcap) – expected")
      Category.security 0
      (counted (length (weightless files)) (codes " file(s) with known capability attributes: ")
        ++ join (map (λ e. capabilities_text e.0 ++ codes " — " ++ codes e.1.1) (weightless files))
            (codes "; "))
      (some (codes "These capabilities are expected for standard system tools (e.g. ping, mtr)."))
      none)

unfoldable pub unexpected_capabilities : List (FileCapFinding × (ℕ × String)) → List Finding
unexpected_capabilities files = push_if (non_empty (heavy files)) (
    finding "SEC-036" Scanner.security
      (codes "Unexpected file capabilities (setcap) – review required") Category.security
      (max_of (map (λ e. e.1.0) (heavy files)))
      (counted (length (heavy files))
          (codes " file(s) with unexpected or unknown capability attributes: ")
        ++ join
            (map
              (λ e.
                capabilities_text e.0
                ++ codes " (weight "
                ++ decimal e.1.0
                ++ codes ", "
                ++ codes e.1.1
                ++ codes ")")
              (heavy files))
            (codes "; "))
      none none)

unfoldable pub file_capabilities : (Text → Text) → Facts → List Finding
unfolding expected_capabilities unexpected_capabilities classify_cap_binary
file_capabilities file_name r =
    let source = r.security.provenance_source in
    let files =
      weighed (λ f. classify_cap_binary file_name f source) r.security.file_capabilities in
    expected_capabilities files ++ unexpected_capabilities files

abbrev pub bool_text : Bool → Text
bool_text true = codes "true"
bool_text false = codes "false"

abbrev pub setuid_text : SetuidFinding → Text
setuid_text f =
    f.path
    ++ codes " (suid:"
    ++ bool_text f.setuid
    ++ codes ", sgid:"
    ++ bool_text f.setgid
    ++ codes ")"

unfoldable pub expected_setuid : List (SetuidFinding × (ℕ × String)) → List Finding
expected_setuid files = push_if (non_empty (weightless files)) (
    finding "SEC-037" Scanner.security (codes "Setuid/setgid files – expected") Category.security 0
      (counted (length (weightless files)) (codes " file(s) with expected setuid/setgid bits: ")
        ++ join (map (λ e. setuid_text e.0 ++ codes " — " ++ codes e.1.1) (weightless files))
            (codes "; "))
      (some (
        codes "These setuid/setgid binaries are owned by known packages or in "
        ++ codes "standard system directories."))
      none)

unfoldable pub unexpected_setuid : List (SetuidFinding × (ℕ × String)) → List Finding
unexpected_setuid files = push_if (non_empty (heavy files)) (
    finding "SEC-037" Scanner.security (codes "Unexpected setuid/setgid files – review required")
      Category.security (max_of (map (λ e. e.1.0) (heavy files)))
      (counted (length (heavy files)) (codes " file(s) with unexpected setuid/setgid bits: ")
        ++ join
            (map
              (λ e.
                setuid_text e.0 ++ codes " weight " ++ decimal e.1.0 ++ codes ": " ++ codes e.1.1)
              (heavy files))
            (codes "; "))
      none none)

unfoldable pub setuid_files : Facts → List Finding
unfolding expected_setuid unexpected_setuid classify_setuid
setuid_files r =
    let source = r.security.provenance_source in
    let files = weighed (λ f. classify_setuid f source) r.security.setuid_files in
    expected_setuid files ++ unexpected_setuid files

unfoldable pub ebpf_objects : Facts → List Finding
ebpf_objects r =
    let ebpf = r.security.ebpf_inventory in
    let total = length ebpf.programs + length ebpf.maps + length ebpf.links + length ebpf.pins in
    push_if (ltb 0 total) (
      finding "SEC-035" Scanner.security
        (codes "eBPF programs, maps, links, and pins (informational)") Category.security 0
        (counted (length ebpf.programs) (codes " BPF programs, ")
          ++ counted (length ebpf.maps) (codes " maps, ")
          ++ counted (length ebpf.links) (codes " links (active attachments), ")
          ++ counted (length ebpf.pins) (codes " pinned objects (total: ")
          ++ counted total (codes ")"))
        (some (
          codes "Routine systemd/container BPF usage is expected. "
          ++ codes "Review unknown programs manually."))
        none)
