-- ===== src/Scoring/Rules/Plain/Files.antt =====
-- src/scoring.rs, `evaluate`: the findings on files.
use owlzops_mapper.Report.{Facts}
use owlzops_mapper.Utils.Paths.{starts_with_any}
use owlzops_mapper.Common.{
  refl, Text, List, [], ◌∷◌, some, ◌≡◌, arith, Bool-cases, inl, inr, ℕ, ◌≤◌, le→leb, ◌==◌, map,
  String, nat_eq, Bool,
}
use owlzops_mapper.Scoring.Rules.Push.{max_of}
use owlzops_mapper.Scoring.Rules.Plain.{is_plain, AllPlain, push_if-AllPlain, append-AllPlain}
use owlzops_mapper.Scoring.Rules.Files.{
  weighed, heavy, unexpected_setuid, expected_setuid, setuid_files, expected_capabilities,
  file_capabilities, unexpected_capabilities, ebpf_objects,
}
use owlzops_mapper.Report.Files.{FileCapFinding, SetuidFinding, ProvenanceSource}
use owlzops_mapper.Scoring.Classify.{
  known_binary, classify_setuid, classify_cap_binary, setuid_weight, known_cap_binaries,
  is_unattributable, setuid_system_dirs,
}

-- The heaviest of some files weighs no more than any file can.
heaviest-le :
    {A : Type 0} (f : A → ℕ × String) (n : ℕ) (xs : List A)
    → ((x : A) → (f x).0 ≤ n)
    → max_of (map (λ e. e.1.0) (heavy (weighed f xs))) ≤ n
heaviest-le f n [] h = omega arith
heaviest-le f n (x ∷ xs) h = elim (Bool-cases ((f x).0 == 0)) [
  | inl e ↦ rw e (heaviest-le f n xs h)
  | inr e ↦ rw e (omega (arith, h x, heaviest-le f n xs h))
]

known_binary-le :
    (name : Text) (caps : List Text) (table : List (Text × List Text)) (a : ℕ × String)
    → known_binary name caps table ≡ some a
    → a.0 ≤ 8
unfolding known_binary
known_binary-le name caps [] a h = absurd (cc)
known_binary-le name caps ((n, allowed) ∷ table) a h =
    ground (arith, known_binary-le name caps table a)

classify_cap_binary-le :
    (file_name : Text → Text) (source : ProvenanceSource) (f : FileCapFinding)
    → (classify_cap_binary file_name f source).0 ≤ 8
unfolding classify_cap_binary
classify_cap_binary-le file_name source f =
    ground (arith, known_binary-le (file_name f.path) f.capabilities known_cap_binaries)

setuid_weight-le : (a b c : Bool) → (setuid_weight a b c).0 ≤ 14
unfolding setuid_weight
setuid_weight-le a b c = ground arith

classify_setuid-le :
    (source : ProvenanceSource) (f : SetuidFinding) → (classify_setuid f source).0 ≤ 14
unfolding classify_setuid
classify_setuid-le source f = ground (
  arith,
  setuid_weight-le (is_unattributable source) (starts_with_any setuid_system_dirs f.path)
      f.root_owner,
)

pub ebpf_objects-AllPlain : (r : Facts) → AllPlain (ebpf_objects r)
unfolding ebpf_objects is_plain
ebpf_objects-AllPlain r = push_if-AllPlain _ _ refl

unexpected_capabilities-AllPlain :
    (files : List (FileCapFinding × (ℕ × String)))
    → max_of (map (λ e. e.1.0) (heavy files)) ≤ 60
    → AllPlain (unexpected_capabilities files)
unfolding unexpected_capabilities is_plain
unexpected_capabilities-AllPlain files h =
    push_if-AllPlain _ _ (rw (le→leb (max_of (map (λ e. e.1.0) (heavy files))) 60 h) refl)

expected_capabilities-AllPlain :
    (files : List (FileCapFinding × (ℕ × String))) → AllPlain (expected_capabilities files)
unfolding expected_capabilities is_plain
expected_capabilities-AllPlain files = push_if-AllPlain _ _ refl

pub file_capabilities-AllPlain :
    (file_name : Text → Text) (r : Facts) → AllPlain (file_capabilities file_name r)
unfolding file_capabilities
file_capabilities-AllPlain file_name r =
    let source = r.security.provenance_source in
    let files =
      weighed (λ f. classify_cap_binary file_name f source) r.security.file_capabilities in
    let h : max_of (map (λ e. e.1.0) (heavy files)) ≤ 8 =
      heaviest-le (λ f. classify_cap_binary file_name f source) 8 r.security.file_capabilities
        (classify_cap_binary-le file_name source) in
    append-AllPlain (expected_capabilities files) (unexpected_capabilities files)
      (expected_capabilities-AllPlain files)
      (unexpected_capabilities-AllPlain files (omega (arith, h)))

unexpected_setuid-AllPlain :
    (files : List (SetuidFinding × (ℕ × String)))
    → max_of (map (λ e. e.1.0) (heavy files)) ≤ 60
    → AllPlain (unexpected_setuid files)
unfolding unexpected_setuid is_plain
unexpected_setuid-AllPlain files h =
    push_if-AllPlain _ _ (rw (le→leb (max_of (map (λ e. e.1.0) (heavy files))) 60 h) refl)

expected_setuid-AllPlain :
    (files : List (SetuidFinding × (ℕ × String))) → AllPlain (expected_setuid files)
unfolding expected_setuid is_plain
expected_setuid-AllPlain files = push_if-AllPlain _ _ refl

pub setuid_files-AllPlain : (r : Facts) → AllPlain (setuid_files r)
unfolding setuid_files
setuid_files-AllPlain r =
    let source = r.security.provenance_source in
    let files = weighed (λ f. classify_setuid f source) r.security.setuid_files in
    let h : max_of (map (λ e. e.1.0) (heavy files)) ≤ 14 =
      heaviest-le (λ f. classify_setuid f source) 14 r.security.setuid_files
        (classify_setuid-le source) in
    append-AllPlain (expected_setuid files) (unexpected_setuid files)
      (expected_setuid-AllPlain files) (unexpected_setuid-AllPlain files (omega (arith, h)))
