-- ===== src/Scoring/Classify.antt =====
-- src/scoring.rs: how heavy a set-uid file, a file with capabilities, an ambient capability set and
-- a core dump handler weigh.
pub mod Weights
use owlzops_mapper.Report.Files.{
  ProvenanceSource, dpkg, apk, partial_apk, rpm, unavailable, FileCapFinding, SetuidFinding,
  ExecStartFinding,
}
use owlzops_mapper.Common.{
  ℕ, zero, suc, ◌/◌, ◌%◌, ◌^◌, String, Text, codes, Bool, true, false, not, ◌||◌, ◌&&◌, List, [],
  ◌∷◌, Option, none, some, ◌==◌, nat_eq, text_eq, if◌then◌else◌, all, contains, is_some,
  starts_with, strip_prefix, strip_suffix, split, split_whitespace, suc,
}
use owlzops_mapper.Utils.Paths.{is_volatile_exec_path, starts_with_any}

unfoldable pub unit_is_vendor_shipped : ExecStartFinding → Bool
unit_is_vendor_shipped f =
    is_some f.unit_package
    || starts_with f.unit_path (codes "/usr/lib/systemd/system/")
    || starts_with f.unit_path (codes "/lib/systemd/system/")

unfoldable pub last_of : Text → List Text → Text
last_of s [] = s
last_of s (t ∷ ts) = last_of t ts

-- `rsplit('/').next()`: the piece behind the last slash.
unfoldable pub basename_of : Text → Text
unfolding split last_of
basename_of bin = last_of bin (split (λ c. c == b'/') bin)

unfoldable pub known_handlers : List Text
known_handlers = codes "systemd-coredump" ∷ codes "abrt-hook-ccpp" ∷ codes "apport" ∷ []

unfoldable pub first_word : Text → Text
unfolding split_whitespace
first_word s = elim (split_whitespace s) [ [] ↦ [] | w ∷ _ ↦ w ]

unfoldable pub core_pattern_is_trusted : Text → Bool
unfolding strip_prefix basename_of first_word known_handlers
core_pattern_is_trusted cp = elim (strip_prefix cp (codes "|")) [
  | none ↦ true
  | some handler ↦
      contains known_handlers (basename_of (first_word handler))
      && not (is_volatile_exec_path (first_word handler))
]

-- The bit of a capability in a mask.
abbrev pub has_bit : ℕ → ℕ → Bool
has_bit mask i = (mask / 2 ^ i) % 2 == 1

unfoldable pub benign_caps : List ℕ
benign_caps = 10 ∷ 14 ∷ 15 ∷ 23 ∷ 25 ∷ 35 ∷ []

abbrev pub moderate_cap : ℕ
moderate_cap = 13

-- `ambient & !BENIGN & !MODERATE != 0`, bit by bit: is a bit set among those from `i` on that is neither benign nor moderate? `n` bits are left.
unfoldable pub dangerous_from : ℕ → ℕ → ℕ → Bool
dangerous_from zero i mask = false
dangerous_from (suc n) i mask =
    has_bit mask i && not (contains benign_caps i) && not (i == moderate_cap)
    || dangerous_from n (suc i) mask

unfoldable pub ambient_escalation_weight : ℕ → ℕ
unfolding dangerous_from
ambient_escalation_weight ambient =
    if dangerous_from 64 0 ambient then 12 else if has_bit ambient moderate_cap then 5 else 0

-- `ProvenanceSource::Unavailable | ProvenanceSource::PartialApk`
unfoldable pub is_unattributable : ProvenanceSource → Bool
is_unattributable unavailable = true
is_unattributable partial_apk = true
is_unattributable dpkg = false
is_unattributable apk = false
is_unattributable rpm = false

unfoldable pub known_cap_binaries : List (Text × List Text)
known_cap_binaries =
    (codes "ping", codes "CAP_NET_RAW" ∷ [])
    ∷ (codes "ping4", codes "CAP_NET_RAW" ∷ [])
    ∷ (codes "ping6", codes "CAP_NET_RAW" ∷ [])
    ∷ (codes "mtr", codes "CAP_NET_RAW" ∷ [])
    ∷ (codes "mtr-packet", codes "CAP_NET_ADMIN" ∷ codes "CAP_NET_RAW" ∷ [])
    ∷ (codes "dumpcap", codes "CAP_NET_ADMIN" ∷ codes "CAP_NET_RAW" ∷ [])
    ∷ []

-- `strip_suffix("(inh)").unwrap_or(c)`
unfoldable pub bare : Text → Text
unfolding strip_suffix
bare c = elim (strip_suffix c (codes "(inh)")) [ none ↦ c | some b ↦ b ]

-- The loop over the table: the answer of the first binary of that name.
unfoldable pub known_binary : Text → List Text → List (Text × List Text) → Option (ℕ × String)
unfolding bare
known_binary basename capabilities [] = none
known_binary basename capabilities ((name, allowed) ∷ table) =
    let rest = known_binary basename capabilities table in
    if basename == name
    then if all (λ c. contains allowed (bare c)) capabilities
      then some (0, "known binary with expected capabilities")
      else some (8, "known binary carrying capabilities beyond its baseline")
    else rest

-- `file_name` is `Path::file_name` as a text, empty where the path has none.
unfoldable pub classify_cap_binary : (Text → Text) → FileCapFinding → ProvenanceSource → ℕ × String
unfolding known_binary known_cap_binaries is_unattributable
classify_cap_binary file_name fc source = elim fc.package_name [
  | some p ↦ (0, "owned by installed package")
  | none ↦ elim (known_binary (file_name fc.path) fc.capabilities known_cap_binaries) [
    | some answer ↦ answer
    | none ↦
        if is_unattributable source
        then (2, "package DB unattributable; no structural match")
        else (8, "file not owned by any package")
  ]
]

unfoldable pub setuid_system_dirs : List Text
setuid_system_dirs =
    codes "/usr/bin/"
    ∷ codes "/usr/sbin/"
    ∷ codes "/usr/local/bin/"
    ∷ codes "/usr/local/sbin/"
    ∷ codes "/bin/"
    ∷ codes "/sbin/"
    ∷ codes "/usr/lib/"
    ∷ codes "/usr/libexec/"
    ∷ codes "/usr/local/lib/"
    ∷ codes "/usr/lib64/"
    ∷ []

-- The match at the end of `classify_setuid`: unattributable, in a system directory, owned by root.
unfoldable pub setuid_weight : Bool → Bool → Bool → ℕ × String
setuid_weight true true true = (2, "package DB unattributable; structural fallback")
setuid_weight true true false = (10, "non-root setuid in system dir, DB unattributable")
setuid_weight true false _ = (14, "setuid outside system dirs, DB unattributable")
setuid_weight false true true = (6, "root-owned setuid in system dir, owned by NO package")
setuid_weight false true false = (12, "non-root setuid in a system dir")
setuid_weight false false _ = (14, "setuid outside system binary directories")

unfoldable pub classify_setuid : SetuidFinding → ProvenanceSource → ℕ × String
unfolding setuid_weight is_unattributable
classify_setuid f source = elim f.package_name [
  | some p ↦ (0, "owned by installed package")
  | none ↦
      setuid_weight (is_unattributable source) (starts_with_any setuid_system_dirs f.path)
        f.root_owner
]
