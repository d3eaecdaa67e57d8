-- ===== src/Scoring/Rules/Memory/Bucket.antt =====
-- src/scoring.rs, `mem_bucket`: what kind of region an injection is, and src/models.rs,
-- `LibraryInjectionFinding::classify`.
use owlzops_mapper.Common.{
  ℕ, ◌+◌, ◌-◌, ◌*◌, ◌^◌, Text, codes, Bool, true, false, not, ◌&&◌, ◌||◌, List, [], ◌∷◌, ◌++◌,
  Option, none, some, if◌then◌else◌, ◌==◌, nat_eq, text_eq, any, ltb, leb, is_some, is_none,
  starts_with, ends_with, contains_text, split_once,
}
use owlzops_mapper.Utils.Paths.{is_loopback_bind}
use owlzops_mapper.Utils.Provenance.{
  Host, ExeProvenance, exe_provenance, installed_app, nested_user_install,
}
use owlzops_mapper.Scoring.Rules.Push.{is_some_and}
use owlzops_mapper.Report.{Facts}
use owlzops_mapper.Report.Process.{
  LibraryInjectionFinding, DeepMemoryAnalysis, Origin, PointerKind, lib_text, jit_cluster, lib_data,
  unmapped,
}

pub data InjectionClass : Type 0 where
  classic_injection memory_anomaly jit_advisory : InjectionClass

unfoldable pub classify : LibraryInjectionFinding → InjectionClass
unfolding starts_with ends_with
classify f =
    if f.source == codes "maps" || starts_with f.source (codes "LD_")
    then classic_injection
    else if starts_with f.source (codes "maps-rwx-jit")
        || starts_with f.source (codes "maps-rx-jit")
        || f.source == codes "maps-so-jit-extract"
        || f.source == codes "maps-so-tmp-unverified"
        || f.source == codes "maps-so-unlink-on-load"
        || f.source == codes "maps-rwx-cached-clean"
        || f.source == codes "maps-rwx-provisional"
        || f.source == codes "maps-rwx-runtime-allowlist"
        || f.source == codes "maps-rwx-stale-after-upgrade"
        || ends_with f.source (codes "-jit")
    then jit_advisory
    else memory_anomaly

abbrev pub deep_escalate_min : ℕ
deep_escalate_min = 60

abbrev pub deep_demote_min : ℕ
deep_demote_min = 70

unfoldable pub is_trumping_malice : DeepMemoryAnalysis → Bool
is_trumping_malice d = d.entropy.at_least_7 || d.image_header

abbrev pub is_code_pointer : PointerKind → Bool
is_code_pointer lib_text = true
is_code_pointer jit_cluster = true
is_code_pointer lib_data = false
is_code_pointer unmapped = false

unfoldable pub is_benign_shape : DeepMemoryAnalysis → Bool
is_benign_shape d =
    is_some d.prologue
    && d.entropy.below_6_5
    && any (λ p. is_code_pointer p.kind) d.resolved_pointers

abbrev pub is_installed : ExeProvenance → Bool
is_installed installed_app = true
is_installed nested_user_install = true
is_installed _ = false

unfoldable pub reputable_exe : Host → LibraryInjectionFinding → Bool
unfolding contains_text
reputable_exe host f =
    contains_text f.source (codes "cached-clean")
    || contains_text f.source (codes "provisional")
    || contains_text f.source (codes "allowlist")
    || is_some_and (λ exe. is_installed (exe_provenance host exe f.pid)) f.exe_path

unfoldable pub known_runtime_comms : List Text
known_runtime_comms =
    codes "php-fpm"
    ∷ codes "php"
    ∷ codes "nginx"
    ∷ codes "hestia-nginx"
    ∷ codes "node"
    ∷ codes "next-server"
    ∷ codes "gjs"
    ∷ codes "telegram"
    ∷ []

unfoldable pub comm_asserts_runtime : Text → Bool
unfolding starts_with known_runtime_comms
comm_asserts_runtime process =
    any
      (λ k.
        process == k
        || starts_with process (k ++ codes ".")
        || starts_with process (k ++ codes ":")
        || starts_with process (k ++ codes " "))
      known_runtime_comms

unfoldable pub process_behavior_clean : ℕ → Facts → Bool
unfolding contains_text
process_behavior_clean pid r =
    not (
      any (λ p. is_some_and (λ q. q == pid) p.pid && not (is_loopback_bind p.bind_address))
        r.network.listening_ports)
    && not (
        any (λ f. f.pid == pid && contains_text f.source (codes "ptrace"))
          r.security.library_injections)

pub data MemBucket : Type 0 where
  classic deep_critical anomaly advisory trusted_unverified unlink_ghost : MemBucket

-- The match on the origin that comes first; with no answer the code goes on.
unfoldable pub origin_bucket :
    Host → Facts → LibraryInjectionFinding → DeepMemoryAnalysis → Option MemBucket
unfolding process_behavior_clean reputable_exe comm_asserts_runtime
origin_bucket host r f d =
    let demoted = if leb deep_demote_min d.confidence then some advisory else none in
    elim d.origin [
      | Origin.unknown_payload ↦
          if leb deep_escalate_min d.confidence then some deep_critical else none
      | Origin.ffi_closure ↦ demoted
      | Origin.g_object_callback ↦ demoted
      | Origin.hot_spot ↦ demoted
      | Origin.pcre2_jit ↦ demoted
      | Origin.jit_code ↦ demoted
      | Origin.managed_jit ↦ demoted
      | Origin.reserved_buffer ↦ demoted
      | Origin.runtime_trampoline ↦ demoted
      | Origin.inconclusive ↦
          if process_behavior_clean f.pid r
            && (reputable_exe host f || is_none f.exe_path && comm_asserts_runtime f.process)
          then some trusted_unverified
          else none
      | Origin.ghost_clean_image ↦ none
      | Origin.ghost_suspect_image ↦ none
      | Origin.ghost_inconclusive ↦ none
    ]

abbrev pub by_shape : DeepMemoryAnalysis → MemBucket → MemBucket
by_shape d otherwise = if is_benign_shape d then advisory else otherwise

-- The source "maps-so-unlink-on-load".
unfoldable pub ghost_bucket : Option DeepMemoryAnalysis → MemBucket
unfolding is_benign_shape
ghost_bucket none = unlink_ghost
ghost_bucket (some d) = elim d.origin [
  | Origin.ghost_clean_image ↦
      if leb deep_demote_min d.confidence then advisory else by_shape d unlink_ghost
  | Origin.ghost_suspect_image ↦
      if leb deep_escalate_min d.confidence then deep_critical else by_shape d unlink_ghost
  | Origin.ghost_inconclusive ↦ unlink_ghost
  | _ ↦ by_shape d unlink_ghost
]

abbrev pub class_bucket : InjectionClass → MemBucket
class_bucket classic_injection = classic
class_bucket memory_anomaly = anomaly
class_bucket jit_advisory = advisory

-- What comes behind the match on the origin: the source decides.
unfoldable pub source_bucket : LibraryInjectionFinding → MemBucket
unfolding ghost_bucket is_benign_shape classify
source_bucket f =
    if f.source == codes "maps-so-unlink-on-load"
    then ghost_bucket f.deep_forensics
    else if f.source == codes "maps-rwx-provisional"
        || f.source == codes "maps-rwx-runtime-allowlist"
        || f.source == codes "maps-rwx-cached-clean"
        || f.source == codes "maps-so-tmp-unverified"
    then elim f.deep_forensics [
      | none ↦ trusted_unverified
      | some d ↦ by_shape d trusted_unverified
    ]
    else class_bucket (classify f)

unfoldable pub mem_bucket : Host → Facts → LibraryInjectionFinding → MemBucket
unfolding source_bucket is_trumping_malice origin_bucket
mem_bucket host r f = elim f.deep_forensics [
  | none ↦ source_bucket f
  | some d ↦
      if is_trumping_malice d
      then deep_critical
      else elim (origin_bucket host r f d) [ none ↦ source_bucket f | some b ↦ b ]
]

abbrev pub trampoline_max_bytes : ℕ
trampoline_max_bytes = 4096

abbrev pub hex_digit : ℕ → Option ℕ
hex_digit c =
    if leb b'0' c && leb c b'9'
    then some (c - b'0')
    else if leb b'a' c && leb c b'f'
    then some (c - b'a' + 10)
    else if leb b'A' c && leb c b'F'
    then some (c - b'A' + 10)
    else none

unfoldable pub hex_digits : ℕ → Text → Option ℕ
hex_digits n [] = some n
hex_digits n (c ∷ s) = elim (hex_digit c) [ none ↦ none | some d ↦ hex_digits (n * 16 + d) s ]

abbrev pub fits_usize : Option ℕ → Option ℕ
fits_usize none = none
fits_usize (some n) = if ltb n (2 ^ 64) then some n else none

-- `usize::from_str_radix(s, 16)` of a 64-bit target: an optional plus sign, digits, in range.
unfoldable pub from_str_radix_16 : Text → Option ℕ
unfolding hex_digits
from_str_radix_16 [] = none
from_str_radix_16 (c ∷ s) =
    if c == b'+'
    then (if s == [] then none else fits_usize (hex_digits 0 s))
    else fits_usize (hex_digits 0 (c ∷ s))

-- `e.checked_sub(s) == Some(4096)`
unfoldable pub is_one_page : Text → Bool
unfolding from_str_radix_16 split_once
is_one_page region = elim (split_once (λ c. c == b'-') region) [
  | none ↦ false
  | some (start_at, end_at) ↦ elim (from_str_radix_16 start_at) [
    | none ↦ false
    | some s ↦
        is_some_and (λ e. leb s e && e - s == trampoline_max_bytes) (from_str_radix_16 end_at)
  ]
]

unfoldable pub is_trampoline_page : LibraryInjectionFinding → Bool
unfolding starts_with contains_text is_one_page
is_trampoline_page f =
    (starts_with f.source (codes "maps-anon-rx") || contains_text f.source (codes "r-xp"))
    && is_some_and is_one_page f.region_addr
