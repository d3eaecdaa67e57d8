-- ===== src/Scoring/Rules/Memory.antt =====
-- src/scoring.rs, `evaluate`: regions of memory. The code lists the processes of a HashMap in the
-- order of its buckets: `bucket_order` is that order of the texts.
pub mod Bucket
use owlzops_mapper.Common.{
  ℕ, ◌+◌, Text, codes, Bool, true, false, not, ◌&&◌, ◌||◌, List, [], ◌∷◌, ◌++◌, Option, none, some,
  if◌then◌else◌, any, filter, map, length, decimal, is_none, contains_text, text_eq, String,
}
use owlzops_mapper.Utils.Provenance.{Host}
use owlzops_mapper.Scoring.Finding.{Finding, Category, Scanner, join}
use owlzops_mapper.Scoring.Rules.Push.{finding, push_if, non_empty, counted, or_else, update_entry}
use owlzops_mapper.Scoring.Rules.Processes.{with_pid}
use owlzops_mapper.Scoring.Rules.Memory.Bucket.{
  MemBucket, classic, deep_critical, anomaly, advisory, trusted_unverified, unlink_ghost,
  mem_bucket, is_trampoline_page,
}
use owlzops_mapper.Report.{Facts}
use owlzops_mapper.Report.Process.{LibraryInjectionFinding}

-- The six lists of the loop.
pub record Regions : Type 0 where
  pub classic_injections : List LibraryInjectionFinding
  pub deep_critical : List LibraryInjectionFinding
  pub memory_anomalies : List LibraryInjectionFinding
  pub jit_advisories : List LibraryInjectionFinding
  pub provisional_regions : List LibraryInjectionFinding
  pub unlink_ghosts : List LibraryInjectionFinding

abbrev pub no_regions : Regions
no_regions = record {
  classic_injections = [];
  deep_critical = [];
  memory_anomalies = [];
  jit_advisories = [];
  provisional_regions = [];
  unlink_ghosts = [];
}

unfoldable pub push_region : MemBucket → LibraryInjectionFinding → Regions → Regions
unfolding is_trampoline_page
push_region MemBucket.classic f g = record g { classic_injections = g.classic_injections ++ f ∷ [] }
push_region MemBucket.deep_critical f g = record g { deep_critical = g.deep_critical ++ f ∷ [] }
push_region MemBucket.anomaly f g =
    if is_trampoline_page f
    then record g { provisional_regions = g.provisional_regions ++ f ∷ [] }
    else record g { memory_anomalies = g.memory_anomalies ++ f ∷ [] }
push_region MemBucket.advisory f g = record g { jit_advisories = g.jit_advisories ++ f ∷ [] }
push_region MemBucket.trusted_unverified f g = record g {
  provisional_regions = g.provisional_regions ++ f ∷ [];
}
push_region MemBucket.unlink_ghost f g = record g { unlink_ghosts = g.unlink_ghosts ++ f ∷ [] }

unfoldable pub sort_regions : Host → Facts → List LibraryInjectionFinding → Regions → Regions
unfolding push_region mem_bucket
sort_regions host r [] g = g
sort_regions host r (f ∷ fs) g = sort_regions host r fs (push_region (mem_bucket host r f) f g)

unfoldable pub regions : Host → Facts → Regions
unfolding sort_regions
regions host r = sort_regions host r r.security.library_injections no_regions

abbrev pub injected_text : LibraryInjectionFinding → Text
injected_text l =
    with_pid l.process l.pid []
    ++ codes ": "
    ++ l.object_path
    ++ codes " via "
    ++ l.source
    ++ (if l.is_deleted then codes " (deleted)" else [])

unfoldable pub classic_injections : Regions → List Finding
classic_injections g = push_if (non_empty g.classic_injections) (
    finding "SEC-023" Scanner.security
      (codes "ACTIVE COMPROMISE: Userspace rootkit or code injection detected") Category.security 60
      (counted (length g.classic_injections) (codes " injected object(s): ")
        ++ join (map injected_text g.classic_injections) (codes "; "))
      none none)

-- The entropy, as shown, and the confidence.
unfoldable pub payload_figures : LibraryInjectionFinding → Text × ℕ
payload_figures l = elim l.deep_forensics [
  | none ↦ (codes "0.0", 0)
  | some d ↦ (d.entropy.one_decimal, d.confidence)
]

unfoldable pub payload_text : LibraryInjectionFinding → Text
unfolding payload_figures
payload_text l =
    with_pid l.process l.pid []
    ++ codes " @ "
    ++ or_else l.region_addr (codes "?")
    ++ codes ": unattributed RWX payload (entropy "
    ++ (payload_figures l).0
    ++ codes ", "
    ++ decimal (payload_figures l).1
    ++ codes "% conf)"

unfoldable pub unattributed_payloads : Regions → List Finding
unfolding payload_text
unattributed_payloads g = push_if (non_empty g.deep_critical) (
    finding "SEC-028" Scanner.security
      (codes "ACTIVE COMPROMISE: unattributed executable payload in memory") Category.security 60
      (counted (length g.deep_critical) (codes " region(s): ")
        ++ join (map payload_text g.deep_critical) (codes "; "))
      none none)

-- `entry(key).or_insert((0, None))`, the count raised and the first address kept.
unfoldable pub first_regions :
    List LibraryInjectionFinding → List (Text × (ℕ × Option Text)) → List (Text × (ℕ × Option Text))
unfolding update_entry
first_regions [] entries = entries
first_regions (f ∷ fs) entries = first_regions fs (
    update_entry (with_pid f.process f.pid []) (0, none)
      (λ e. (e.0 + 1, if is_none e.1 then f.region_addr else e.1)) entries)

unfoldable pub region_counts : List LibraryInjectionFinding → List (Text × ℕ) → List (Text × ℕ)
unfolding update_entry
region_counts [] entries = entries
region_counts (f ∷ fs) entries =
    region_counts fs (update_entry (with_pid f.process f.pid []) 0 (λ n. n + 1) entries)

-- "{process}: {n} {words}" for each process.
unfoldable pub count_texts : Text → List LibraryInjectionFinding → List Text
unfolding region_counts
count_texts words fs = map (λ e. e.0 ++ codes ": " ++ decimal e.1 ++ words) (region_counts fs [])

module _ (bucket_order : List Text → List Text) where
  unfoldable pub memory_anomalies : Regions → List Finding
  unfolding first_regions contains_text
  memory_anomalies g =
      let texts =
        map
          (λ e.
            e.0
            ++ codes " (first @ "
            ++ or_else e.1.1 (codes "?")
            ++ codes "): "
            ++ decimal e.1.0
            ++ codes " anomalous region(s)")
          (first_regions g.memory_anomalies []) in
      push_if (non_empty g.memory_anomalies) (
        finding "SEC-026" Scanner.security
          (codes "Suspicious executable memory mapping (anon/rwx/stack/heap)") Category.security
          (if any
              (λ l. contains_text l.source (codes "exec") || contains_text l.source (codes "rwx"))
              g.memory_anomalies
            then 20
            else 10)
          (counted (length g.memory_anomalies)
              (codes " process(es) with anomalous memory mappings: ")
            ++ join (bucket_order texts) (codes "; "))
          none none)

  unfoldable pub provisional_regions : Regions → List Finding
  unfolding count_texts
  provisional_regions g = push_if (non_empty g.provisional_regions) (
      finding "SEC-029" Scanner.security
        (codes "Provisional memory regions (trampolines, unverified, etc.)") Category.security 0
        (counted (length g.provisional_regions) (
            codes " region(s) in allowlisted or low-risk patterns "
            ++ codes "(e.g. single-page r-x trampolines): ")
          ++ join (bucket_order (count_texts (codes " region(s)") g.provisional_regions))
              (codes "; "))
        (some (
          codes "These regions match known benign patterns (trampoline pages, unverified JIT). "
          ++ codes "Trust is PROVISIONAL; a new region between snapshots is surfaced as drift."))
        none)

  unfoldable pub jit_advisories : Regions → List Finding
  unfolding count_texts
  jit_advisories g = push_if (non_empty g.jit_advisories) (
      finding "SEC-027" Scanner.security (codes "Writable JIT code cache — hardening opportunity")
        Category.security 0
        (counted (length g.jit_advisories) (codes " process(es) using writable JIT arenas: ")
          ++ join (bucket_order (count_texts (codes " JIT regions") g.jit_advisories)) (codes "; "))
        (some
          (codes "JIT topology verified; structural pattern matches expected runtime behavior."))
        none)

abbrev pub ghost_text : LibraryInjectionFinding → Text
ghost_text f =
    with_pid f.process f.pid []
    ++ codes ": "
    ++ f.object_path
    ++ codes " — recover: /proc/"
    ++ decimal f.pid
    ++ codes "/map_files/"
    ++ or_else f.region_addr (codes "?")

unfoldable pub unlink_ghosts : Regions → List Finding
unlink_ghosts g = push_if (non_empty g.unlink_ghosts) (
    finding "SEC-033" Scanner.security
      (codes "Deleted temp-extract .so — unlink-on-load pattern (UNVERIFIED ghost inode)")
      Category.security 0
      (counted (length g.unlink_ghosts) (
          codes " deleted .so mapping(s) matching the JVM unlink-on-load extract profile "
          ++ codes "(trusted runtime, ld.so segment family, W^X across family, no LD_* "
          ++ codes "co-occurrence): ")
        ++ join (map ghost_text g.unlink_ghosts) (codes "; ")
        ++ codes ". The inode is alive while mapped — run --deep to "
        ++ codes "verify its content.")
      (some (
        codes "Structural profile matches Netty/JNA-style unlink-after-dlopen extraction "
        ++ codes "in a trusted runtime. Trust is PROVISIONAL: the on-disk file no longer "
        ++ codes "exists and the ghost inode content has not been verified. A clean-ELF "
        ++ codes "implant loaded the same way is indistinguishable at this tier."))
      none)
