-- ===== src/VerdictCache/Fresh.antt =====
-- When `lookup` of src/verdict_cache.rs returns what `record` stored.
use owlzops_mapper.Common.{
  ℕ, ◌+◌, ◌≤◌, Text, false, Option, none, some, ◌≡◌, ◌≢◌, arith, ◌↔◌, text_beq_iff, text_beq_refl,
  nat_beq_iff, inl, inr, Option-cases, not_true, if◌then◌else◌,
}
use owlzops_mapper.VerdictCache.{
  Cache, Metadata, Verdict, integer_eq, ttl_secs, lookup, record_verdict, get_entry, is_stale,
  changed, age_expired, new_entry, insert_entry,
}

age_expired_iff :
    (now scanned_at : ℕ)
    → (age_expired (some now) scanned_at ≡ false)
      ↔ ((scanned_at ≤ now) × (now ≤ scanned_at + ttl_secs))
unfolding age_expired
age_expired_iff now scanned_at = ground arith

changed_iff :
    (m n : Metadata) (v : Verdict) (t : ℕ)
    → (changed n (new_entry m v t) ≡ false)
      ↔ ((n.ino ≡ m.ino) × (n.mtime ≡ m.mtime) × (n.len ≡ m.len))
unfolding changed new_entry
changed_iff m n v t =
    ground
      (arith, nat_beq_iff n.ino m.ino, nat_beq_iff n.len m.len, integer_eq.beq_iff n.mtime m.mtime)

looked_up :
    (c : Cache) (scanned_at : ℕ) (before after : Text → Option Metadata) (exe : Text)
    (m n : Metadata) (v : Verdict) (now : ℕ)
    → before exe ≡ some m
    → after exe ≡ some n
    → lookup (record_verdict c (some scanned_at) before exe v).0 (some now) after exe ≡ (
        if age_expired (some now) scanned_at
        then none
        else if changed n (new_entry m v scanned_at)
        then none
        else some v)
unfolding lookup record_verdict is_stale get_entry insert_entry new_entry
looked_up c scanned_at before after exe m n v now hb ha = ground (arith, hb, ha, text_beq_refl exe)

-- Where the metadata of the file can be read both times, a verdict recorded at one time is found
-- later exactly if the clock has not gone back and is not past the two weeks, and the file has the
-- inode, the time and the size that it had.
pub lookup-record_verdict :
    (c : Cache) (scanned_at : ℕ) (before after : Text → Option Metadata) (exe : Text)
    (m n : Metadata) (v : Verdict) (now : ℕ)
    → before exe ≡ some m
    → after exe ≡ some n
    → (lookup (record_verdict c (some scanned_at) before exe v).0 (some now) after exe ≡ some v) ↔ (
        (scanned_at ≤ now)
        × (now ≤ scanned_at + ttl_secs)
        × (n.ino ≡ m.ino)
        × (n.mtime ≡ m.mtime)
        × (n.len ≡ m.len))
unfolding lookup record_verdict
lookup-record_verdict c scanned_at before after exe m n v now hb ha =
    rw (looked_up c scanned_at before after exe m n v now hb ha)
      (ground (arith, age_expired_iff now scanned_at, changed_iff m n v scanned_at))

-- Recording a verdict, whatever the clock and the file answer, leaves every other path as it was.
pub lookup-record_other :
    (c : Cache) (clock now : Option ℕ) (before after : Text → Option Metadata) (exe other : Text)
    (v : Verdict)
    → exe ≢ other
    → lookup (record_verdict c clock before exe v).0 now after other ≡ lookup c now after other
unfolding lookup record_verdict get_entry insert_entry
lookup-record_other c none now before after exe other v ne = elim (Option-cases (before exe)) [
  | inl e ↦ ground (arith, e)
  | inr (m, e) ↦ ground (arith, e)
]
lookup-record_other c (some t) now before after exe other v ne =
    let apart = not_true (λ q. ne ((text_beq_iff exe other).0 q)) in
    elim (Option-cases (before exe)) [
      | inl e ↦ ground (arith, e)
      | inr (m, e) ↦ ground (arith, e, apart)
    ]
