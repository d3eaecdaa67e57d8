-- ===== src/VerdictCache.antt =====
-- src/verdict_cache.rs: verdicts kept for one file by its inode, time and size, for two weeks.
pub mod Fresh
use owlzops_mapper.Common.{
  ℕ, ◌+◌, ◌-◌, ◌*◌, Text, Bool, true, false, not, ◌||◌, List, [], ◌∷◌, Option, none, some, ◌==◌,
  nat_eq, text_eq, text_beq, if◌then◌else◌, ltb, leb, Eq, ◌≡◌, ◌↔◌, ap, nat_beq_iff,
}

abbrev pub cache_version : ℕ
cache_version = 1

abbrev pub ttl_secs : ℕ
ttl_secs = 14 * 24 * 3600

pub data Verdict : Type 0 where
  benign malicious : Verdict

-- Seconds since the epoch, which may lie before it.
pub data ℤ : Type 0 where
  pos negsuc : ℕ → ℤ

unfoldable pub integer_beq : ℤ → ℤ → Bool
integer_beq (pos a) (pos b) = a == b
integer_beq (negsuc a) (negsuc b) = a == b
integer_beq _ _ = false

pub integer_beq_iff : (a b : ℤ) → (integer_beq a b ≡ true) ↔ (a ≡ b)
unfolding integer_beq
integer_beq_iff (pos a) (pos b) =
    (λ h. ap pos ((nat_beq_iff a b).0 h), λ e. (nat_beq_iff a b).1 (cc))
integer_beq_iff (negsuc a) (negsuc b) =
    (λ h. ap negsuc ((nat_beq_iff a b).0 h), λ e. (nat_beq_iff a b).1 (cc))
integer_beq_iff (pos a) (negsuc b) = (λ h. absurd (cc), λ e. absurd (cc))
integer_beq_iff (negsuc a) (pos b) = (λ h. absurd (cc), λ e. absurd (cc))

instance abbrev pub integer_eq : Eq ℤ
integer_eq = record { beq = integer_beq; beq_iff = integer_beq_iff }

pub record Entry : Type 0 where
  pub inode : ℕ
  pub mtime : ℤ
  pub size : ℕ
  pub verdict : Verdict
  pub scanned_at : ℕ
  pub version : ℕ
  pub sha256 : Text

-- What `metadata` tells of a file.
pub record Metadata : Type 0 where
  pub ino : ℕ
  pub mtime : ℤ
  pub len : ℕ

-- The map from paths to entries; the path of the cache file itself is not a part of the model.
pub record Cache : Type 0 where
  pub entries : List (Text × Entry)
  pub dirty : Bool

-- `checked_sub`
abbrev pub checked_sub : ℕ → ℕ → Option ℕ
checked_sub a b = if leb b a then some (a - b) else none

-- `now` is none when the clock is unusable.
unfoldable pub age_expired : Option ℕ → ℕ → Bool
age_expired none scanned_at = true
age_expired (some n) scanned_at = elim (checked_sub n scanned_at) [
  | none ↦ true
  | some age ↦ ltb ttl_secs age
]

unfoldable pub is_stale : Entry → Option ℕ → Bool
unfolding age_expired
is_stale e now = not (e.version == cache_version) || age_expired now e.scanned_at

unfoldable pub get_entry : List (Text × Entry) → Text → Option Entry
get_entry [] exe = none
get_entry ((k, e) ∷ es) exe = if k == exe then some e else get_entry es exe

unfoldable pub insert_entry : List (Text × Entry) → Text → Entry → List (Text × Entry)
insert_entry es exe e = (exe, e) ∷ es

-- What was read of the cache file, if it could be read and parsed.
unfoldable pub load_cache : Option (List (Text × Entry)) → Cache
load_cache none = record { entries = []; dirty = false }
load_cache (some es) = record { entries = es; dirty = false }

unfoldable pub changed : Metadata → Entry → Bool
changed m e = not (m.ino == e.inode) || not (m.mtime == e.mtime) || not (m.len == e.size)

unfoldable pub lookup : Cache → Option ℕ → (Text → Option Metadata) → Text → Option Verdict
unfolding is_stale changed get_entry
lookup c now metadata exe = elim (get_entry c.entries exe) [
  | none ↦ none
  | some e ↦ if is_stale e now then none else elim (metadata exe) [
    | none ↦ none
    | some m ↦ if changed m e then none else some e.verdict
  ]
]

unfoldable pub new_entry : Metadata → Verdict → ℕ → Entry
new_entry m verdict scanned_at = record {
  inode = m.ino;
  mtime = m.mtime;
  size = m.len;
  verdict = verdict;
  scanned_at = scanned_at;
  version = cache_version;
  sha256 = [];
}

-- The cache afterwards, and whether the note on the unusable clock was given.
unfoldable pub record_verdict :
    Cache → Option ℕ → (Text → Option Metadata) → Text → Verdict → Cache × Bool
unfolding new_entry insert_entry
record_verdict c now metadata exe verdict = elim (metadata exe) [
  | none ↦ (c, false)
  | some m ↦ elim now [
    | none ↦ (c, true)
    | some scanned_at ↦ (
      record {
        entries = insert_entry c.entries exe (new_entry m verdict scanned_at);
        dirty = true;
      },
      false,
    )
  ]
]

-- The entries handed to the serialiser, if the cache was modified.
unfoldable pub persist : Cache → Option (List (Text × Entry))
persist c = if c.dirty then some c.entries else none
