-- ===== src/KnownHosts/Verify.antt =====
-- src/known_hosts.rs: `verify`, the decision on the key that a server presents, and the pin that a
-- first use appends to the trust store.
pub mod Laws
use owlzops_mapper.Common.{
  ℕ, Text, codes, Bool, true, false, not, ◌&&◌, ◌||◌, List, [], ◌∷◌, ◌++◌, Option, none, some, ◌==◌,
  text_eq, if◌then◌else◌, any, filter, split_whitespace, text_beq,
}
use owlzops_mapper.Utils.Sanitize.{sanitize_for_log}
use owlzops_mapper.KnownHosts.Load.{TrustStore, KnownHostEntry, as_line, host_candidates}

unfoldable pub canonical_key_type : Text → Text
canonical_key_type t =
    if t == codes "rsa-sha2-256" || t == codes "rsa-sha2-512" then codes "ssh-rsa" else t

pub record Checker : Type 0 where
  pub host : Text
  pub port : ℕ
  pub entries : List KnownHostEntry
  pub unsupported_marker : Option Text
  pub pin_failure : Option Text

pub data RemoteError : Type 0 where
  host_key_check : RemoteError
  host_key_revoked : RemoteError
  host_key_changed : TrustStore → Text → ℕ → RemoteError
  host_key_unsupported_trust : Text → RemoteError

-- What became of the line that a first use appends: the file's own answer.
pub data Append : Type 0 where
  written : Append
  failed : Text → Append

-- What `verify` decides before it touches the disk; `first_use` holds the line to append.
pub data Decision : Type 0 where
  known : Decision
  refused : RemoteError → Decision
  first_use : Text → Decision

-- The presented key, type and data, is the one of the entry.
unfoldable pub same_key : Text → Text → KnownHostEntry → Bool
unfolding canonical_key_type
same_key ptype_canon pdata e = canonical_key_type e.key_type == ptype_canon && e.key_data == pdata

-- The two passes over the entries: the revoked ones, then the others, of which the first is kept
-- as the conflict.
unfoldable pub revoked_match : Text → Text → List KnownHostEntry → Bool
revoked_match ptype pdata entries =
    any (same_key ptype pdata) (filter (λ (e : KnownHostEntry). e.revoked) entries)

pub data Scan : Type 0 where
  matched : Scan
  conflict : Option KnownHostEntry → Scan

-- `Option::get_or_insert_with`
abbrev pub get_or_insert : Option KnownHostEntry → KnownHostEntry → Option KnownHostEntry
get_or_insert none e = some e
get_or_insert (some first) e = some first

unfoldable pub scan_current : Text → Text → Option KnownHostEntry → List KnownHostEntry → Scan
scan_current ptype pdata first [] = conflict first
scan_current ptype pdata first (e ∷ es) =
    let rest = scan_current ptype pdata (get_or_insert first e) es in
    if same_key ptype pdata e then matched else rest

unfoldable pub pin_line : Checker → Text → Text → Text
pin_line c ptype pdata = elim (host_candidates c.host c.port) [
  | [] ↦ []
  | candidate ∷ _ ↦ candidate ++ (codes " " ++ (ptype ++ (codes " " ++ (pdata ++ codes "\n"))))
]

unfoldable pub after_scan : Checker → Text → Text → Scan → Decision
after_scan c ptype pdata matched = known
after_scan c ptype pdata (conflict (some e)) =
    refused (host_key_changed e.store (sanitize_for_log (as_line e)) e.line_number)
after_scan c ptype pdata (conflict none) = elim c.unsupported_marker [
  | some marker ↦ refused (host_key_unsupported_trust marker)
  | none ↦ first_use (pin_line c ptype pdata)
]

unfoldable pub decide_key : Checker → Text → Text → Decision
decide_key c ptype pdata =
    if revoked_match (canonical_key_type ptype) pdata c.entries
    then refused host_key_revoked
    else after_scan c (canonical_key_type ptype) pdata (
        scan_current (canonical_key_type ptype) pdata none
          (filter (λ (e : KnownHostEntry). not e.revoked) c.entries))

-- `presented` is the key in OpenSSH's format, if it has one.
unfoldable pub decide_presented : Checker → Option Text → Decision
decide_presented c none = refused host_key_check
decide_presented c (some presented) = elim (split_whitespace presented) [
  | [] ↦ refused host_key_check
  | ptype ∷ [] ↦ refused host_key_check
  | ptype ∷ pdata ∷ _ ↦ decide_key c ptype pdata
]

pub data Verified : Type 0 where
  ok : Verified
  err : RemoteError → Verified

unfoldable pub not_pinned : Text → Text → Text
not_pinned host kind =
    codes "host key for "
    ++ (host
        ++ (codes " was NOT pinned ("
            ++ (kind
                ++ codes ") — every subsequent scan of this host will trust-on-first-use again")))

-- `OnceLock::set`: the first value stays.
abbrev pub set_once : Option Text → Text → Option Text
set_once none note = some note
set_once (some first) note = some first

abbrev pub note_append : Checker → Append → Checker
note_append c written = c
note_append c (failed kind) = record c {
  pin_failure = set_once c.pin_failure (not_pinned c.host kind);
}

-- The answer, the line handed to the pin file, and the checker afterwards.
unfoldable pub verify : Checker → Option Text → Append → Verified × Option Text × Checker
verify c presented append = elim (decide_presented c presented) [
  | known ↦ (ok, none, c)
  | refused e ↦ (err e, none, c)
  | first_use line ↦ (ok, some line, note_append c append)
]

pub take_pin_failure : Checker → Option Text
take_pin_failure c = c.pin_failure
