-- ===== src/KnownHosts/Verify/Laws.antt =====
-- src/known_hosts.rs: when `verify` accepts, refuses and pins.
use owlzops_mapper.Common.{
  not, Text, Bool, true, false, not, ◌&&◌, List, [], ◌∷◌, Option, none, some, ◌≡◌, refl, ◌↔◌, Any,
  All, any, filter, arith, Bool-cases, if◌then◌else◌, inl, inr,
}
use owlzops_mapper.KnownHosts.Load.{KnownHostEntry}
use owlzops_mapper.KnownHosts.Verify.{
  Checker, host_key_revoked, known, refused, first_use, same_key, revoked_match, matched, conflict,
  scan_current, pin_line, after_scan, decide_key, canonical_key_type,
}

abbrev first_of : Option KnownHostEntry → List KnownHostEntry → Option KnownHostEntry
first_of none [] = none
first_of none (e ∷ es) = some e
first_of (some c) es = some c

module _ (ptype pdata : Text) where
  scan_current-eq :
      (first : Option KnownHostEntry) (es : List KnownHostEntry)
      → scan_current ptype pdata first es
        ≡ (if any (same_key ptype pdata) es then matched else conflict (first_of first es))
  unfolding scan_current
  scan_current-eq first [] = ground arith
  scan_current-eq none (e ∷ es) = ground (arith, scan_current-eq (some e) es)
  scan_current-eq (some c) (e ∷ es) = ground (arith, scan_current-eq (some c) es)

-- The entries of the second pass.
abbrev pub current : List KnownHostEntry → List KnownHostEntry
current es = filter (λ (e : KnownHostEntry). not e.revoked) es

-- The two passes, for any test of an entry.
module _ (s : KnownHostEntry → Bool) where
  abbrev in_revoked : List KnownHostEntry → Bool
  in_revoked es = any s (filter (λ (e : KnownHostEntry). e.revoked) es)

  in_revoked→Any :
      (es : List KnownHostEntry)
      → in_revoked es ≡ true
      → Any (λ e. (e.revoked ≡ true) × (s e ≡ true)) es
  in_revoked→Any [] h = absurd (cc)
  in_revoked→Any (e ∷ es) h = elim (Bool-cases (e.revoked && s e)) [
    | inl q ↦ inl (ground arith)
    | inr q ↦ inr (in_revoked→Any es (ground arith))
  ]

  Any→in_revoked :
      (es : List KnownHostEntry)
      → Any (λ e. (e.revoked ≡ true) × (s e ≡ true)) es
      → in_revoked es ≡ true
  Any→in_revoked [] h = absurd h
  Any→in_revoked (e ∷ es) (inl h) = ground arith
  Any→in_revoked (e ∷ es) (inr h) = ground (arith, Any→in_revoked es h)

  not_in_revoked→All :
      (es : List KnownHostEntry) → in_revoked es ≡ false → All (λ e. (e.revoked && s e) ≡ false) es
  not_in_revoked→All [] h = tt
  not_in_revoked→All (e ∷ es) h = (ground arith, not_in_revoked→All es (ground arith))

  All→not_in_revoked :
      (es : List KnownHostEntry) → All (λ e. (e.revoked && s e) ≡ false) es → in_revoked es ≡ false
  All→not_in_revoked [] h = refl
  All→not_in_revoked (e ∷ es) h = ground (arith, All→not_in_revoked es h.1)

  in_current→Any :
      (es : List KnownHostEntry)
      → any s (current es) ≡ true
      → Any (λ e. (e.revoked ≡ false) × (s e ≡ true)) es
  in_current→Any [] h = absurd (cc)
  in_current→Any (e ∷ es) h = elim (Bool-cases (not e.revoked && s e)) [
    | inl q ↦ inl (ground arith)
    | inr q ↦ inr (in_current→Any es (ground arith))
  ]

  Any→in_current :
      (es : List KnownHostEntry)
      → Any (λ e. (e.revoked ≡ false) × (s e ≡ true)) es
      → any s (current es) ≡ true
  Any→in_current [] h = absurd h
  Any→in_current (e ∷ es) (inl h) = ground arith
  Any→in_current (e ∷ es) (inr h) = ground (arith, Any→in_current es h)

  quiet→All :
      (es : List KnownHostEntry)
      → in_revoked es ≡ false
      → first_of none (current es) ≡ none
      → All (λ e. (e.revoked ≡ true) × (s e ≡ false)) es
  quiet→All [] h k = tt
  quiet→All (e ∷ es) h k = elim (Bool-cases e.revoked) [
    | inl q ↦ ((q, ground arith), quiet→All es (ground arith) (rw q at k))
    | inr q ↦ absurd (ground arith)
  ]

  All→quiet :
      (es : List KnownHostEntry)
      → All (λ e. (e.revoked ≡ true) × (s e ≡ false)) es
      → (in_revoked es ≡ false) × (current es ≡ [])
  All→quiet [] h = (refl, refl)
  All→quiet (e ∷ es) h = ground (arith, All→quiet es h.1)

module _ (c : Checker) (ptype pdata : Text) where
  abbrev canonical : Text
  canonical = canonical_key_type ptype

  abbrev same : KnownHostEntry → Bool
  same e = same_key canonical pdata e

  decide_key-eq : decide_key c ptype pdata ≡ (
      if in_revoked same c.entries
      then refused host_key_revoked
      else after_scan c canonical pdata (
          if any same (current c.entries)
          then matched
          else conflict (first_of none (current c.entries))))
  unfolding decide_key revoked_match
  decide_key-eq = rw (scan_current-eq canonical pdata none (current c.entries)) refl

  -- A revoked key of this host is refused, whatever other entries say, and only such a key is
  -- refused as revoked.
  pub decide_key-revoked_iff :
      (decide_key c ptype pdata ≡ refused host_key_revoked)
      ↔ Any
          (λ e. (e.revoked ≡ true) × (same_key (canonical_key_type ptype) pdata e ≡ true))
          c.entries
  unfolding after_scan
  decide_key-revoked_iff = (
    λ h. in_revoked→Any same c.entries (ground (arith, decide_key-eq)),
    λ h. ground (arith, decide_key-eq, Any→in_revoked same c.entries h),
  )

  -- A key is accepted as known exactly if no revoked entry has it and an entry that is not revoked
  -- does.
  pub decide_key-known_iff : (decide_key c ptype pdata ≡ known) ↔ (
      All (λ e. (e.revoked && same_key (canonical_key_type ptype) pdata e) ≡ false) c.entries
      × Any
          (λ e. (e.revoked ≡ false) × (same_key (canonical_key_type ptype) pdata e ≡ true))
          c.entries)
  unfolding after_scan
  decide_key-known_iff = (
    λ h. (
      not_in_revoked→All same c.entries (ground (arith, decide_key-eq)),
      in_current→Any same c.entries (ground (arith, decide_key-eq)),
    ),
    λ h. ground (
      arith,
      decide_key-eq,
      All→not_in_revoked same c.entries h.0,
      Any→in_current same c.entries h.1,
    ),
  )

  -- A key is pinned on first use exactly if the trust stores hold no entry for the host but revoked
  -- ones of other keys, and no marker that cannot be evaluated.
  pub decide_key-first_use_iff :
      (line : Text)
      → (decide_key c ptype pdata ≡ first_use line) ↔ (
          All
            (λ e. (e.revoked ≡ true) × (same_key (canonical_key_type ptype) pdata e ≡ false))
            c.entries
          × (c.unsupported_marker ≡ none)
          × (line ≡ pin_line c (canonical_key_type ptype) pdata))
  unfolding after_scan
  decide_key-first_use_iff line = (
    λ h. (
      quiet→All same c.entries (ground (arith, decide_key-eq)) (ground (arith, decide_key-eq)),
      ground (arith, decide_key-eq),
      ground (arith, decide_key-eq),
    ),
    λ h. ground (arith, decide_key-eq, All→quiet same c.entries h.0),
  )
