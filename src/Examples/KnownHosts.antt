-- ===== src/Examples/KnownHosts.antt =====
-- src/known_hosts.rs at concrete trust stores.
use owlzops_mapper.KnownHosts.Glob.Ends.{glob_match-ends}
use owlzops_mapper.KnownHosts.Algorithms.{Algorithm, algorithm_eq, pinned_algorithms}
use owlzops_mapper.KnownHosts.Algorithms.Offer.{IsUnique, offers, pinned_algorithms-offers}
use owlzops_mapper.Common.{
  Bool, contains, any, Text, true, false, ◌&&◌, [], ◌∷◌, none, some, codes, as_bytes, ◌≡◌, ◌≢◌,
  refl, arith, ◌↔◌, Any, All,
}
use owlzops_mapper.Acceptance.Glob.Matches.{Matches}
use owlzops_mapper.KnownHosts.Glob.{glob_match}
use owlzops_mapper.KnownHosts.Glob.Decides.{Answers, glob_match-Answers}
use owlzops_mapper.KnownHosts.Load.{TrustStore, KnownHostEntry, Crypto}
use owlzops_mapper.KnownHosts.Verify.{
  Checker, known, refused, first_use, host_key_revoked, decide_key, same_key, canonical_key_type,
  pin_line,
}
use owlzops_mapper.KnownHosts.Verify.Laws.{
  decide_key-revoked_iff, decide_key-known_iff, decide_key-first_use_iff,
}

-- The loop takes an asterisk of the text for a literal before it tries the star.
asterisk_test : glob_match (codes "*") (codes "*a") ≡ some false
unfolding glob_match owlzops_mapper.Common.utf8_char
asterisk_test = refl

plain_host : All (λ b. b ≢ b'*') (as_bytes (codes "db.corp"))
unfolding as_bytes owlzops_mapper.Common.utf8_char
plain_host = omega arith

glob_match-Answers_example :
    Answers
      (Matches (as_bytes (codes "*.corp")) (as_bytes (codes "db.corp")))
      (glob_match (codes "*.corp") (codes "db.corp"))
glob_match-Answers_example = glob_match-Answers (codes "*.corp") (codes "db.corp") plain_host

abbrev web_key : KnownHostEntry
web_key = record {
  host_field = codes "web";
  key_type = codes "ssh-rsa";
  key_data = codes "AAAA";
  store = TrustStore.system;
  revoked = false;
  line_number = 1;
}

abbrev revoked_key : KnownHostEntry
revoked_key = record web_key { key_data = codes "BBBB"; revoked = true; line_number = 2 }

abbrev web : Checker
web = record {
  host = codes "web";
  port = 22;
  entries = web_key ∷ revoked_key ∷ [];
  unsupported_marker = none;
  pin_failure = none;
}

abbrev fresh : Checker
fresh = record web { entries = revoked_key ∷ [] }

-- No hashed entry is decoded here.
abbrev no_crypto : Crypto
no_crypto = record { base64_decode = λ s. none; hmac_sha1 = λ k s. none }

rsa_sha2_known : decide_key web (codes "rsa-sha2-512") (codes "AAAA") ≡ known
unfolding decide_key same_key owlzops_mapper.KnownHosts.Verify.revoked_match
    owlzops_mapper.Common.text_beq owlzops_mapper.KnownHosts.Verify.after_scan
    owlzops_mapper.KnownHosts.Verify.scan_current
rsa_sha2_known = refl

decide_key-revoked_iff_example :
    (decide_key web (codes "ssh-rsa") (codes "BBBB") ≡ refused host_key_revoked)
    ↔ Any
        (λ e.
          (e.revoked ≡ true)
          × (same_key (canonical_key_type (codes "ssh-rsa")) (codes "BBBB") e ≡ true))
        (web_key ∷ revoked_key ∷ [])
decide_key-revoked_iff_example = decide_key-revoked_iff web (codes "ssh-rsa") (codes "BBBB")

decide_key-known_iff_example : (decide_key web (codes "ssh-rsa") (codes "AAAA") ≡ known) ↔ (
    All
      (λ e. (e.revoked && same_key (canonical_key_type (codes "ssh-rsa")) (codes "AAAA") e) ≡ false)
      (web_key ∷ revoked_key ∷ [])
    × Any
        (λ e.
          (e.revoked ≡ false)
          × (same_key (canonical_key_type (codes "ssh-rsa")) (codes "AAAA") e ≡ true))
        (web_key ∷ revoked_key ∷ []))
decide_key-known_iff_example = decide_key-known_iff web (codes "ssh-rsa") (codes "AAAA")

decide_key-first_use_iff_example :
    (decide_key fresh (codes "ssh-rsa") (codes "CCCC") ≡ first_use (codes "web ssh-rsa CCCC\n")) ↔ (
      All
        (λ e.
          (e.revoked ≡ true)
          × (same_key (canonical_key_type (codes "ssh-rsa")) (codes "CCCC") e ≡ false))
        (revoked_key ∷ [])
      × (fresh.unsupported_marker ≡ none)
      × (codes "web ssh-rsa CCCC\n"
          ≡ pin_line fresh (canonical_key_type (codes "ssh-rsa")) (codes "CCCC")))
decide_key-first_use_iff_example =
    decide_key-first_use_iff fresh (codes "ssh-rsa") (codes "CCCC") (codes "web ssh-rsa CCCC\n")

pinned_algorithms-offers_example :
    IsUnique (pinned_algorithms (codes "web") (web_key ∷ revoked_key ∷ []) []).0
    × ((a : Algorithm)
        → contains (pinned_algorithms (codes "web") (web_key ∷ revoked_key ∷ []) []).0 a
          ≡ any (offers a) (web_key ∷ revoked_key ∷ []))
pinned_algorithms-offers_example =
    pinned_algorithms-offers (codes "web") (web_key ∷ revoked_key ∷ []) []

glob_match-ends_example : (b : Bool) × (glob_match (codes "a*b") (codes "a*c") ≡ some b)
glob_match-ends_example = glob_match-ends (codes "a*b") (codes "a*c")
