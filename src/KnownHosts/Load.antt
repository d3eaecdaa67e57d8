-- ===== src/KnownHosts/Load.antt =====
-- src/known_hosts.rs: `load_entries` and the matching of a host field. The two files' contents, the
-- base64 decoder and the HMAC are parameters.
use mathlib.Core.Option
use owlzops_mapper.Common.{
  ℕ, suc, Text, codes, decimal, as_bytes, Bool, true, false, ◌||◌, List, [], ◌∷◌, ◌++◌, any, Option,
  none, some, ◌==◌, nat_eq, text_eq, if◌then◌else◌, strip_prefix, starts_with, split, split_once,
  split_whitespace, trim, trim_start, lines, is_whitespace,
}
use owlzops_mapper.Utils.Sanitize.{sanitize_for_log}
use owlzops_mapper.KnownHosts.Glob.{glob_match}

pub data TrustStore : Type 0 where
  system pin : TrustStore

pub record KnownHostEntry : Type 0 where
  pub host_field : Text
  pub key_type : Text
  pub key_data : Text
  pub store : TrustStore
  pub revoked : Bool
  pub line_number : ℕ

unfoldable pub as_line : KnownHostEntry → Text
as_line e =
    (if e.revoked then codes "@revoked " else [])
    ++ (e.host_field ++ (codes " " ++ (e.key_type ++ (codes " " ++ e.key_data))))

unfoldable pub host_candidates : Text → ℕ → List Text
host_candidates host port =
    if port == 22 then host ∷ [] else (codes "[" ++ (host ++ (codes "]:" ++ decimal port))) ∷ []

-- What one line adds: nothing, a marker that cannot be evaluated, or an entry.
pub data Line : Type 0 where
  skip : Line
  unsupported : Text → Line
  entry : KnownHostEntry → Line

-- The marker of a line and what follows it; `none` is a lone marker.
unfoldable pub split_marker : Text → Option (Option Text × Text)
split_marker line = elim (strip_prefix line (codes "@")) [
  | none ↦ some (none, line)
  | some r ↦ Option.map (λ m. (some m.0, trim_start m.1)) (split_once is_whitespace r)
]

unfoldable pub classify_marker : TrustStore → ℕ → Option Text → Text → Text → Text → Line
classify_marker store number none hf kt kd = entry (record {
  host_field = hf;
  key_type = kt;
  key_data = kd;
  store = store;
  revoked = false;
  line_number = number;
})
classify_marker store number (some m) hf kt kd =
    if m == codes "cert-authority"
    then unsupported (codes "cert-authority")
    else if m == codes "revoked"
    then entry (record {
      host_field = hf;
      key_type = kt;
      key_data = kd;
      store = store;
      revoked = true;
      line_number = number;
    })
    else unsupported (sanitize_for_log m)

-- The loop's state: the entries so far, and the first marker that cannot be evaluated.
abbrev pub LoadState : Type 0
LoadState = List KnownHostEntry × Option Text

unfoldable pub add_line : Line → LoadState → LoadState
add_line skip s = s
add_line (unsupported m) (out, none) = (out, some m)
add_line (unsupported m) (out, some first) = (out, some first)
add_line (entry e) (out, marker) = (out ++ e ∷ [], marker)

-- What `read_file_capped_regular_strict` returned.
pub data StoreFile : Type 0 where
  missing unreadable : StoreFile
  content : Text → StoreFile

pub data Entries : Type 0 where
  loaded : List KnownHostEntry → Option Text → Entries
  store_unreadable : TrustStore → Entries

-- The crates `data_encoding`, `hmac` and `sha1`; each may refuse its input.
pub record Crypto : Type 0 where
  pub base64_decode : List ℕ → Option (List ℕ)
  pub hmac_sha1 : List ℕ → List ℕ → Option (List ℕ)

module _ (crypto : Crypto) where
  unfoldable pub hashed_matches : Text → Text → Text → Bool
  hashed_matches salt_b64 mac_b64 host = elim (crypto.base64_decode (as_bytes salt_b64)) [
    | none ↦ false
    | some salt ↦ elim (crypto.base64_decode (as_bytes mac_b64)) [
      | none ↦ false
      | some expected ↦ elim (crypto.hmac_sha1 salt (as_bytes host)) [
        | none ↦ false
        | some mac ↦ mac == expected
      ]
    ]
  ]

  -- The answer of a glob; out of fuel is no match.
  abbrev glob_answer : Option Bool → Bool
  glob_answer none = false
  glob_answer (some b) = b

  unfoldable pub host_field_matches : Text → List Text → Bool
  unfolding hashed_matches glob_match
  host_field_matches field candidates = elim (strip_prefix field (codes "|1|")) [
    | some rest ↦ elim (split_once (λ c. c == b'|') rest) [
      | none ↦ false
      | some (salt, mac) ↦ any (hashed_matches salt mac) candidates
    ]
    | none ↦
        any (λ pattern. any (λ c. glob_answer (glob_match pattern c)) candidates)
          (split (λ c. c == b',') field)
  ]

  unfoldable pub fields_line : TrustStore → ℕ → List Text → Option Text → List Text → Line
  unfolding classify_marker
  fields_line store number candidates marker (hf ∷ kt ∷ kd ∷ _) =
      if host_field_matches hf candidates
      then classify_marker store number marker hf kt kd
      else skip
  fields_line store number candidates marker _ = skip

  unfoldable pub parse_line : TrustStore → ℕ → List Text → Text → Line
  unfolding fields_line split_marker
  parse_line store number candidates raw =
      let line = trim raw in
      if line == [] || starts_with line (codes "#") then skip else elim (split_marker line) [
        | none ↦ skip
        | some (marker, rest) ↦ fields_line store number candidates marker (split_whitespace rest)
      ]

  unfoldable pub load_lines : TrustStore → List Text → ℕ → List Text → LoadState → LoadState
  unfolding add_line parse_line
  load_lines store candidates idx [] s = s
  load_lines store candidates idx (raw ∷ rest) s =
      load_lines store candidates (suc idx) rest
        (add_line (parse_line store (suc idx) candidates raw) s)

module _ (crypto : Crypto) (candidates : List Text) where
  unfoldable pub load_store : TrustStore → StoreFile → LoadState → Option (LoadState)
  unfolding load_lines
  load_store store missing s = some s
  load_store store unreadable s = none
  load_store store (content text) s = some (load_lines crypto store candidates 0 (lines text) s)

  unfoldable pub load_entries : StoreFile → StoreFile → Entries
  unfolding load_store
  load_entries system_file pin_file = elim (load_store system system_file ([], none)) [
    | none ↦ store_unreadable system
    | some s ↦ elim (load_store pin pin_file s) [
      | none ↦ store_unreadable pin
      | some (out, marker) ↦ loaded out marker
    ]
  ]
