-- ===== src/Utils/Paths.antt =====
-- src/utils.rs: predicates on addresses and on paths, and `canon_path`.
pub mod Prefixes
use owlzops_mapper.Common.{
  ℕ, Text, codes, Bool, true, false, ◌||◌, List, [], ◌∷◌, ◌++◌, Option, none, some, ◌==◌, text_eq,
  nat_eq, if◌then◌else◌, any, all, filter, length, drop, leb, map, starts_with, strip_prefix, split,
  ends_with, is_ascii_digit, trim, eq_ignore_ascii_case,
}

unfoldable pub is_wildcard_bind : Text → Bool
is_wildcard_bind addr =
    addr == codes "0.0.0.0" || addr == codes "::" || addr == codes "::ffff:0.0.0.0"

unfoldable pub v4_loopback : Text → Bool
unfolding strip_prefix
v4_loopback s = elim (strip_prefix s (codes "127.")) [
  | none ↦ false
  | some [] ↦ false
  | some (b ∷ rest) ↦ all (λ b. is_ascii_digit b || b == b'.') (b ∷ rest)
]

unfoldable pub is_loopback_bind : Text → Bool
unfolding v4_loopback
is_loopback_bind addr =
    addr == codes "::1"
    || v4_loopback addr
    || elim (strip_prefix addr (codes "::ffff:")) [ none ↦ false | some rest ↦ v4_loopback rest ]

unfoldable pub home_bases : List Text
home_bases = codes "/home/" ∷ codes "/var/home/" ∷ codes "/root/" ∷ []

-- `ps.iter().any(|p| s.starts_with(p))`
unfoldable pub starts_with_any : List Text → Text → Bool
unfolding starts_with
starts_with_any ps s = any (starts_with s) ps

-- The prefixes of `is_volatile_exec_path`, in its order.
unfoldable pub volatile_prefixes : List Text
volatile_prefixes =
    codes "/tmp/" ∷ codes "/var/tmp/" ∷ codes "/dev/shm/" ∷ codes "/run/" ∷ codes "/memfd:" ∷ []

unfoldable pub is_ephemeral_exec_path : Text → Bool
unfolding starts_with_any
is_ephemeral_exec_path path =
    if starts_with path (codes "/run/wrappers/")
    then false
    else starts_with path (codes "/tmp/")
      || starts_with path (codes "/var/tmp/")
      || starts_with path (codes "/dev/shm/")
      || starts_with path (codes "/run/")
      || starts_with_any home_bases path
      || starts_with path (codes "/memfd:")

unfoldable pub is_volatile_exec_path : Text → Bool
unfolding starts_with_any
is_volatile_exec_path path =
    if starts_with path (codes "/run/wrappers/")
    then false
    else starts_with_any volatile_prefixes path

unfoldable pub is_volatile_mount : Text → Bool
unfolding is_volatile_exec_path
is_volatile_mount path = is_volatile_exec_path path

-- `split('/').filter(|s| !s.is_empty())`
unfoldable pub components : Text → List Text
unfolding split
components s =
    filter (λ (c : Text). elim c [ [] ↦ false | _ ∷ _ ↦ true ]) (split (λ c. c == b'/') s)

-- One round of the loop of `home_relative_depth`.
unfoldable pub depth_under : Text → Text → Option ℕ
unfolding components
depth_under dir base =
    if base == codes "/root/"
    then if dir == codes "/root" then some 0 else elim (strip_prefix dir (codes "/root/")) [
      | none ↦ none
      | some rest ↦ some (length (components rest))
    ]
    else elim (strip_prefix dir base) [
      | none ↦ none
      | some rest ↦ some (length (drop 1 (components rest)))
    ]

unfoldable pub first_depth : Text → List Text → Option ℕ
unfolding depth_under
first_depth dir [] = none
first_depth dir (base ∷ bases) =
    let rest = first_depth dir bases in
    elim (depth_under dir base) [ some d ↦ some d | none ↦ rest ]

unfoldable pub home_relative_depth : Text → Option ℕ
unfolding first_depth
home_relative_depth dir = first_depth dir home_bases

-- `INSTALL_ROOTS`
unfoldable pub install_roots : List Text
install_roots =
    codes "/.local/share/"
    ∷ codes "/.local/lib/"
    ∷ codes "/.vscode/"
    ∷ codes "/.vscode-server/"
    ∷ codes "/.config/"
    ∷ codes "/.var/app/"
    ∷ codes "/.cache/"
    ∷ codes "/opt/"
    ∷ codes "/snap/"
    ∷ codes "/usr/lib/"
    ∷ codes "/usr/share/"
    ∷ codes "/var/lib/flatpak/"
    ∷ codes "/nix/store/"
    ∷ []

-- `trim_end_matches('/')`
unfoldable pub trim_end_slash : Text → Text
trim_end_slash [] = []
trim_end_slash (c ∷ s) =
    let rest = trim_end_slash s in
    if c == b'/' then elim rest [ [] ↦ [] | d ∷ t ↦ c ∷ d ∷ t ] else c ∷ rest

unfoldable pub is_container_dir : Text → Bool
unfolding home_relative_depth ends_with trim_end_slash
is_container_dir dir =
    any (λ r. dir == r || ends_with dir r) (map trim_end_slash install_roots)
    || dir == codes "/"
    || dir == codes "/home"
    || dir == codes "/var/home"
    || dir == codes "/root"
    || elim (home_relative_depth dir) [ none ↦ false | some d ↦ leb d 1 ]

unfoldable pub merged : List Text
merged = codes "/bin/" ∷ codes "/sbin/" ∷ codes "/lib/" ∷ codes "/lib64/" ∷ []

unfoldable pub canon_path : Text → Text
unfolding starts_with_any
canon_path path = if starts_with_any merged path then codes "/usr" ++ path else path

unfoldable pub known_malware : List Text
known_malware = codes "kdevtmpfsi" ∷ codes "kinsing" ∷ codes "xmrig" ∷ codes "sysupdate" ∷ []

unfoldable pub ambiguous_malware : List Text
ambiguous_malware = codes "networkservice" ∷ []

unfoldable pub is_known_malware : Text → Bool
unfolding trim eq_ignore_ascii_case
is_known_malware comm = any (eq_ignore_ascii_case (trim comm)) known_malware

unfoldable pub is_ambiguous_malware : Text → Bool
unfolding trim eq_ignore_ascii_case
is_ambiguous_malware comm = any (eq_ignore_ascii_case (trim comm)) ambiguous_malware
