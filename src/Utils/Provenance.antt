-- ===== src/Utils/Provenance.antt =====
-- src/utils.rs: `exe_provenance` and `classify_listeners`. What the code asks of the host about a
-- process is a record of answers.
pub mod Trust
pub mod Tiers
use owlzops_mapper.Common.{
  ℕ, Text, codes, Bool, true, false, ◌||◌, List, [], ◌∷◌, ◌++◌, Option, none, some, if◌then◌else◌,
  any, leb, nat_eq, ◌==◌, take, drop, starts_with, ends_with, contains_text,
}
use owlzops_mapper.Utils.Paths.{
  starts_with_any, install_roots, is_volatile_exec_path, is_ephemeral_exec_path, is_loopback_bind,
  is_container_dir,
}

pub data ExeProvenance : Type 0 where
  deleted lone_dropped nested_user_install installed_app : ExeProvenance

unfoldable pub system_bin : List Text
system_bin =
    codes "/usr/bin/"
    ∷ codes "/usr/sbin/"
    ∷ codes "/bin/"
    ∷ codes "/sbin/"
    ∷ codes "/usr/libexec/"
    ∷ codes "/usr/local/bin/"
    ∷ codes "/usr/local/sbin/"
    ∷ []

unfoldable pub system_roots : List Text
system_roots =
    codes "/usr/"
    ∷ codes "/bin/"
    ∷ codes "/sbin/"
    ∷ codes "/opt/"
    ∷ codes "/nix/store/"
    ∷ codes "/app/"
    ∷ codes "/snap/"
    ∷ codes "/var/lib/flatpak/"
    ∷ codes "/run/wrappers/"
    ∷ []

unfoldable pub is_system_managed_path : Text → Bool
is_system_managed_path exe = starts_with_any system_roots exe

unfoldable pub runtime_manager_roots : List Text
runtime_manager_roots =
    codes "/.nvm/"
    ∷ codes "/.fnm/"
    ∷ codes "/.volta/"
    ∷ codes "/.asdf/"
    ∷ codes "/.pyenv/"
    ∷ codes "/.rbenv/"
    ∷ codes "/.bun/"
    ∷ codes "/.deno/"
    ∷ codes "/linuxbrew/"
    ∷ codes "/usr/lib/node_modules/"
    ∷ codes "/node_modules/"
    ∷ []

abbrev pub install_tree_min_files : ℕ
install_tree_min_files = 8

abbrev pub max_upward_depth : ℕ
max_upward_depth = 6

-- `rs.iter().any(|r| s.contains(r))`
unfoldable pub contains_any : List Text → Text → Bool
unfolding contains_text
contains_any rs s = any (contains_text s) rs

unfoldable pub is_standard_install_path : Text → Bool
unfolding contains_any
is_standard_install_path p =
    starts_with_any system_bin p
    || contains_any runtime_manager_roots p
    || contains_any install_roots p

-- The host: `Path::ancestors` of a path, itself first; how many entries a directory has, if it can
-- be read; whether a process lives in a foreign mount namespace; and the owner of the inode that a
-- process runs, if it can be read.
pub record Host : Type 0 where
  pub ancestors : Text → List Text
  pub count_entries : Text → Option ℕ
  pub in_foreign_mnt_ns : ℕ → Bool
  pub exe_uid : ℕ → Option ℕ

-- `take_while` and `any` over the directories upwards.
unfoldable pub populated_below : (Text → Option ℕ) → List Text → Bool
populated_below count_entries [] = false
populated_below count_entries (dir ∷ dirs) =
    let rest = populated_below count_entries dirs in
    if is_container_dir dir
    then false
    else elim (count_entries dir) [ none ↦ rest | some n ↦ leb install_tree_min_files n || rest ]

unfoldable pub populated_tree_within : Host → Text → Bool
populated_tree_within host exe =
    populated_below host.count_entries (take max_upward_depth (drop 1 (host.ancestors exe)))

-- `metadata(..).map(|m| m.uid() == 0).unwrap_or(false)`
abbrev pub root_owned : Host → ℕ → Bool
root_owned host pid = elim (host.exe_uid pid) [ none ↦ false | some uid ↦ uid == 0 ]

unfoldable pub exe_provenance : Host → Text → ℕ → ExeProvenance
exe_provenance host exe pid =
    if ends_with exe (codes " (deleted)") || starts_with exe (codes "/memfd:")
    then deleted
    else if host.in_foreign_mnt_ns pid
    then if is_standard_install_path exe then nested_user_install else lone_dropped
    else if starts_with_any system_bin exe
    then if root_owned host pid then installed_app else lone_dropped
    else if starts_with exe (codes "/nix/store/")
    then if root_owned host pid then installed_app else lone_dropped
    else if is_volatile_exec_path exe
    then lone_dropped
    else if contains_any runtime_manager_roots exe
    then nested_user_install
    else if populated_tree_within host exe
    then if root_owned host pid then installed_app else nested_user_install
    else lone_dropped

pub record PortInfo : Type 0 where
  pub protocol : Text
  pub port : Text
  pub bind_address : Text
  pub pid : Option ℕ
  pub exe_path : Option Text

pub record ListenerTiers : Type 0 where
  pub suspicious : List Text
  pub devtool : List Text
  pub provisional : List Text

unfoldable pub label : PortInfo → Text → Text
label p exe =
    p.port
    ++ (codes "/"
        ++ (p.protocol ++ (codes " on " ++ (p.bind_address ++ (codes " (" ++ (exe ++ codes ")"))))))

-- The process is unknown when the port has no pid.
unfoldable pub port_provenance : Host → PortInfo → Text → ExeProvenance
port_provenance host p exe = elim p.pid [
  | none ↦ lone_dropped
  | some pid ↦ exe_provenance host exe pid
]

pub data Tier : Type 0 where
  unlisted as_suspicious as_devtool as_provisional : Tier

-- The match at the end of a round.
unfoldable pub tier_of : Bool → ExeProvenance → Tier
tier_of true installed_app = as_devtool
tier_of true nested_user_install = as_provisional
tier_of _ _ = as_suspicious

unfoldable pub port_tier : Host → PortInfo → Text → Tier
unfolding tier_of port_provenance
port_tier host p exe =
    if is_ephemeral_exec_path exe
    then tier_of (is_loopback_bind p.bind_address) (port_provenance host p exe)
    else unlisted

unfoldable pub push_tier : Tier → Text → ListenerTiers → ListenerTiers
push_tier unlisted l t = t
push_tier as_suspicious l t = record t { suspicious = t.suspicious ++ l ∷ [] }
push_tier as_devtool l t = record t { devtool = t.devtool ++ l ∷ [] }
push_tier as_provisional l t = record t { provisional = t.provisional ++ l ∷ [] }

unfoldable pub classify_port : Host → PortInfo → ListenerTiers → ListenerTiers
unfolding port_tier push_tier
classify_port host p t = elim p.exe_path [
  | none ↦ t
  | some exe ↦ push_tier (port_tier host p exe) (label p exe) t
]

unfoldable pub classify_from : Host → List PortInfo → ListenerTiers → ListenerTiers
unfolding classify_port
classify_from host [] t = t
classify_from host (p ∷ ports) t = classify_from host ports (classify_port host p t)

unfoldable pub classify_listeners : Host → List PortInfo → ListenerTiers
unfolding classify_from
classify_listeners host ports =
    classify_from host ports (record { suspicious = []; devtool = []; provisional = [] })
