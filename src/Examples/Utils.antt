-- ===== src/Examples/Utils.antt =====
-- src/utils.rs at concrete texts.
use owlzops_mapper.Utils.Paths.{
  is_volatile_exec_path, canon_path, home_relative_depth, is_loopback_bind,
}
use owlzops_mapper.Utils.Provenance.{
  Host, PortInfo, exe_provenance, installed_app, deleted, lone_dropped, classify_listeners,
  as_suspicious, as_devtool, as_provisional,
}
use owlzops_mapper.Utils.Provenance.Trust.{exe_provenance-volatile, exe_provenance-installed}
use owlzops_mapper.Utils.Provenance.Tiers.{port_label, is_listed, classify_listeners-filter}
use owlzops_mapper.Common.{
  ◌≤◌, Text, ◌∷◌, ◌++◌, codes, as_bytes, ◌≡◌, refl, All, length, arith, true, false, [], some,
  filter, ◌⊎◌, map, List, ℕ, Option, none,
}
use owlzops_mapper.Utils.Sanitize.{strip_ansi, sanitize_for_log, is_terminal_unsafe}
use owlzops_mapper.Utils.Sanitize.Bytes.{strip_ansi-as_bytes}
use owlzops_mapper.Utils.Sanitize.IsSafe.{IsSafe, sanitize_for_log-IsSafe}

-- "ok", a red "x", and a title set by OSC.
abbrev coloured : Text
coloured = codes "ok" ++ (27 ∷ codes "[31mx" ++ (27 ∷ codes "]0;title" ++ (7 ∷ codes "é")))

strip_test : strip_ansi coloured ≡ codes "okxé"
unfolding strip_ansi
strip_test = refl

strip_ansi-as_bytes_example : strip_ansi (as_bytes coloured) ≡ as_bytes (strip_ansi coloured)
strip_ansi-as_bytes_example = strip_ansi-as_bytes coloured

sanitize_for_log-IsSafe_example :
    All IsSafe (sanitize_for_log coloured) × (length (sanitize_for_log coloured) ≤ 300)
sanitize_for_log-IsSafe_example = sanitize_for_log-IsSafe coloured

plain_IsSafe : All IsSafe (codes "ok")
unfolding is_terminal_unsafe
plain_IsSafe = (refl, (refl, tt))

abbrev tmp_nvm : Text
tmp_nvm = codes "/tmp/.nvm/payload"

-- A host where every directory is full and root owns everything.
abbrev generous : Host
generous = record {
  ancestors = λ s. s ∷ codes "/opt/tool/bin" ∷ codes "/opt/tool" ∷ [];
  count_entries = λ d. some 100;
  in_foreign_mnt_ns = λ pid. false;
  exe_uid = λ pid. some 0;
}

tmp_volatile : is_volatile_exec_path tmp_nvm ≡ true
unfolding is_volatile_exec_path owlzops_mapper.Utils.Paths.volatile_prefixes
tmp_volatile = refl

opt_installed : exe_provenance generous (codes "/opt/tool/bin/x") 7 ≡ installed_app
unfolding exe_provenance owlzops_mapper.Common.ends_with owlzops_mapper.Common.starts_with
    owlzops_mapper.Utils.Paths.starts_with_any owlzops_mapper.Utils.Provenance.system_bin
    is_volatile_exec_path owlzops_mapper.Utils.Paths.volatile_prefixes
    owlzops_mapper.Utils.Provenance.contains_any
    owlzops_mapper.Utils.Provenance.runtime_manager_roots
    owlzops_mapper.Utils.Provenance.populated_tree_within
    owlzops_mapper.Utils.Provenance.populated_below owlzops_mapper.Utils.Paths.is_container_dir
    owlzops_mapper.Utils.Paths.install_roots owlzops_mapper.Common.text_beq
    owlzops_mapper.Utils.Paths.home_bases
opt_installed = refl

canon_test : canon_path (codes "/bin/su") ≡ codes "/usr/bin/su"
unfolding canon_path owlzops_mapper.Utils.Paths.merged
canon_test = refl

depth_test : home_relative_depth (codes "/var/home/u/Downloads") ≡ some 1
unfolding home_relative_depth owlzops_mapper.Utils.Paths.home_bases owlzops_mapper.Common.text_beq
    owlzops_mapper.Common.strip_prefix
depth_test = refl

loopback_test : is_loopback_bind (codes "::ffff:127.0.0.1") ≡ true
unfolding is_loopback_bind owlzops_mapper.Common.text_beq
loopback_test = refl

abbrev shadow_port : PortInfo
shadow_port = record {
  protocol = codes "tcp";
  port = codes "4444";
  bind_address = codes "0.0.0.0";
  pid = some 7;
  exe_path = some tmp_nvm;
}

exe_provenance-volatile_example :
    (exe_provenance generous tmp_nvm 7 ≡ deleted)
    ⊎ (exe_provenance generous tmp_nvm 7 ≡ lone_dropped)
exe_provenance-volatile_example = exe_provenance-volatile generous tmp_nvm 7 tmp_volatile refl

exe_provenance-installed_example :
    (generous.in_foreign_mnt_ns 7 ≡ false)
    × (generous.exe_uid 7 ≡ some 0)
    × (is_volatile_exec_path (codes "/opt/tool/bin/x") ≡ false)
exe_provenance-installed_example =
    exe_provenance-installed generous (codes "/opt/tool/bin/x") 7 opt_installed

-- A port bound to loopback: a program in a user's home directory that root owns, one of a runtime
-- manager, and one whose process is not known.
abbrev local_port : Text → Option ℕ → PortInfo
local_port exe pid = record {
  protocol = codes "tcp";
  port = codes "80";
  bind_address = codes "127.0.0.1";
  pid = pid;
  exe_path = some exe;
}

abbrev open_ports : List PortInfo
open_ports =
    local_port (codes "/home/u/app/x") (some 7)
    ∷ shadow_port
    ∷ local_port (codes "/home/u/.nvm/x") (some 7)
    ∷ local_port (codes "/home/u/app/x") none
    ∷ local_port (codes "/usr/bin/x") (some 7)
    ∷ []

tiers_test : classify_listeners generous open_ports ≡ record {
  suspicious =
      codes "4444/tcp on 0.0.0.0 (/tmp/.nvm/payload)"
      ∷ codes "80/tcp on 127.0.0.1 (/home/u/app/x)"
      ∷ [];
  devtool = codes "80/tcp on 127.0.0.1 (/home/u/app/x)" ∷ [];
  provisional = codes "80/tcp on 127.0.0.1 (/home/u/.nvm/x)" ∷ [];
}
unfolding classify_listeners owlzops_mapper.Utils.Paths.is_ephemeral_exec_path
    owlzops_mapper.Utils.Paths.home_bases is_loopback_bind owlzops_mapper.Common.text_beq
    exe_provenance owlzops_mapper.Common.ends_with owlzops_mapper.Utils.Provenance.system_bin
    is_volatile_exec_path owlzops_mapper.Utils.Paths.volatile_prefixes
    owlzops_mapper.Utils.Provenance.contains_any
    owlzops_mapper.Utils.Provenance.runtime_manager_roots
    owlzops_mapper.Utils.Provenance.populated_tree_within
    owlzops_mapper.Utils.Provenance.populated_below owlzops_mapper.Utils.Paths.is_container_dir
    owlzops_mapper.Utils.Paths.install_roots owlzops_mapper.Utils.Provenance.label
tiers_test = refl

classify_listeners-filter_example :
    ((classify_listeners generous open_ports).suspicious
      ≡ map port_label (filter (is_listed generous as_suspicious) open_ports))
    × ((classify_listeners generous open_ports).devtool
        ≡ map port_label (filter (is_listed generous as_devtool) open_ports))
    × ((classify_listeners generous open_ports).provisional
        ≡ map port_label (filter (is_listed generous as_provisional) open_ports))
classify_listeners-filter_example = classify_listeners-filter generous open_ports
