-- ===== src/Utils/Provenance/Trust.antt =====
-- What `exe_provenance` of src/utils.rs may call installed.
use owlzops_mapper.Common.{
  ℕ, Text, codes, true, false, ◌∷◌, some, ◌≡◌, refl, arith, ◌⊎◌, inl, inr, any, starts_with,
  strip_prefix, Bool-cases, ◌≢◌, sym, ◌∙◌,
}
use owlzops_mapper.Utils.Paths.{starts_with_any, volatile_prefixes, is_volatile_exec_path}
use owlzops_mapper.Utils.Paths.Prefixes.{comparable, disjoint}
use owlzops_mapper.Utils.Provenance.{
  Host, deleted, lone_dropped, installed_app, exe_provenance, system_bin,
}

trusted_disjoint :
    any (λ p. any (comparable p) (codes "/nix/store/" ∷ system_bin)) volatile_prefixes ≡ false
unfolding system_bin volatile_prefixes starts_with strip_prefix
trusted_disjoint = refl

not_trusted :
    (s : Text)
    → is_volatile_exec_path s ≡ true
    → starts_with_any (codes "/nix/store/" ∷ system_bin) s ≡ false
unfolding is_volatile_exec_path
not_trusted s h =
    disjoint s volatile_prefixes (codes "/nix/store/" ∷ system_bin) trusted_disjoint (ground arith)

-- Outside a container, an executable at a volatile path is deleted or dropped, whatever its
-- directory and its owner look like.
pub exe_provenance-volatile :
    (host : Host) (exe : Text) (pid : ℕ)
    → is_volatile_exec_path exe ≡ true
    → host.in_foreign_mnt_ns pid ≡ false
    → (exe_provenance host exe pid ≡ deleted) ⊎ (exe_provenance host exe pid ≡ lone_dropped)
unfolding exe_provenance starts_with_any
exe_provenance-volatile host exe pid v n = ground (arith, not_trusted exe v)

installed≢deleted : installed_app ≢ deleted
installed≢deleted e = cc

installed≢dropped : installed_app ≢ lone_dropped
installed≢dropped e = cc

-- Only a process outside a container, whose inode belongs to root, is called an installed
-- application.
pub exe_provenance-installed :
    (host : Host) (exe : Text) (pid : ℕ)
    → exe_provenance host exe pid ≡ installed_app
    → (host.in_foreign_mnt_ns pid ≡ false)
      × (host.exe_uid pid ≡ some 0)
      × (is_volatile_exec_path exe ≡ false)
unfolding exe_provenance
exe_provenance-installed host exe pid h =
    let home : host.in_foreign_mnt_ns pid ≡ false = ground arith in
    (
      home,
      ground arith,
      elim (Bool-cases (is_volatile_exec_path exe)) [
        | inr e ↦ e
        | inl e ↦ elim (exe_provenance-volatile host exe pid e home) [
          | inl d ↦ absurd (installed≢deleted (sym h ∙ d))
          | inr d ↦ absurd (installed≢dropped (sym h ∙ d))
        ]
      ],
    )
