-- ===== src/Utils/Provenance/Tiers.antt =====
-- How `classify_listeners` of src/utils.rs spreads the ports over its three lists.
use owlzops_mapper.Common.{
  Text, Bool, true, false, not, ◌&&◌, List, [], ◌∷◌, ◌++◌, none, some, ◌≡◌, refl, ap, ◌∙◌, sym,
  arith, filter, map, append-nil, append_assoc, if◌then◌else◌, Option-cases, inl, inr, Bool-cases,
}
use owlzops_mapper.Utils.Paths.{is_ephemeral_exec_path, is_loopback_bind}
use owlzops_mapper.Utils.Provenance.{
  Host, PortInfo, ListenerTiers, Tier, exe_provenance, classify_listeners, classify_from,
  classify_port, push_tier, port_tier, tier_of, port_provenance, label, unlisted, as_suspicious,
  as_devtool, as_provisional, ExeProvenance, deleted, lone_dropped, nested_user_install,
  installed_app,
}

abbrev pub is_installed : ExeProvenance → Bool
is_installed installed_app = true
is_installed _ = false

abbrev pub is_nested : ExeProvenance → Bool
is_nested nested_user_install = true
is_nested _ = false

abbrev is_install : ExeProvenance → Bool
is_install installed_app = true
is_install nested_user_install = true
is_install _ = false

-- The label of a port with an executable.
abbrev pub port_label : PortInfo → Text
port_label p = elim p.exe_path [ none ↦ [] | some exe ↦ label p exe ]

-- The list of a tier, and whether two tiers are one list.
abbrev entries : Tier → ListenerTiers → List Text
entries unlisted t = []
entries as_suspicious t = t.suspicious
entries as_devtool t = t.devtool
entries as_provisional t = t.provisional

abbrev is_same : Tier → Tier → Bool
is_same as_suspicious as_suspicious = true
is_same as_devtool as_devtool = true
is_same as_provisional as_provisional = true
is_same _ _ = false

is_same-unlisted : (tier : Tier) → is_same tier unlisted ≡ false
is_same-unlisted unlisted = refl
is_same-unlisted as_suspicious = refl
is_same-unlisted as_devtool = refl
is_same-unlisted as_provisional = refl

push_tier-entries :
    (tier u : Tier) (l : Text) (t : ListenerTiers)
    → entries tier (push_tier u l t) ≡ entries tier t ++ (if is_same tier u then l ∷ [] else [])
unfolding push_tier
push_tier-entries unlisted unlisted l t = refl
push_tier-entries unlisted as_suspicious l t = refl
push_tier-entries unlisted as_devtool l t = refl
push_tier-entries unlisted as_provisional l t = refl
push_tier-entries as_suspicious unlisted l t = sym (append-nil t.suspicious)
push_tier-entries as_suspicious as_suspicious l t = refl
push_tier-entries as_suspicious as_devtool l t = sym (append-nil t.suspicious)
push_tier-entries as_suspicious as_provisional l t = sym (append-nil t.suspicious)
push_tier-entries as_devtool unlisted l t = sym (append-nil t.devtool)
push_tier-entries as_devtool as_suspicious l t = sym (append-nil t.devtool)
push_tier-entries as_devtool as_devtool l t = refl
push_tier-entries as_devtool as_provisional l t = sym (append-nil t.devtool)
push_tier-entries as_provisional unlisted l t = sym (append-nil t.provisional)
push_tier-entries as_provisional as_suspicious l t = sym (append-nil t.provisional)
push_tier-entries as_provisional as_devtool l t = sym (append-nil t.provisional)
push_tier-entries as_provisional as_provisional l t = refl

-- What a tier asks of where the port is bound and of what it runs.
abbrev admits : Tier → Bool → ExeProvenance → Bool
admits unlisted b prov = false
admits as_suspicious b prov = not (b && is_install prov)
admits as_devtool b prov = b && is_installed prov
admits as_provisional b prov = b && is_nested prov

tier_of-admits :
    (tier : Tier) (b : Bool) (prov : ExeProvenance)
    → is_same tier (tier_of b prov) ≡ admits tier b prov
unfolding tier_of
tier_of-admits unlisted true deleted = refl
tier_of-admits unlisted true lone_dropped = refl
tier_of-admits unlisted true nested_user_install = refl
tier_of-admits unlisted true installed_app = refl
tier_of-admits unlisted false prov = refl
tier_of-admits as_suspicious true deleted = refl
tier_of-admits as_suspicious true lone_dropped = refl
tier_of-admits as_suspicious true nested_user_install = refl
tier_of-admits as_suspicious true installed_app = refl
tier_of-admits as_suspicious false prov = refl
tier_of-admits as_devtool true deleted = refl
tier_of-admits as_devtool true lone_dropped = refl
tier_of-admits as_devtool true nested_user_install = refl
tier_of-admits as_devtool true installed_app = refl
tier_of-admits as_devtool false prov = refl
tier_of-admits as_provisional true deleted = refl
tier_of-admits as_provisional true lone_dropped = refl
tier_of-admits as_provisional true nested_user_install = refl
tier_of-admits as_provisional true installed_app = refl
tier_of-admits as_provisional false prov = refl

map-filter_cons :
    (q : PortInfo → Bool) (p : PortInfo) (ports : List PortInfo)
    → map port_label (filter q (p ∷ [])) ++ map port_label (filter q ports)
      ≡ map port_label (filter q (p ∷ ports))
map-filter_cons q p ports = elim (Bool-cases (q p)) [
  | inl e ↦ ground (arith, e)
  | inr e ↦ ground (arith, e)
]

module _ (host : Host) where
  -- The process of the port is known, and what it runs is of this kind.
  abbrev pub runs : (ExeProvenance → Bool) → PortInfo → Text → Bool
  runs is p exe = elim p.pid [ none ↦ false | some pid ↦ is (exe_provenance host exe pid) ]

  abbrev belongs : Tier → PortInfo → Text → Bool
  belongs unlisted p exe = false
  belongs as_suspicious p exe = not (is_loopback_bind p.bind_address && runs is_install p exe)
  belongs as_devtool p exe = is_loopback_bind p.bind_address && runs is_installed p exe
  belongs as_provisional p exe = is_loopback_bind p.bind_address && runs is_nested p exe

  -- The port has an executable at an ephemeral path, and
  -- * as_devtool, as_provisional: it is bound to loopback only, and its process is known to run an
  --   installed program, or one of a tree that a user can write;
  -- * as_suspicious: it is neither of these.
  abbrev pub is_listed : Tier → PortInfo → Bool
  is_listed tier p = elim p.exe_path [
    | none ↦ false
    | some exe ↦ is_ephemeral_exec_path exe && belongs tier p exe
  ]

  admits-belongs :
      (tier : Tier) (p : PortInfo) (exe : Text)
      → admits tier (is_loopback_bind p.bind_address) (port_provenance host p exe)
        ≡ belongs tier p exe
  unfolding port_provenance
  admits-belongs unlisted p exe = refl
  admits-belongs as_suspicious p exe = elim (Option-cases p.pid) [
    | inl e ↦ ground (arith, e)
    | inr (pid, e) ↦ ground (arith, e)
  ]
  admits-belongs as_devtool p exe = elim (Option-cases p.pid) [
    | inl e ↦ ground (arith, e)
    | inr (pid, e) ↦ ground (arith, e)
  ]
  admits-belongs as_provisional p exe = elim (Option-cases p.pid) [
    | inl e ↦ ground (arith, e)
    | inr (pid, e) ↦ ground (arith, e)
  ]

  port_tier-belongs :
      (tier : Tier) (p : PortInfo) (exe : Text)
      → is_same tier (port_tier host p exe) ≡ (is_ephemeral_exec_path exe && belongs tier p exe)
  unfolding port_tier
  port_tier-belongs tier p exe =
      let prov = port_provenance host p exe in
      let admitted = tier_of-admits tier (is_loopback_bind p.bind_address) prov in
      let agrees = admits-belongs tier p exe in
      elim (Bool-cases (is_ephemeral_exec_path exe)) [
        | inl e ↦ rw e (admitted ∙ agrees)
        | inr e ↦ rw e (is_same-unlisted tier)
      ]

  classify_port-entries :
      (tier : Tier) (p : PortInfo) (t : ListenerTiers)
      → entries tier (classify_port host p t)
        ≡ entries tier t ++ map port_label (filter (is_listed tier) (p ∷ []))
  unfolding classify_port
  classify_port-entries tier p t =
      let nil = sym (append-nil (entries tier t)) in
      elim (Option-cases p.exe_path) [
        | inl e ↦ ground (arith, e, nil)
        | inr (exe, e) ↦
            let pushed = push_tier-entries tier (port_tier host p exe) (label p exe) t in
            let same = port_tier-belongs tier p exe in ground (arith, e, pushed, same)
      ]

  classify_from-entries :
      (tier : Tier) (ports : List PortInfo) (t : ListenerTiers)
      → entries tier (classify_from host ports t)
        ≡ entries tier t ++ map port_label (filter (is_listed tier) ports)
  unfolding classify_from
  classify_from-entries tier [] t = sym (append-nil (entries tier t))
  classify_from-entries tier (p ∷ ports) t =
      let rest = classify_from-entries tier ports (classify_port host p t) in
      let first = classify_port-entries tier p t in
      rest
      ∙ ap (λ es. es ++ map port_label (filter (is_listed tier) ports)) first
      ∙ append_assoc (entries tier t) _ _
      ∙ ap (λ es. entries tier t ++ es) (map-filter_cons (is_listed tier) p ports)

  -- Each of the three lists holds the labels of the ports that belong to it, in their order: as
  -- devtool those with an executable at an ephemeral path that are bound to loopback only and
  -- whose known process runs an installed program, as provisional those whose process runs one of
  -- a tree that a user can write, and as suspicious all others with such an executable.
  pub classify_listeners-filter :
      (ports : List PortInfo)
      → ((classify_listeners host ports).suspicious
          ≡ map port_label (filter (is_listed as_suspicious) ports))
        × ((classify_listeners host ports).devtool
            ≡ map port_label (filter (is_listed as_devtool) ports))
        × ((classify_listeners host ports).provisional
            ≡ map port_label (filter (is_listed as_provisional) ports))
  unfolding classify_listeners
  classify_listeners-filter ports =
      let empty : ListenerTiers = record { suspicious = []; devtool = []; provisional = [] } in
      (
        classify_from-entries as_suspicious ports empty,
        classify_from-entries as_devtool ports empty,
        classify_from-entries as_provisional ports empty,
      )
