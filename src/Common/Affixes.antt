-- ===== src/Common/Affixes.antt =====
-- Texts that begin or end as they were put together.
use mathlib.Core.Path.{◌≡◌, refl, ap, ◌∙◌}
use mathlib.Core.Bool.{true}
use mathlib.Core.Option.{Option, some}
use mathlib.Core.List.{[], ◌∷◌, ◌++◌, reverse, reverse-append}
use mathlib.Core.Option
use native.Mathlib.Omega.{arith}
use owlzops_mapper.Common.Tests.{is_some}
use owlzops_mapper.Common.Strings.{Text, strip_prefix, starts_with, strip_suffix, ends_with}

pub strip_prefix-append : (p s : Text) → strip_prefix (p ++ s) p ≡ some s
unfolding strip_prefix
strip_prefix-append [] s = refl
strip_prefix-append (a ∷ p) s = ground (arith, strip_prefix-append p s)

pub starts_with-append : (p s : Text) → starts_with (p ++ s) p ≡ true
unfolding starts_with
starts_with-append p s = ap is_some (strip_prefix-append p s)

pub ends_with-append : (s t : Text) → ends_with (s ++ t) t ≡ true
unfolding ends_with strip_suffix
ends_with-append s t =
    ap (λ r. is_some (Option.map reverse (strip_prefix r (reverse t)))) (reverse-append s t)
    ∙ ap (λ q. is_some (Option.map reverse q)) (strip_prefix-append (reverse t) (reverse s))
