-- ===== src/KnownHosts/Glob.antt =====
-- src/known_hosts.rs: `KnownHostsChecker::glob_match`, a loop over two indices that returns to the
-- last star. The loop runs on fuel.
pub mod Rounds
pub mod Decides
pub mod Ends
use owlzops_mapper.Common.{
  ℕ, zero, suc, ◌+◌, ◌*◌, Bool, true, false, ◌||◌, List, [], ◌∷◌, Text, as_bytes, Option, none,
  some, ◌==◌, nat_eq, if◌then◌else◌, length, get_elem?, drop,
}

-- `star_p` and `star_t`: the last star, and where in the text it was last tried. `star_t` is read
-- only where `star_p` is present.
abbrev pub Star : Type 0
Star = Option (ℕ × ℕ)

-- The last two branches of the loop: go back to the star and let it take one more byte, or give up.
abbrev pub retry : Star → (ℕ → ℕ → Star → Option Bool) → Option Bool
retry none next = some false
retry (some (sp, st)) next = next (suc sp) (suc st) (some (sp, suc st))

-- `while pi < p.len() && p[pi] == b'*'`, then the test that the pattern is used up
unfoldable pub only_stars : List ℕ → Bool
only_stars [] = true
only_stars (a ∷ p) = if a == b'*' then only_stars p else false

-- `none` is a loop that ran out of fuel.
pub loop : ℕ → List ℕ → List ℕ → ℕ → ℕ → Star → Option Bool
loop zero p t pi ti star = none
loop (suc f) p t pi ti star = elim (get_elem? t ti) [
  | none ↦ some (only_stars (drop pi p))
  | some b ↦ elim (get_elem? p pi) [
    | none ↦ retry star (loop f p t)
    | some a ↦
        let advance = loop f p t (suc pi) (suc ti) star in
        let at_star = loop f p t (suc pi) ti (some (pi, ti)) in
        let back = retry star (loop f p t) in
        if a == b'?' || a == b then advance else if a == b'*' then at_star else back
  ]
]

unfoldable pub glob_match : Text → Text → Option Bool
unfolding loop only_stars as_bytes
glob_match pattern text =
    let p = as_bytes pattern in
    let t = as_bytes text in loop ((length t + 1) * (length p + 1)) p t 0 0 none
