-- ===== src/Acceptance/Glob.antt =====
-- src/acceptance.rs: `glob_match`, anchored, with `*` and `?` only. It is the one glob of the rules
-- and of the aliases of `~/.ssh/config`.
pub mod Matches
use owlzops_mapper.Common.{
  ℕ, Bool, true, false, ◌||◌, List, [], ◌∷◌, Text, as_bytes, ◌==◌, nat_eq, if◌then◌else◌, not,
}

-- `go`, on the bytes that are left of the pattern and of the text
pub go : List ℕ → List ℕ → Bool
go [] [] = true
go [] (b ∷ s) = false
go (a ∷ p) [] = if a == b'*' then go p [] else false
go (a ∷ p) (b ∷ s) =
    let skip_star = go p (b ∷ s) || go (a ∷ p) s in
    let next = go p s in
    if a == b'*' then skip_star else if a == b'?' then next else if a == b then next else false

unfoldable pub glob_match : Text → Text → Bool
unfolding go as_bytes
glob_match pattern s = go (as_bytes pattern) (as_bytes s)
