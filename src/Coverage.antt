-- ===== src/Coverage.antt =====
-- src/coverage.rs: the sink of notes on what a scan could not see. The sink behind the lock is the
-- list of its notes.
pub mod Cap
use owlzops_mapper.Common.{
  ℕ, Text, codes, List, [], ◌∷◌, ◌++◌, ◌==◌, nat_eq, if◌then◌else◌, ltb, length, map,
}

abbrev pub max_entries : ℕ
max_entries = 1024

unfoldable pub cap_marker : Text
cap_marker = codes "coverage cap reached — further warnings suppressed"

unfoldable pub record_note : List Text → Text → List Text
record_note v msg =
    if ltb (length v) max_entries
    then v ++ msg ∷ []
    else if length v == max_entries
    then v ++ cap_marker ∷ []
    else v

-- The notes of a scan, recorded one after the other.
unfoldable pub record_all : List Text → List Text → List Text
unfolding record_note
record_all v [] = v
record_all v (msg ∷ msgs) = record_all (record_note v msg) msgs

unfoldable pub scoped : Text → Text → Text
scoped scope msg = codes "[" ++ (scope ++ (codes "] " ++ msg))

-- What is drained, and the sink afterwards.
unfoldable pub drain_scoped : Text → List Text → List Text × List Text
drain_scoped scope v = (map (scoped scope) v, [])
