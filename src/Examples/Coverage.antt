-- ===== src/Examples/Coverage.antt =====
-- src/coverage.rs at concrete notes.
use owlzops_mapper.Common.{Text, codes, List, [], ◌∷◌, ◌++◌, ◌≡◌, refl, map, take}
use owlzops_mapper.Coverage.{max_entries, record_all, scoped, drain_scoped}
use owlzops_mapper.Coverage.Cap.{overflow, drain-record_all}

abbrev notes : List Text
notes = codes "pam: truncated" ∷ codes "ebpf: unreadable" ∷ []

drain_test :
    drain_scoped (codes "local") (record_all [] notes)
    ≡ (codes "[local] pam: truncated" ∷ codes "[local] ebpf: unreadable" ∷ [], [])
unfolding drain_scoped record_all scoped
drain_test = refl

drain-record_all_example :
    drain_scoped (codes "local") (record_all [] notes)
    ≡ (map (scoped (codes "local")) (take max_entries notes ++ overflow max_entries notes), [])
drain-record_all_example = drain-record_all (codes "local") notes
