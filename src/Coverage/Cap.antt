-- ===== src/Coverage/Cap.antt =====
-- What src/coverage.rs keeps of a scan with many notes.
use owlzops_mapper.Common.{
  ℕ, zero, suc, ◌+◌, Text, List, [], ◌∷◌, ◌++◌, ◌≡◌, refl, arith, ap, ◌∙◌, sym, length,
  length-append, take, ltb, if◌then◌else◌, map, append-nil, append_assoc, nat_eq,
}
use owlzops_mapper.Coverage.{max_entries, cap_marker, record_note, record_all, scoped, drain_scoped}

-- The marker, if more notes come than there is room for.
abbrev pub overflow : ℕ → List Text → List Text
overflow room msgs = if ltb room (length msgs) then cap_marker ∷ [] else []

overflow-cons : (m : Text) (ms : List Text) → overflow 0 (m ∷ ms) ≡ cap_marker ∷ []
overflow-cons m ms = ground arith

overflow-nil : (room : ℕ) → overflow room [] ≡ []
overflow-nil room = ground arith

overflow-suc :
    (room : ℕ) (m : Text) (ms : List Text) → overflow (suc room) (m ∷ ms) ≡ overflow room ms
overflow-suc room m ms = ground arith

full : (v msgs : List Text) → length v ≡ max_entries + 1 → record_all v msgs ≡ v
unfolding record_all record_note
full v [] h = refl
full v (msg ∷ msgs) h =
    let same : record_note v msg ≡ v = ground (arith, h) in
    ap (λ w. record_all w msgs) same ∙ full v msgs h

record_all-room :
    (room : ℕ) (v msgs : List Text)
    → length v + room ≡ max_entries
    → record_all v msgs ≡ v ++ (take room msgs ++ overflow room msgs)
unfolding record_all record_note
record_all-room zero v [] h = sym (append-nil v)
record_all-room zero v (msg ∷ msgs) h =
    let last : record_note v msg ≡ v ++ cap_marker ∷ [] = ground (arith, h) in
    ap (λ w. record_all w msgs) last
    ∙ full (v ++ cap_marker ∷ []) msgs (omega (arith, h, length-append v (cap_marker ∷ [])))
    ∙ ap (λ w. v ++ w) (sym (overflow-cons msg msgs))
record_all-room (suc room) v [] h = sym (ap (λ w. v ++ w) (overflow-nil (suc room)) ∙ append-nil v)
record_all-room (suc room) v (msg ∷ msgs) h =
    let next : record_note v msg ≡ v ++ msg ∷ [] = ground (arith, h) in
    ap (λ w. record_all w msgs) next
    ∙ record_all-room room (v ++ msg ∷ []) msgs (omega (arith, h, length-append v (msg ∷ [])))
    ∙ append_assoc v (msg ∷ []) (take room msgs ++ overflow room msgs)
    ∙ ap (λ w. v ++ msg ∷ (take room msgs ++ w)) (sym (overflow-suc room msg msgs))

-- What a scan drains is its first 1024 notes in their order, each with its scope, and behind them
-- the marker exactly if there were more; the sink is empty then.
pub drain-record_all :
    (scope : Text) (msgs : List Text)
    → drain_scoped scope (record_all [] msgs)
      ≡ (map (scoped scope) (take max_entries msgs ++ overflow max_entries msgs), [])
unfolding drain_scoped
drain-record_all scope msgs =
    ap (λ v. (map (scoped scope) v, [])) (record_all-room max_entries [] msgs (omega arith))
