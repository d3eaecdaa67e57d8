-- ===== src/Sudoers/Walk/Once.antt =====
-- src/scanners/sudoers.rs: how often and how many files the walk reads.
use owlzops_mapper.Common.{
  true≢false, ℕ, suc, ◌≤◌, Text, Bool, Bool-cases, ◌∙◌, false, List, [], ◌∷◌, ◌≡◌, ◌≢◌, refl, arith,
  sym, inl, inr, ◌||◌, length, All, Any, All-mono, All-append, contains, map, text_eq, text_beq,
  text_beq_iff,
}
use owlzops_mapper.Sudoers.Lines.{logical_lines}
use owlzops_mapper.Sudoers.Walk.{
  FileSystem, Trace, Queue, Content, text, not_found, invalid_data, unreadable, canon_path_key,
  read_entries, entries_of, push_file, walk, max_sudoers_files, max_sudoers_bytes,
  each_sudoers_entry_from, push_roots, followed_by,
}
use owlzops_mapper.Sudoers.Walk.Rounds.{walk_induction}

All-const_map :
    (f : Text) (xs : List Text) → All (λ (e : Text × Text). e.0 ≡ f) (map (λ x. (f, x)) xs)
All-const_map f [] = tt
All-const_map f (x ∷ xs) = (refl, All-const_map f xs)

entries_of-file :
    (f : Text) (d : ℕ) (c : Content) → All (λ (e : Text × Text). e.0 ≡ f) (entries_of f d c).0
unfolding entries_of
entries_of-file f d (text content cut) = All-const_map f (logical_lines content)
entries_of-file f d not_found = tt
entries_of-file f d invalid_data = tt
entries_of-file f d (unreadable kind) = tt

not_either : (a b : Bool) → (a || b) ≡ false → (a ≡ false) × (b ≡ false)
not_either a b h = ground arith

module _ (fs : FileSystem) where
  -- No two of the files have the same canonical path.
  abbrev pub IsUnique : List (Text × ℕ) → Type 0
  IsUnique [] = Unit
  IsUnique (s ∷ ss) =
      All (λ (r : Text × ℕ). canon_path_key fs s.0 ≢ canon_path_key fs r.0) ss × IsUnique ss

  read_entries-file :
      (f : Text) (d : ℕ) → All (λ (e : Text × Text). e.0 ≡ f) (read_entries fs f d).entries
  unfolding read_entries
  read_entries-file f d = elim (Bool-cases (fs.is_dir f)) [
    | inl e ↦ rw e tt
    | inr e ↦ rw e (entries_of-file f d (fs.read_capped f max_sudoers_bytes))
  ]

  abbrev Fresh : List Text → List (Text × ℕ) → Type 0
  Fresh v seen = All (λ (s : Text × ℕ). contains v (canon_path_key fs s.0) ≡ false) seen

  abbrev Once : ℕ → Queue → List Text → Trace → Type 0
  Once b q v t =
      (length t.seen ≤ b)
      × Fresh v t.seen
      × IsUnique t.seen
      × All (λ (e : Text × Text). Any (λ (s : Text × ℕ). s.0 ≡ e.0) t.seen) t.entries

  -- A file that was not seen, in front of what is seen behind it.
  Once-fresh :
      (b : ℕ) (f : Text) (d : ℕ) (q : Queue) (v : List Text) (t : Trace)
      → contains v (canon_path_key fs f) ≡ false
      → Once b (push_file fs f d q) (canon_path_key fs f ∷ v) t
      → Once (suc b) ((f, d) ∷ q) v (followed_by (read_entries fs f d) t)
  unfolding read_entries
  Once-fresh b f d q v t k h =
      let split : All
          (λ (s : Text × ℕ).
            (text_beq (canon_path_key fs f) (canon_path_key fs s.0) ≡ false)
            × (contains v (canon_path_key fs s.0) ≡ false))
          t.seen =
        All-mono t.seen (λ s c. not_either _ _ c) h.1 in
      (
        omega (arith, h.0),
        (k, All-mono t.seen (λ s c. c.1) split),
        (All-mono t.seen (λ s c e. true≢false (sym ((text_beq_iff _ _).1 e) ∙ c.0)) split, h.2),
        All-append _ (read_entries fs f d).entries t.entries
            (All-mono (read_entries fs f d).entries (λ e own. inl (sym own))
              (read_entries-file f d))
            (All-mono t.entries (λ e a. inr a) h.3),
      )

  walk-Once : (b : ℕ) (q : Queue) (v : List Text) → Once b q v (walk fs b q v)
  walk-Once =
      walk_induction fs Once (λ b v. (omega arith, tt, tt, tt)) (λ i q v. (omega arith, tt, tt, tt))
        (λ b f d q v t h. h) (λ b f d q v t k h. h) Once-fresh

  -- Whatever the files say, the walk ends: it reads at most 512 files, none of them twice under any
  -- of its names, and each entry comes from one of them.
  pub each_sudoers_entry_from-once :
      (roots : List Text)
      → (length (each_sudoers_entry_from fs roots).seen ≤ max_sudoers_files)
        × IsUnique (each_sudoers_entry_from fs roots).seen
        × All
            (λ (e : Text × Text).
              Any (λ (s : Text × ℕ). s.0 ≡ e.0) (each_sudoers_entry_from fs roots).seen)
            (each_sudoers_entry_from fs roots).entries
  unfolding each_sudoers_entry_from
  each_sudoers_entry_from-once roots =
      let h = walk-Once max_sudoers_files (push_roots fs roots []) [] in (h.0, h.2, h.3)
