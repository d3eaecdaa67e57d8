-- ===== src/Sudoers/Walk/Gaps.antt =====
-- src/scanners/sudoers.rs: what the walk leaves out, and whether it says so.
use owlzops_mapper.Common.{
  ℕ, suc, ◌+◌, Text, Bool, Bool-cases, true, false, List, [], ◌∷◌, ◌++◌, ◌≡◌, refl, sym,
  Option-cases, ap, ◌∙◌, subst, ◌⊎◌, inl, inr, All, Any, All-mono, All-append_inv, contains,
  text_eq, text_beq, text_beq_iff, append_assoc, lines, trim,
}
use owlzops_mapper.Sudoers.Lines.{include_target}
use owlzops_mapper.Sudoers.Walk.{
  FileSystem, DirEntry, Trace, Queue, Note, Content, text, not_found, invalid_data, unreadable,
  file_budget, depth_limit, truncated, no_root_file, dangling_include, not_regular, unread,
  is_sudoers_file, canon_path_key, push_entries, push_dir, push_includes, push_content, push_file,
  resolve_include, read_entries, walk, max_sudoers_files, max_sudoers_bytes, push_roots,
  each_sudoers_entry_from, followed_by,
}
use owlzops_mapper.Sudoers.Walk.Rounds.{walk_induction}

-- The notes by which the walk says that it stopped short of a file.
abbrev pub is_limit : Note → Bool
is_limit file_budget = true
is_limit (depth_limit f) = true
is_limit (truncated f) = false
is_limit (no_root_file f) = false
is_limit (dangling_include f) = false
is_limit (not_regular f) = false
is_limit (unread f k) = false

abbrev pub NoLimit : List Note → Type 0
NoLimit = All (λ (n : Note). is_limit n ≡ false)

-- A function that pushes in front of what is there, and two such functions after one another.
abbrev IsPush : (Queue → Queue) → Type 0
IsPush g = (q : Queue) → g q ≡ g [] ++ q

compose-IsPush : (g p : Queue → Queue) → IsPush g → IsPush p → IsPush (λ q. g (p q))
compose-IsPush g p hg hp q =
    hg (p q)
    ∙ ap (λ (w : Queue). g [] ++ w) (hp q)
    ∙ sym (append_assoc (g []) (p []) q)
    ∙ ap (λ (w : Queue). w ++ q) (sym (hg (p [])))

module _ (fs : FileSystem) where
  push_entries-IsPush : (es : List DirEntry) (d : ℕ) → IsPush (push_entries fs es d)
  unfolding push_entries
  push_entries-IsPush [] d q = refl
  push_entries-IsPush (e ∷ es) d q = elim (Bool-cases (is_sudoers_file e)) [
    | inl h ↦ rw h (
        compose-IsPush (push_entries fs es d) (λ w. (e.path, d + 1) ∷ w) (push_entries-IsPush es d)
          (λ w. refl) q)
    | inr h ↦ rw h (push_entries-IsPush es d q)
  ]

  push_dir-IsPush : (dir : Text) (d : ℕ) → IsPush (push_dir fs dir d)
  unfolding push_dir
  push_dir-IsPush dir d q = elim (Option-cases (fs.read_dir dir)) [
    | inl e ↦ rw (e, push_dir) refl
    | inr (es, e) ↦ rw (e, push_dir) (push_entries-IsPush es d q)
  ]

  push_includes-IsPush : (f : Text) (d : ℕ) (ls : List Text) → IsPush (push_includes fs f d ls)
  unfolding push_includes
  push_includes-IsPush f d [] q = refl
  push_includes-IsPush f d (raw ∷ rest) q = elim (Option-cases (include_target (trim raw))) [
    | inl e ↦ rw (e, push_includes) (push_includes-IsPush f d rest q)
    | inr ((target, true), e) ↦
        rw (e, push_includes)
          (compose-IsPush (push_includes fs f d rest) (push_dir fs (resolve_include fs f target) d)
            (push_includes-IsPush f d rest) (push_dir-IsPush (resolve_include fs f target) d) q)
    | inr ((target, false), e) ↦
        rw (e, push_includes)
          (compose-IsPush (push_includes fs f d rest)
            (λ w. (resolve_include fs f target, d + 1) ∷ w) (push_includes-IsPush f d rest)
            (λ w. refl) q)
  ]

  push_content-IsPush : (f : Text) (d : ℕ) (c : Content) → IsPush (push_content fs f d c)
  unfolding push_content
  push_content-IsPush f d (text content cut) q = push_includes-IsPush f d (lines content) q
  push_content-IsPush f d not_found q = refl
  push_content-IsPush f d invalid_data q = refl
  push_content-IsPush f d (unreadable kind) q = refl

  push_file-IsPush : (f : Text) (d : ℕ) → IsPush (push_file fs f d)
  unfolding push_file
  push_file-IsPush f d q = elim (Bool-cases (fs.is_dir f)) [
    | inl e ↦ rw e (push_dir-IsPush f d q)
    | inr e ↦ rw e (push_content-IsPush f d (fs.read_capped f max_sudoers_bytes) q)
  ]

  -- A file that was seen before, or that is seen from here on, under one of its names.
  abbrev Known : List Text → List (Text × ℕ) → Text → Type 0
  Known v seen k = (contains v k ≡ true) ⊎ Any (λ (s : Text × ℕ). canon_path_key fs s.0 ≡ k) seen

  Known-step :
      (f : Text) (d : ℕ) (v : List Text) (seen : List (Text × ℕ)) (k : Text)
      → Known (canon_path_key fs f ∷ v) seen k
      → Known v ((f, d) ∷ seen) k
  Known-step f d v seen k (inl h) = elim (Bool-cases (text_beq (canon_path_key fs f) k)) [
    | inl e ↦ inr (inl ((text_beq_iff _ _).0 e))
    | inr e ↦ inl (rw e at h)
  ]
  Known-step f d v seen k (inr h) = inr (inr h)

  -- What is on the queue, and what the files that are seen push, is seen as well.
  abbrev Seen : List Text → List (Text × ℕ) → Queue → Type 0
  Seen v seen = All (λ (i : Text × ℕ). Known v seen (canon_path_key fs i.0))

  abbrev Closed : ℕ → Queue → List Text → Trace → Type 0
  Closed b q v t =
      NoLimit t.notes
      → Seen v t.seen q × All (λ (s : Text × ℕ). Seen v t.seen (push_file fs s.0 s.1 [])) t.seen

  Closed-fresh :
      (b : ℕ) (f : Text) (d : ℕ) (q : Queue) (v : List Text) (t : Trace)
      → contains v (canon_path_key fs f) ≡ false
      → Closed b (push_file fs f d q) (canon_path_key fs f ∷ v) t
      → Closed (suc b) ((f, d) ∷ q) v (followed_by (read_entries fs f d) t)
  unfolding read_entries
  Closed-fresh b f d q v t k h n =
      let rest = h (All-append_inv _ (read_entries fs f d).notes t.notes n).1 in
      let step : (us : Queue)
          → Seen (canon_path_key fs f ∷ v) t.seen us
          → Seen v ((f, d) ∷ t.seen) us =
        λ us. All-mono us (λ i. Known-step f d v t.seen (canon_path_key fs i.0)) in
      let both : Seen (canon_path_key fs f ∷ v) t.seen (push_file fs f d [])
          × Seen (canon_path_key fs f ∷ v) t.seen q =
        All-append_inv _ (push_file fs f d []) q
          (subst (Seen (canon_path_key fs f ∷ v) t.seen) (push_file-IsPush f d q) rest.0) in
      (
        (inr (inl refl), step q both.1),
        (
          step (push_file fs f d []) both.0,
          All-mono t.seen (λ s. step (push_file fs s.0 s.1 [])) rest.1,
        ),
      )

  walk-Closed : (b : ℕ) (q : Queue) (v : List Text) → Closed b q v (walk fs b q v)
  walk-Closed =
      walk_induction fs Closed (λ b v n. (tt, tt)) (λ i q v n. absurd (cc))
        (λ b f d q v t h n. absurd (cc))
        (λ b f d q v t k h n. let rest = h n in ((inl k, rest.0), rest.1)) Closed-fresh

  push_roots-All :
      (P : Text × ℕ → Type 0) (rs : List Text) (q : Queue)
      → All P (push_roots fs rs q)
      → All (λ (r : Text). P (r, 0)) rs × All P q
  unfolding push_roots
  push_roots-All P [] q h = (tt, h)
  push_roots-All P (r ∷ rs) q h =
      let rest = push_roots-All P rs ((r, 0) ∷ q) h in ((rest.1.0, rest.0), rest.1.1)

  -- A file that the walk reads, under one of its names.
  abbrev pub IsRead : List Text → Text → Type 0
  IsRead roots f =
      Any (λ (s : Text × ℕ). canon_path_key fs s.0 ≡ canon_path_key fs f)
        (each_sudoers_entry_from fs roots).seen

  pub each_sudoers_entry_from-closed :
      (roots : List Text)
      → NoLimit (each_sudoers_entry_from fs roots).notes
      → All (IsRead roots) roots
        × All
            (λ (s : Text × ℕ). All (λ (i : Text × ℕ). IsRead roots i.0) (push_file fs s.0 s.1 []))
            (each_sudoers_entry_from fs roots).seen
  unfolding each_sudoers_entry_from
  each_sudoers_entry_from-closed roots n =
      let h = walk-Closed max_sudoers_files (push_roots fs roots []) [] n in
      let read : (us : Queue)
          → Seen [] (each_sudoers_entry_from fs roots).seen us
          → All (λ (i : Text × ℕ). IsRead roots i.0) us =
        λ us. All-mono us (λ i k. elim k [ inl e ↦ absurd (cc) | inr a ↦ a ]) in
      (
        (push_roots-All (λ i. IsRead roots i.0) roots [] (read _ h.0)).0,
        All-mono (each_sudoers_entry_from fs roots).seen (λ s. read (push_file fs s.0 s.1 [])) h.1,
      )
