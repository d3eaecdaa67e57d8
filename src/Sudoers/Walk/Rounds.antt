-- ===== src/Sudoers/Walk/Rounds.antt =====
-- src/scanners/sudoers.rs: the rounds of the walk, as a rule of induction.
use owlzops_mapper.Common.{
  ℕ, zero, suc, Text, true, false, List, [], ◌∷◌, ◌≡◌, arith, sym, subst, inl, inr, Bool-cases, ltb,
  contains, text_eq,
}
use owlzops_mapper.Sudoers.Walk.{
  FileSystem, Trace, Queue, nothing, followed_by, note, file_budget, depth_limit, max_include_depth,
  canon_path_key, read_entries, push_file, walk,
}

module _ (fs : FileSystem) where
  walk-deep :
      (b : ℕ) (f : Text) (d : ℕ) (q : Queue) (v : List Text)
      → ltb max_include_depth d ≡ true
      → walk fs (suc b) ((f, d) ∷ q) v ≡ followed_by (note (depth_limit f)) (walk fs (suc b) q v)
  unfolding walk
  walk-deep b f d q v e = ground (arith, e)

  walk-known :
      (b : ℕ) (f : Text) (d : ℕ) (q : Queue) (v : List Text)
      → ltb max_include_depth d ≡ false
      → contains v (canon_path_key fs f) ≡ true
      → walk fs (suc b) ((f, d) ∷ q) v ≡ walk fs (suc b) q v
  unfolding walk
  walk-known b f d q v e k = ground (arith, e, k)

  walk-fresh :
      (b : ℕ) (f : Text) (d : ℕ) (q : Queue) (v : List Text)
      → ltb max_include_depth d ≡ false
      → contains v (canon_path_key fs f) ≡ false
      → walk fs (suc b) ((f, d) ∷ q) v
        ≡ followed_by
            (read_entries fs f d)
            (walk fs b (push_file fs f d q) (canon_path_key fs f ∷ v))
  unfolding walk
  walk-fresh b f d q v e k = ground (arith, e, k)

  -- The five ways in which a round goes.
  module _ (P : ℕ → Queue → List Text → Trace → Type 0)
      (done : (b : ℕ) (v : List Text) → P b [] v nothing)
      (spent : (i : Text × ℕ) (q : Queue) (v : List Text) → P 0 (i ∷ q) v (note file_budget))
      (deep : (b : ℕ) (f : Text) (d : ℕ) (q : Queue) (v : List Text) (t : Trace)
        → P (suc b) q v t
        → P (suc b) ((f, d) ∷ q) v (followed_by (note (depth_limit f)) t))
      (known : (b : ℕ) (f : Text) (d : ℕ) (q : Queue) (v : List Text) (t : Trace)
        → contains v (canon_path_key fs f) ≡ true
        → P (suc b) q v t
        → P (suc b) ((f, d) ∷ q) v t)
      (fresh : (b : ℕ) (f : Text) (d : ℕ) (q : Queue) (v : List Text) (t : Trace)
        → contains v (canon_path_key fs f) ≡ false
        → P b (push_file fs f d q) (canon_path_key fs f ∷ v) t
        → P (suc b) ((f, d) ∷ q) v (followed_by (read_entries fs f d) t)) where
    pub walk_induction : (b : ℕ) (q : Queue) (v : List Text) → P b q v (walk fs b q v)
    unfolding walk
    walk_induction b [] v = done b v
    walk_induction zero (i ∷ q) v = spent i q v
    walk_induction (suc b) ((f, d) ∷ q) v = elim (Bool-cases (ltb max_include_depth d)) [
      | inl e ↦
          subst (P (suc b) ((f, d) ∷ q) v) (sym (walk-deep b f d q v e))
            (deep b f d q v _ (walk_induction (suc b) q v))
      | inr e ↦ elim (Bool-cases (contains v (canon_path_key fs f))) [
        | inl k ↦
            subst (P (suc b) ((f, d) ∷ q) v) (sym (walk-known b f d q v e k))
              (known b f d q v _ k (walk_induction (suc b) q v))
        | inr k ↦
            subst (P (suc b) ((f, d) ∷ q) v) (sym (walk-fresh b f d q v e k)) (
              fresh b f d q v _ k (walk_induction b (push_file fs f d q) (canon_path_key fs f ∷ v)))
      ]
    ]
