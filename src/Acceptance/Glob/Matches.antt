-- ===== src/Acceptance/Glob/Matches.antt =====
-- src/acceptance.rs: what it means that a glob matches, with no search in it, and `glob_match`.
use owlzops_mapper.Common.{
  append-eq-nil, append_assoc, subst, sym, ◌∙◌, ap, ℕ, true, List, [], ◌∷◌, ◌++◌, Text, as_bytes,
  ◌==◌, nat_eq, ◌≡◌, ◌≢◌, refl, ◌↔◌, ◌⊎◌, inl, inr, arith, Bool-cases, ap,
}
use owlzops_mapper.Acceptance.Glob.{go, glob_match}

-- A star stands for any run of bytes, a question mark for any byte, any other byte for itself.
pub data Matches : List ℕ → List ℕ → Type 0 where
  done : Matches [] []
  run :
      {a : ℕ} {p s v : List ℕ} (u : List ℕ)
      → a ≡ b'*'
      → s ≡ u ++ v
      → Matches p v
      → Matches (a ∷ p) s
  one :
      {a b : ℕ} {p s : List ℕ}
      → a ≢ b'*'
      → (a ≡ b'?') ⊎ (a ≡ b)
      → Matches p s
      → Matches (a ∷ p) (b ∷ s)

-- A star may take one more byte.
pub Matches-longer :
    {a b : ℕ} {p s : List ℕ} → a ≡ b'*' → Matches (a ∷ p) s → Matches (a ∷ p) (b ∷ s)
Matches-longer {b} e (run u q e' m) = run (b ∷ u) q (ap (λ t. b ∷ t) e') m
Matches-longer e (one n h m) = absurd (n e)

go→Matches : (p s : List ℕ) → go p s ≡ true → Matches p s
unfolding go
go→Matches [] [] h = done
go→Matches [] (b ∷ s) h = absurd (cc)
go→Matches (a ∷ p) [] h = elim (Bool-cases (a == b'*')) [
  | inl e ↦ run [] ((nat_eq.beq_iff a b'*').0 e) refl (go→Matches p [] (rw e at h))
  | inr e ↦ absurd (ground arith)
]
go→Matches (a ∷ p) (b ∷ s) h = elim (Bool-cases (a == b'*')) [
  | inl e ↦
      let star = (nat_eq.beq_iff a b'*').0 e in
      elim (Bool-cases (go p (b ∷ s))) [
        | inl q ↦ run [] star refl (go→Matches p (b ∷ s) q)
        | inr q ↦ Matches-longer star (go→Matches (a ∷ p) s (ground arith))
      ]
  | inr e ↦ one (ground arith) (ground arith) (go→Matches p s (ground arith))
]

go-run : (a : ℕ) (p u v : List ℕ) → a ≡ b'*' → go p v ≡ true → go (a ∷ p) (u ++ v) ≡ true
unfolding go
go-run a p [] [] e h = ground arith
go-run a p [] (b ∷ v) e h = ground arith
go-run a p (b ∷ u) v e h = ground (arith, go-run a p u v e h)

Matches→go : {p s : List ℕ} → Matches p s → go p s ≡ true
unfolding go
Matches→go done = refl
Matches→go (run {a = a} {p = p} {v = v} u e e' m) = rw e' (go-run a p u v e (Matches→go m))
Matches→go (one n h m) = ground (arith, Matches→go m)

-- `glob_match` answers true exactly on the texts that the pattern describes.
pub glob_match_iff :
    (pattern s : Text) → (glob_match pattern s ≡ true) ↔ Matches (as_bytes pattern) (as_bytes s)
unfolding glob_match
glob_match_iff pattern s = (go→Matches (as_bytes pattern) (as_bytes s), Matches→go)

-- How the description of a star unfolds.
module _ {a : ℕ} {p : List ℕ} (star : a ≡ b'*') where
  pub star_leave : {s : List ℕ} → Matches p s → Matches (a ∷ p) s
  star_leave m = run [] star refl m

  pub star_at_end : Matches (a ∷ p) [] → Matches p []
  star_at_end (run {v = v} u e e' m) = subst (λ t. Matches p t) (append-eq-nil u v (sym e')).1 m

  pub star_split :
      {b : ℕ} {s : List ℕ} → Matches (a ∷ p) (b ∷ s) → Matches p (b ∷ s) ⊎ Matches (a ∷ p) s
  star_split (run [] e e' m) = inl (subst (λ t. Matches p t) (sym e') m)
  star_split (run (x ∷ u) e e' m) = inr (run u e (cc) m)
  star_split (one n h m) = absurd (n star)

ap_tail : {x y : ℕ} {s t : List ℕ} → x ∷ s ≡ y ∷ t → s ≡ t
ap_tail e = cc

pub two_stars :
    {a c : ℕ} {p s : List ℕ} → c ≡ b'*' → Matches (a ∷ c ∷ p) s → a ≡ b'*' → Matches (a ∷ p) s
two_stars {s} star (run {v = v} u e e' (run {v = w} u2 e2 e2' m)) star' =
    run (u ++ u2) e (e' ∙ ap (λ t. u ++ t) e2' ∙ sym (append_assoc u u2 w)) m
two_stars star (run u e e' (one n h m)) star' = absurd (n star)
two_stars star (one n h m) star' = absurd (n star')

-- Why the loop may forget all stars but the last: wherever a byte's test matches behind a star,
-- what follows the test begins after the first byte.
pub drop_test :
    {a c b : ℕ} {p s : List ℕ}
    → a ≡ b'*'
    → c ≢ b'*'
    → Matches (a ∷ c ∷ p) (b ∷ s)
    → Matches (a ∷ p) s
drop_test star ne (run u e e' (run u2 e2 e2' m)) = absurd (ne e2)
drop_test star ne (run [] e e' (one {s = s'} n h m)) = run [] star (cc) m
drop_test star ne (run (x ∷ u) e e' (one {b = y} {s = s'} n h m)) =
    run (u ++ y ∷ []) star (ap_tail e' ∙ sym (append_assoc u (y ∷ []) s')) m
drop_test star ne (one n h m) = absurd (n star)

pub test_inv : {c b : ℕ} {p s : List ℕ} → c ≢ b'*' → Matches (c ∷ p) (b ∷ s) → Matches p s
test_inv ne (run u e e' m) = absurd (ne e)
test_inv ne (one n h m) = m
