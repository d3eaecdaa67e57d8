-- ===== src/KnownHosts/Glob/Decides.antt =====
-- src/known_hosts.rs: the loop of `glob_match` against the relation that the recursive glob of
-- src/acceptance.rs is measured by.
use owlzops_mapper.Common.{
  ℕ, zero, suc, ◌+◌, ◌*◌, ◌≤◌, ◌<◌, Bool, true, false, List, [], ◌∷◌, Text, as_bytes, Option, none,
  some, ◌==◌, nat_eq, length, get_elem?, drop, drop-none, drop-some, ◌≡◌, ◌≢◌, refl, ◌↔◌, ◌⊎◌, inl,
  inr, arith, All, Option-cases, Bool-cases, subst, sym, ap, ◌||◌, if◌then◌else◌,
}
use owlzops_mapper.Acceptance.Glob.Matches.{
  Matches, done, run, one, Matches-longer, star_leave, star_at_end, star_split, two_stars,
  drop_test, test_inv,
}
use owlzops_mapper.KnownHosts.Glob.Rounds.{loop-end, loop-out, loop-round}
use owlzops_mapper.KnownHosts.Glob.{Star, retry, only_stars, loop, glob_match}

abbrev star : ℕ
star = b'*'

only_stars→Matches : (p : List ℕ) → only_stars p ≡ true → Matches p []
unfolding only_stars
only_stars→Matches [] h = done
only_stars→Matches (a ∷ p) h = elim (Bool-cases (a == star)) [
  | inl e ↦ run [] ((nat_eq.beq_iff a star).0 e) refl (only_stars→Matches p (rw e at h))
  | inr e ↦ absurd (ground arith)
]

Matches→only_stars : (p : List ℕ) → Matches p [] → only_stars p ≡ true
unfolding only_stars
Matches→only_stars [] m = refl
Matches→only_stars (a ∷ p) (run u e e' m) =
    ground (arith, Matches→only_stars p (star_at_end e (run u e e' m)))

-- The answer is there, and it is right about the question `G`.
abbrev pub Answers : Type 0 → Option Bool → Type 0
Answers G none = ⊥
Answers G (some b) = (b ≡ true) ↔ G

-- What is saved at the last star: the pattern behind it, and the text from where it was tried.
abbrev Saved : Type 0
Saved = Option (List ℕ × List ℕ)

module _ (G : Type 0) (k : ℕ) where
  -- `m` bounds the text that is left to try again.
  abbrev Recoverable : ℕ → List ℕ → List ℕ → Saved → Type 0
  Recoverable m p t none = G → Matches p t
  Recoverable m p t (some (bp, bt)) =
      (G ↔ Matches (star ∷ bp) bt)
      × (Matches bp bt → Matches p t)
      × (length t ≤ length bt)
      × (length bt ≤ m)
      × (length bp < k)

  record Inv (f m : ℕ) (p t : List ℕ) (saved : Saved) : Type 0 where
    now : Matches p t → G
    later : G → Matches (star ∷ p) t
    recoverable : Recoverable m p t saved
    text_bound : length t ≤ m
    pattern_bound : length p < k
    fuel : m * k + length p < f

  Inv-at_star :
      {f m : ℕ} {a : ℕ} {p t : List ℕ} {saved : Saved}
      → a ≡ star
      → Inv (suc f) m (a ∷ p) t saved
      → Inv f m p t (some (p, t))
  Inv-at_star {p} {t} e i = record {
    now = λ d. i.now (star_leave e d);
    later = λ g. two_stars e (i.later g) refl;
    recoverable = (
      (λ g. two_stars e (i.later g) refl, λ d. i.now (subst (λ c. Matches (c ∷ p) t) (sym e) d)),
      λ d. d,
      omega arith,
      i.text_bound,
      omega arith,
    );
    text_bound = i.text_bound;
    pattern_bound = omega arith;
    fuel = omega arith;
  }

  Recoverable-advance :
      (m a b : ℕ) (p t : List ℕ) (saved : Saved)
      → a ≢ star
      → Recoverable m (a ∷ p) (b ∷ t) saved
      → Recoverable m p t saved
  Recoverable-advance m a b p t none ne h = λ g. test_inv ne (h g)
  Recoverable-advance m a b p t (some (bp, bt)) ne (e, down, shorter, hm, hk) =
      (e, λ d. test_inv ne (down d), omega arith, hm, hk)

  Inv-advance :
      {f m a b : ℕ} {p t : List ℕ} (saved : Saved)
      → a ≢ star
      → (a ≡ b'?') ⊎ (a ≡ b)
      → Inv (suc f) m (a ∷ p) (b ∷ t) saved
      → Inv f m p t saved
  Inv-advance {m} {a} {b} {p} {t} saved ne h i = record {
    now = λ d. i.now (one ne h d);
    later = λ g. drop_test refl ne (i.later g);
    recoverable = Recoverable-advance m a b p t saved ne i.recoverable;
    text_bound = omega arith;
    pattern_bound = omega arith;
    fuel = omega arith;
  }

  Inv-retry :
      {f m b x : ℕ} {p t bp bt : List ℕ}
      → ¬ Matches p (b ∷ t)
      → Inv (suc f) m p (b ∷ t) (some (bp, x ∷ bt))
      → Inv f (length bt) bp bt (some (bp, bt))
  Inv-retry {bp = bp} {bt = bt} mismatch i =
      let (e, down, shorter, hm, hk) = i.recoverable in
      let must_take : G → Matches (star ∷ bp) bt =
        λ g. elim (star_split refl (e.0 g)) [ inl d ↦ absurd (mismatch (down d)) | inr d ↦ d ] in
      record {
        now = λ d. e.1 (Matches-longer refl (star_leave refl d));
        later = must_take;
        recoverable =
            ((must_take, λ d. e.1 (Matches-longer refl d)), λ d. d, omega arith, omega arith, hk);
        text_bound = omega arith;
        pattern_bound = hk;
        fuel = grind arith;
      }

-- A star of the loop, as what it saved.
abbrev saved_at : List ℕ → List ℕ → Star → Saved
saved_at p t none = none
saved_at p t (some (sp, st)) = some (drop (suc sp) p, drop st t)

All-get_elem? :
    (P : ℕ → Type 0) (t : List ℕ) (i : ℕ) {b : ℕ} → All P t → get_elem? t i ≡ some b → P b
All-get_elem? P [] i h e = absurd (cc)
All-get_elem? P (x ∷ t) zero {b} h e = let q : x ≡ b = cc in subst P q h.0
All-get_elem? P (x ∷ t) (suc i) h e = All-get_elem? P t i h.1 e

byte_test : (a b : ℕ) → (a == b'?' || a == b) ≡ true → (a ≡ b'?') ⊎ (a ≡ b)
byte_test a b h = ground arith

mismatched :
    {p t : List ℕ} (a b : ℕ)
    → (a == b'?' || a == b) ≡ false
    → (a == star) ≡ false
    → ¬ Matches (a ∷ p) (b ∷ t)
mismatched a b e q (run u s e' m) = absurd (ground arith)
mismatched a b e q (one n h m) = absurd (ground arith)

no_pattern : {b : ℕ} {t : List ℕ} → ¬ Matches [] (b ∷ t)
no_pattern m = elim m [ ]

module _ (G : Type 0) (k : ℕ) (p t : List ℕ) (plain : All (λ b. b ≢ star) t) where
  abbrev Holds : ℕ → ℕ → ℕ → ℕ → Star → Type 0
  Holds f m pi ti s = Inv G k f m (drop pi p) (drop ti t) (saved_at p t s)

  abbrev Correct : ℕ → Type 0
  Correct f = (m pi ti : ℕ) (s : Star) → Holds f m pi ti s → Answers G (loop f p t pi ti s)

  retry-Answers :
      (f m b pi ti : ℕ) (s : Star)
      → Correct f
      → drop ti t ≡ b ∷ drop (suc ti) t
      → ¬ Matches (drop pi p) (b ∷ drop (suc ti) t)
      → Holds (suc f) m pi ti s
      → Answers G (retry s (loop f p t))
  retry-Answers f m b pi ti none ih e mismatch i =
      (λ h. absurd (cc h), λ g. absurd (mismatch (rw e at (i.recoverable g))))
  retry-Answers f m b pi ti (some (sp, st)) ih e mismatch i = elim (Option-cases (get_elem? t st)) [
    | inl q ↦ absurd (omega (arith, ap length e, ap length (drop-none t st q), i.recoverable.2))
    | inr (x, q) ↦
        let i' : Inv G k (suc f) m (drop pi p) (b ∷ drop (suc ti) t)
            (some (drop (suc sp) p, x ∷ drop (suc st) t)) =
          rw (← e, ← drop-some t st x q) i in
        ih (length (drop (suc st) t)) (suc sp) (suc st) (some (sp, suc st))
          (Inv-retry G k mismatch i')
  ]

  -- The three branches of a round at a byte `a` of the pattern and a byte `b` of the text.
  round-Answers :
      (f m a b pi ti : ℕ) (s : Star)
      → Correct f
      → b ≢ star
      → drop ti t ≡ b ∷ drop (suc ti) t
      → drop pi p ≡ a ∷ drop (suc pi) p
      → Holds (suc f) m pi ti s
      → Answers G (
          if a == b'?' || a == b
          then loop f p t (suc pi) (suc ti) s
          else if a == star
          then loop f p t (suc pi) ti (some (pi, ti))
          else retry s (loop f p t))
  round-Answers f m a b pi ti s ih ne text pattern i = elim (Bool-cases (a == b'?' || a == b)) [
    | inl e ↦ rw e (
        ih m (suc pi) (suc ti) s (
          Inv-advance G k (saved_at p t s) (ground arith) (byte_test a b e)
            (rw (← pattern, ← text) i)))
    | inr e ↦ elim (Bool-cases (a == star)) [
      | inl q ↦
          rw (e, q)
            (ih m (suc pi) ti (some (pi, ti)) (
              Inv-at_star G k {saved = saved_at p t s} ((nat_eq.beq_iff a star).0 q)
                (rw (← pattern) i)))
      | inr q ↦
          rw (e, q)
            (retry-Answers f m b pi ti s ih text
              (λ d. mismatched a b e q (subst (λ r. Matches r (b ∷ drop (suc ti) t)) pattern d)) i)
    ]
  ]

  loop-Answers : (f : ℕ) → Correct f
  loop-Answers zero m pi ti s i = absurd (omega (arith, i.fuel))
  loop-Answers (suc f) m pi ti s i = elim (Option-cases (get_elem? t ti)) [
    | inl e ↦ subst (Answers G) (sym (loop-end p t f pi ti s e)) (
      λ h. i.now (rw (drop-none t ti e) (only_stars→Matches (drop pi p) h)),
      λ g. Matches→only_stars (drop pi p) (
          star_at_end refl
            (subst (λ r. Matches (star ∷ drop pi p) r) (drop-none t ti e) (i.later g))),
    )
    | inr (b, e) ↦
        let text = drop-some t ti b e in
        elim (Option-cases (get_elem? p pi)) [
          | inl q ↦ subst (Answers G) (sym (loop-out p t f b pi ti s e q)) (
              retry-Answers f m b pi ti s (loop-Answers f) text
                (λ d.
                  no_pattern (subst (λ r. Matches r (b ∷ drop (suc ti) t)) (drop-none p pi q) d))
                i)
          | inr (a, q) ↦ subst (Answers G) (sym (loop-round p t f a b pi ti s e q)) (
              round-Answers f m a b pi ti s (loop-Answers f)
                (All-get_elem? (λ c. c ≢ star) t ti plain e) text (drop-some p pi a q) i)
        ]
  ]

-- On a text with no asterisk in it the loop ends within its fuel, and `glob_match` answers true
-- exactly if the pattern describes the text.
pub glob_match-Answers :
    (pattern text : Text)
    → All (λ b. b ≢ b'*') (as_bytes text)
    → Answers (Matches (as_bytes pattern) (as_bytes text)) (glob_match pattern text)
unfolding glob_match
glob_match-Answers pattern text plain =
    let p = as_bytes pattern in
    let t = as_bytes text in
    loop-Answers (Matches p t) (length p + 1) p t plain ((length t + 1) * (length p + 1)) (length t)
      0 0 none
      (record {
        now = λ d. d;
        later = λ g. star_leave refl g;
        recoverable = λ g. g;
        text_bound = omega arith;
        pattern_bound = omega arith;
        fuel = omega arith;
      })
