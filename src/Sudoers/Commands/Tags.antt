-- ===== src/Sudoers/Commands/Tags.antt =====
-- src/scanners/sudoers.rs: the fuel of the loop over the tags glued to a command.
use owlzops_mapper.Common.{
  ℕ, zero, suc, ◌≤◌, ◌<◌, Text, Bool, [], ◌∷◌, none, some, ◌≡◌, refl, length, arith, split_once,
  trim_start, trim, Option-cases, inl, inr, ◌==◌, nat_eq,
}
use owlzops_mapper.Sudoers.Commands.{glued_tags, apply_tag}

length-trim_start-le : (s : Text) → length (trim_start s) ≤ length s
unfolding trim_start
length-trim_start-le [] = omega arith
length-trim_start-le (c ∷ s) = ground (arith, length-trim_start-le s)

split_once-shorter :
    (p : ℕ → Bool) (s a b : Text) → split_once p s ≡ some (a, b) → length b < length s
unfolding split_once
split_once-shorter p [] a b h = absurd (cc)
split_once-shorter p (c ∷ s) a b h = elim (Option-cases (split_once p s)) [
  | inl e ↦ ground (arith, e)
  | inr ((a', b'), e) ↦ ground (arith, e, split_once-shorter p s a' b' e)
]

abbrev colon : ℕ → Bool
colon c = c == b':'

-- With as much fuel as the text is long, no colon is left: the loop ended by its own test.
pub glued_tags-ends :
    (f : ℕ) (rest : Text) (np : Bool)
    → length rest ≤ f
    → split_once (λ c. c == b':') (glued_tags f rest np).0 ≡ none
unfolding glued_tags
glued_tags-ends zero [] np h = unfold split_once in refl
glued_tags-ends zero (c ∷ rest) np h = absurd (omega arith)
glued_tags-ends (suc f) rest np h = elim (Option-cases (split_once (λ c. c == b':') rest)) [
  | inl e ↦ ground (arith, e)
  | inr ((tag, after), e) ↦
      let ih =
        glued_tags-ends f (trim_start after) (apply_tag (trim tag) np).1
          (omega (arith, length-trim_start-le after, split_once-shorter _ rest tag after e)) in
      ground (arith, e, ih)
]
