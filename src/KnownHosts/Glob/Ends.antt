-- ===== src/KnownHosts/Glob/Ends.antt =====
-- src/known_hosts.rs: the fuel of the loop of `glob_match`, on any text.
use native.Mathlib.Nat.{mul-le-mul_right}
use owlzops_mapper.Common.{
  ℕ, zero, suc, ◌+◌, ◌*◌, ◌≤◌, ◌<◌, Text, as_bytes, Bool, List, [], ◌∷◌, Option, none, some, ◌≡◌,
  refl, arith, length, get_elem?, drop, inl, inr, Option-cases, Bool-cases, ◌==◌, nat_eq, ◌||◌,
  if◌then◌else◌, sym, subst, ◌-◌, false,
}
use owlzops_mapper.KnownHosts.Glob.{Star, loop, retry, glob_match, only_stars}
use owlzops_mapper.KnownHosts.Glob.Rounds.{loop-end, loop-out, loop-round}

abbrev Answered : Option Bool → Type 0
Answered answer = (b : Bool) × (answer ≡ some b)

get_elem?-lt : (t : List ℕ) (i : ℕ) {b : ℕ} → get_elem? t i ≡ some b → i < length t
get_elem?-lt [] i h = absurd (cc)
get_elem?-lt (x ∷ t) zero h = omega arith
get_elem?-lt (x ∷ t) (suc i) h = omega (arith, get_elem?-lt t i h)

module _ (p t : List ℕ) where
  -- Where in the text the last star was tried.
  abbrev start : Star → ℕ
  start none = 0
  start (some (sp, st)) = st

  abbrev IsInside : Star → Type 0
  IsInside none = Unit
  IsInside (some (sp, st)) = sp < length p

  -- `m` is the text behind the start of the last star; each byte of it costs at most one pass over
  -- the pattern.
  record Left (f m pi ti : ℕ) (s : Star) : Type 0 where
    rest : start s + m ≡ length t
    started : start s ≤ ti
    inside : IsInside s
    pattern : pi ≤ length p
    fuel : m * (length p + 1) + length p < f + pi

  abbrev Terminates : ℕ → Type 0
  Terminates f = (m pi ti : ℕ) (s : Star) → Left f m pi ti s → Answered (loop f p t pi ti s)

  retry-ends :
      (f m pi ti : ℕ) (s : Star)
      → Terminates f
      → ti < length t
      → Left (suc f) m pi ti s
      → Answered (retry s (loop f p t))
  retry-ends f m pi ti none ih h l = (false, refl)
  retry-ends f zero pi ti (some (sp, st)) ih h l = absurd (omega (arith, h, l.rest, l.started))
  retry-ends f (suc m) pi ti (some (sp, st)) ih h l =
      ih m (suc sp) (suc st) (some (sp, suc st)) (record {
        rest = omega (arith, l.rest);
        started = omega arith;
        inside = l.inside;
        pattern = omega (arith, l.inside);
        fuel = omega (arith, l.fuel, l.inside, l.pattern);
      })

  round-ends :
      (f m a b pi ti : ℕ) (s : Star)
      → Terminates f
      → ti < length t
      → pi < length p
      → Left (suc f) m pi ti s
      → Answered (
          if a == b'?' || a == b
          then loop f p t (suc pi) (suc ti) s
          else if a == b'*'
          then loop f p t (suc pi) ti (some (pi, ti))
          else retry s (loop f p t))
  round-ends f m a b pi ti s ih ht hp l = elim (Bool-cases (a == b'?' || a == b)) [
    | inl e ↦ rw e (
        ih m (suc pi) (suc ti) s (record {
          rest = l.rest;
          started = omega (arith, l.started);
          inside = l.inside;
          pattern = omega (arith, hp);
          fuel = omega (arith, l.fuel);
        }))
    | inr e ↦ elim (Bool-cases (a == b'*')) [
      | inl q ↦
          rw (e, q)
            (ih (length t - ti) (suc pi) ti (some (pi, ti)) (record {
              rest = omega (arith, ht);
              started = omega arith;
              inside = hp;
              pattern = omega (arith, hp);
              fuel = omega (
                arith,
                l.fuel,
                mul-le-mul_right {m = length t - ti} {n = m} (length p + 1)
                    (omega (arith, l.rest, l.started)),
              );
            }))
      | inr q ↦ rw (e, q) (retry-ends f m pi ti s ih ht l)
    ]
  ]

  loop-ends : (f : ℕ) → Terminates f
  loop-ends zero m pi ti s l = absurd (omega (arith, l.fuel, l.pattern))
  loop-ends (suc f) m pi ti s l = elim (Option-cases (get_elem? t ti)) [
    | inl e ↦ (only_stars (drop pi p), loop-end p t f pi ti s e)
    | inr (b, e) ↦
        let ht = get_elem?-lt t ti e in
        elim (Option-cases (get_elem? p pi)) [
          | inl q ↦
              subst Answered (sym (loop-out p t f b pi ti s e q))
                (retry-ends f m pi ti s (loop-ends f) ht l)
          | inr (a, q) ↦
              subst Answered (sym (loop-round p t f a b pi ti s e q))
                (round-ends f m a b pi ti s (loop-ends f) ht (get_elem?-lt p pi q) l)
        ]
  ]

-- For every pattern and every text, one with an asterisk included, the loop ends within its fuel
-- and `glob_match` has an answer.
pub glob_match-ends : (pattern text : Text) → (b : Bool) × (glob_match pattern text ≡ some b)
unfolding glob_match
glob_match-ends pattern text =
    let p = as_bytes pattern in
    let t = as_bytes text in
    loop-ends p t ((length t + 1) * (length p + 1)) (length t) 0 0 none (record {
      rest = omega arith;
      started = omega arith;
      inside = tt;
      pattern = omega arith;
      fuel = omega arith;
    })
