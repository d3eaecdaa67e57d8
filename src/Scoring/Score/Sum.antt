-- ===== src/Scoring/Score/Sum.antt =====
-- src/scoring.rs: the sums of `score` against the plain sums of weights.
use owlzops_mapper.Common.{
  ℕ, ◌+◌, min, ◌≡◌, refl, List, [], ◌∷◌, arith, is_some, if◌then◌else◌, Bool, true, false,
}
use owlzops_mapper.Scoring.Finding.{Finding, Category}
use owlzops_mapper.Scoring.Score.{Sums, sums, add_weight, score}

-- The weight that a finding adds to a category: its own, if it is live and of the category.
abbrev pub is_category : Category → Category → Bool
is_category Category.security Category.security = true
is_category Category.reliability Category.reliability = true
is_category Category.hygiene Category.hygiene = true
is_category _ _ = false

unfoldable pub share : Category → Finding → ℕ
share c f = if is_some f.suppressed then 0 else if is_category c f.category then f.weight else 0

-- The unbounded sum of the live weights of a category.
unfoldable pub live_weight : Category → List Finding → ℕ
live_weight c [] = 0
live_weight c (f ∷ fs) = share c f + live_weight c fs

-- One round of the loop, seen through the cap of each category.
record Capped (s : Sums) (x y z : ℕ) : Type 0 where
  security_cap : min s.sec 60 ≡ min x 60
  reliability_cap : min s.rel 30 ≡ min y 30
  hygiene_cap : min s.hyg 10 ≡ min z 10

module _ (f : Finding) (s : Sums) where
  abbrev after : Sums
  after = if is_some f.suppressed then s else add_weight f.category f.weight s

  Capped-after :
      (x y z : ℕ)
      → Capped s x y z
      → Capped after
          (x + share Category.security f)
          (y + share Category.reliability f)
          (z + share Category.hygiene f)
  unfolding share add_weight
  Capped-after x y z h = ground arith

Capped-sums :
    (fs : List Finding) (s : Sums) (x y z : ℕ)
    → Capped s x y z
    → Capped
        (sums s fs)
        (x + live_weight Category.security fs)
        (y + live_weight Category.reliability fs)
        (z + live_weight Category.hygiene fs)
unfolding sums live_weight
Capped-sums [] s x y z h = omega arith
Capped-sums (f ∷ fs) s x y z h =
    let ih =
      Capped-sums fs (after f s) (x + share Category.security f) (y + share Category.reliability f)
        (z + share Category.hygiene f) (Capped-after f s x y z h) in
    omega (arith, ih.security_cap, ih.reliability_cap, ih.hygiene_cap)

-- Each axis of the score is the sum of the live weights of its category, whatever their number,
-- cut at 60, 30 and 10, and the total is the sum of the three axes.
pub score_exact :
    (fs : List Finding)
    → ((score fs).security ≡ min (live_weight Category.security fs) 60)
      × ((score fs).reliability ≡ min (live_weight Category.reliability fs) 30)
      × ((score fs).hygiene ≡ min (live_weight Category.hygiene fs) 10)
      × ((score fs).total ≡ (score fs).security + (score fs).reliability + (score fs).hygiene)
unfolding score
score_exact fs =
    let h =
      Capped-sums fs (record { sec = 0; rel = 0; hyg = 0 }) 0 0 0
        (record { security_cap = refl; reliability_cap = refl; hygiene_cap = refl }) in
    omega (arith, h.security_cap, h.reliability_cap, h.hygiene_cap)
