-- ===== src/Scoring/Score.antt =====
-- src/scoring.rs: `score`, the sum of the live findings by category with saturation and caps.
pub mod Sum
use owlzops_mapper.Common.{ℕ, ◌+◌, min, List, [], ◌∷◌, is_some, if◌then◌else◌}
use owlzops_mapper.Scoring.Finding.{Finding, Category}

-- `u8::saturating_add`
abbrev pub saturating_add : ℕ → ℕ → ℕ
saturating_add a b = min (a + b) 255

pub record Sums : Type 0 where
  pub sec : ℕ
  pub rel : ℕ
  pub hyg : ℕ

pub record ScoredReport : Type 0 where
  pub total : ℕ
  pub security : ℕ
  pub reliability : ℕ
  pub hygiene : ℕ
  pub findings : List Finding

add_weight : Category → ℕ → Sums → Sums
add_weight Category.security w s = record s { sec = saturating_add s.sec w }
add_weight Category.reliability w s = record s { rel = saturating_add s.rel w }
add_weight Category.hygiene w s = record s { hyg = saturating_add s.hyg w }

-- The loop over the findings; a suppressed one is passed over.
sums : Sums → List Finding → Sums
sums s [] = s
sums s (f ∷ fs) = sums (if is_some f.suppressed then s else add_weight f.category f.weight s) fs

unfoldable pub score : List Finding → ScoredReport
unfolding sums add_weight
score findings =
    let s = sums (record { sec = 0; rel = 0; hyg = 0 }) findings in
    record {
      total = min (min s.sec 60 + min s.rel 30 + min s.hyg 10) 100;
      security = min s.sec 60;
      reliability = min s.rel 30;
      hygiene = min s.hyg 10;
      findings = findings;
    }
