-- ===== src/Utils/Sanitize/IsSafe.antt =====
-- src/utils.rs: which characters leave the sanitizers.
use owlzops_mapper.Common.{
  zero, suc, ℕ, ◌≤◌, ◌≡◌, ◌≢◌, refl, [], ◌∷◌, Text, arith, ap, All, All-take, nat_eq, false, length,
  take, map, length-take, ◌∙◌, suc,
}
use owlzops_mapper.Utils.Sanitize.{
  copy, walk, strip_ansi, esc, is_terminal_unsafe, blank, sanitize_for_log,
}

-- A character that does not change how its neighbours are shown.
abbrev pub IsSafe : ℕ → Type 0
IsSafe c = is_terminal_unsafe c ≡ false

blank-IsSafe : (c : ℕ) → IsSafe (blank c)
unfolding blank
blank-IsSafe c = ground arith

map-blank-IsSafe : (s : Text) → All IsSafe (map blank s)
map-blank-IsSafe [] = tt
map-blank-IsSafe (c ∷ s) = (blank-IsSafe c, map-blank-IsSafe s)

-- The text that reaches the log has only safe characters, and at most 300 of them.
pub sanitize_for_log-IsSafe :
    (s : Text) → All IsSafe (sanitize_for_log s) × (length (sanitize_for_log s) ≤ 300)
unfolding sanitize_for_log
sanitize_for_log-IsSafe s = (
  All-take IsSafe 300 _ (map-blank-IsSafe (strip_ansi s)),
  omega (arith, length-take 300 (map blank (strip_ansi s))),
)

IsSafe-ne_esc : (c : ℕ) → IsSafe c → c ≢ esc
unfolding is_terminal_unsafe
IsSafe-ne_esc c h = ground arith

walk-eq_self : (s : Text) → All IsSafe s → walk copy s ≡ s
unfolding walk
walk-eq_self [] h = refl
walk-eq_self (c ∷ s) h = ground (arith, IsSafe-ne_esc c h.0, walk-eq_self s h.1)

map-blank-eq_self : (s : Text) → All IsSafe s → map blank s ≡ s
unfolding blank
map-blank-eq_self [] h = refl
map-blank-eq_self (c ∷ s) h = ground (arith, map-blank-eq_self s h.1)

take-eq_self : (n : ℕ) (s : Text) → length s ≤ n → take n s ≡ s
take-eq_self zero [] h = refl
take-eq_self zero (c ∷ s) h = absurd (omega arith)
take-eq_self (suc n) [] h = refl
take-eq_self (suc n) (c ∷ s) h = ap (λ t. c ∷ t) (take-eq_self n s (omega arith))

-- A safe text of at most 300 characters goes through unchanged.
pub sanitize_for_log-eq_self : (s : Text) → All IsSafe s → length s ≤ 300 → sanitize_for_log s ≡ s
unfolding sanitize_for_log
sanitize_for_log-eq_self s h short =
    ap (λ t. take 300 (map blank t)) (walk-eq_self s h)
    ∙ ap (take 300) (map-blank-eq_self s h)
    ∙ take-eq_self 300 s short
