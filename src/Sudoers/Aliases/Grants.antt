-- ===== src/Sudoers/Aliases/Grants.antt =====
-- `resolves_to_all` against what it means that an alias stands for ALL.
use owlzops_mapper.Common.{
  ℕ, zero, suc, Text, Bool, true, false, List, [], ◌∷◌, ◌++◌, Option, none, some, ◌==◌, text_eq,
  text_beq_iff, ◌≡◌, ◌≢◌, refl, arith, Bool-cases, Option-cases, inl, inr, ap, sym, ◌∙◌, subst,
}
use owlzops_mapper.Sudoers.Aliases.{
  CmndAliases, get, all_token, any_member, resolve, resolves_to_all, max_alias_depth,
}

module _ (aliases : CmndAliases) where
  -- A token stands for ALL: it is ALL, or an alias with a member that does, however deep.
  pub data Grants : Text → Type 0 where
    all : {t : Text} → t ≡ all_token → Grants t
    member :
        {t m : Text} (xs ys : List Text) → get aliases t ≡ some (xs ++ m ∷ ys) → Grants m → Grants t

  -- A chain of `n` aliases, each a member of the one before.
  pub data Chain : ℕ → Text → Type 0 where
    start : {t : Text} → Chain zero t
    link :
        {n : ℕ} {t m : Text} (xs ys : List Text)
        → get aliases t ≡ some (xs ++ m ∷ ys)
        → Chain n m
        → Chain (suc n) t

module _ (r : Text → Option Bool) where
  any_member-true :
      (ms : List Text) (cut : Bool)
      → any_member r ms cut ≡ some true
      → (xs : List Text) × (m : Text) × (ys : List Text) × (ms ≡ xs ++ m ∷ ys) × (r m ≡ some true)
  unfolding any_member
  any_member-true [] cut h = absurd (ground arith)
  any_member-true (m ∷ ms) cut h = elim (Option-cases (r m)) [
    | inl e ↦
        let (xs, x, ys, split, found) = any_member-true ms true (ground (arith, e)) in
        (m ∷ xs, x, ys, ap (λ t. m ∷ t) split, found)
    | inr (b, e) ↦ elim (Bool-cases b) [
      | inl q ↦ ([], m, ms, refl, e ∙ ap some q)
      | inr q ↦
          let (xs, x, ys, split, found) = any_member-true ms cut (ground (arith, e, q)) in
          (m ∷ xs, x, ys, ap (λ t. m ∷ t) split, found)
    ]
  ]

  -- Once the loop has seen an unknown member, it does not answer no.
  any_member-cut : (ms : List Text) → any_member r ms true ≢ some false
  unfolding any_member
  any_member-cut [] = ground arith
  any_member-cut (m ∷ ms) = ground (arith, any_member-cut ms)

  any_member-false :
      (xs : List Text) (m : Text) (ys : List Text)
      → any_member r (xs ++ m ∷ ys) false ≡ some false
      → r m ≡ some false
  unfolding any_member
  any_member-false [] m ys h = ground (arith, any_member-cut ys)
  any_member-false (x ∷ xs) m ys h =
      ground (arith, any_member-cut (xs ++ m ∷ ys), any_member-false xs m ys)

  -- An unknown answer has an unknown member behind it.
  any_member-none :
      (ms : List Text)
      → any_member r ms false ≡ none
      → (xs : List Text) × (m : Text) × (ys : List Text) × (ms ≡ xs ++ m ∷ ys) × (r m ≡ none)
  unfolding any_member
  any_member-none [] h = absurd (ground arith)
  any_member-none (m ∷ ms) h = elim (Option-cases (r m)) [
    | inl e ↦ ([], m, ms, refl, e)
    | inr (b, e) ↦
        let (xs, x, ys, split, unknown) = any_member-none ms (ground (arith, e)) in
        (m ∷ xs, x, ys, ap (λ t. m ∷ t) split, unknown)
  ]

module _ (aliases : CmndAliases) where
  resolve-true : (n : ℕ) (t : Text) → resolve aliases n t ≡ some true → Grants aliases t
  unfolding resolve
  resolve-true zero t h = all ((text_beq_iff t all_token).0 (ground arith))
  resolve-true (suc n) t h = elim (Bool-cases (t == all_token)) [
    | inl e ↦ all ((text_beq_iff t all_token).0 e)
    | inr e ↦ elim (Option-cases (get aliases t)) [
      | inl q ↦ absurd (ground (arith, e, q))
      | inr (ms, q) ↦
          let (xs, m, ys, split, found) =
            any_member-true (resolve aliases n) ms false (ground (arith, e, q)) in
          member xs ys (q ∙ ap some split) (resolve-true n m found)
    ]
  ]

  resolve-false : (n : ℕ) {t : Text} → resolve aliases n t ≡ some false → ¬ Grants aliases t
  unfolding resolve
  resolve-false zero h g = absurd (ground arith)
  resolve-false (suc n) {t} h (all e) = absurd (ground (arith, (text_beq_iff t all_token).1 e))
  resolve-false (suc n) {t} h (member {m = m} xs ys e g) =
      resolve-false n {t = m} (any_member-false (resolve aliases n) xs m ys (ground (arith, e))) g

  resolve-none : (n : ℕ) (t : Text) → resolve aliases n t ≡ none → Chain aliases n t
  unfolding resolve
  resolve-none zero t h = start
  resolve-none (suc n) t h = elim (Option-cases (get aliases t)) [
    | inl q ↦ absurd (ground (arith, q))
    | inr (ms, q) ↦
        let (xs, m, ys, split, unknown) =
          any_member-none (resolve aliases n) ms (ground (arith, q)) in
        link xs ys (q ∙ ap some split) (resolve-none n m unknown)
  ]

-- What an answer of `resolves_to_all` says of the token.
abbrev pub Means : CmndAliases → Text → Option Bool → Type 0
Means aliases token (some true) = Grants aliases token
Means aliases token (some false) = ¬ Grants aliases token
Means aliases token none = Chain aliases max_alias_depth token

-- `resolves_to_all` answers yes only for a token that stands for ALL, no only for one that does not,
-- and "unknown" only in front of a chain of sixteen aliases.
pub resolves_to_all-Means :
    (aliases : CmndAliases) (token : Text) → Means aliases token (resolves_to_all aliases token 0)
unfolding resolves_to_all
resolves_to_all-Means aliases token = elim (Option-cases (resolve aliases max_alias_depth token)) [
  | inl e ↦ subst (Means aliases token) (sym e) (resolve-none aliases max_alias_depth token e)
  | inr (true, e) ↦
      subst (Means aliases token) (sym e) (resolve-true aliases max_alias_depth token e)
  | inr (false, e) ↦ subst (Means aliases token) (sym e) (resolve-false aliases max_alias_depth e)
]
