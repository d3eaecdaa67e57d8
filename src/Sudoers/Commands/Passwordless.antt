-- ===== src/Sudoers/Commands/Passwordless.antt =====
-- `is_nopasswd_all` against the commands that an entry runs without a password.
use owlzops_mapper.Common.{
  ℕ, Text, Bool, true, false, not, ◌&&◌, List, [], ◌∷◌, ◌++◌, none, some, ◌≡◌, ◌⊎◌, inl, inr, All,
  All-mono, arith, Bool-cases, Option-cases, ap, subst, sym, ◌∙◌,
}
use owlzops_mapper.Sudoers.Aliases.{CmndAliases, resolves_to_all}
use owlzops_mapper.Sudoers.Aliases.Grants.{Grants, Means, resolves_to_all-Means}
use owlzops_mapper.Sudoers.Commands.{
  token_round, list_tokens, is_negated, nopasswd_loop, is_nopasswd_all, entry_has_nopasswd,
}

-- The commands of a list of tokens, each with the password state in force where it stands.
unfoldable pub effective : ℕ → Bool → List Text → List (Text × Bool)
effective paren np [] = []
effective paren np (raw ∷ rest) =
    let (command, paren', np') = token_round paren np raw in
    let next = effective paren' np' rest in elim command [ none ↦ next | some c ↦ (c, np') ∷ next ]

-- A command that is granted without a password: not negated, and behind a NOPASSWD.
abbrev pub is_free : Text × Bool → Bool
is_free g = g.1 && not (is_negated g.0)

module _ (paren : ℕ) (np : Bool) (raw : Text) (rest : List Text) where
  abbrev paren_after : ℕ
  paren_after = (token_round paren np raw).1

  abbrev np_after : Bool
  np_after = (token_round paren np raw).2

  effective-none :
      (token_round paren np raw).0 ≡ none
      → effective paren np (raw ∷ rest) ≡ effective paren_after np_after rest
  unfolding effective
  effective-none e = ground (arith, e)

  effective-some :
      {c : Text}
      → (token_round paren np raw).0 ≡ some c
      → effective paren np (raw ∷ rest) ≡ (c, np_after) ∷ effective paren_after np_after rest
  unfolding effective
  effective-some e = ground (arith, e)

module _ (aliases : CmndAliases) where
  abbrev Found : Text × Bool → Type 0
  Found g = (is_free g ≡ true) × (resolves_to_all aliases g.0 0 ≡ some true)

  -- Notes are only added.
  append-ne-nil : (notes : List Text) (c : Text) → ¬ (notes ++ c ∷ [] ≡ [])
  append-ne-nil [] c h = cc
  append-ne-nil (n ∷ notes) c h = cc

  loop-notes :
      (ts : List Text) (paren : ℕ) (np : Bool) (notes : List Text)
      → (nopasswd_loop aliases paren np ts notes).1 ≡ []
      → notes ≡ []
  unfolding nopasswd_loop
  loop-notes [] paren np notes h = h
  loop-notes (raw ∷ rest) paren np notes h =
      let p' = paren_after paren np raw rest in
      let np' = np_after paren np raw rest in
      elim (Option-cases (token_round paren np raw).0) [
        | inl e ↦ loop-notes rest p' np' notes (ground (arith, e))
        | inr (c, e) ↦ elim (Option-cases (resolves_to_all aliases c 0)) [
          | inr (b, r) ↦ ground (arith, e, r, loop-notes rest p' np' notes)
          | inl r ↦ ground (
            arith,
            e,
            r,
            loop-notes rest p' np' notes,
            loop-notes rest p' np' (notes ++ c ∷ []),
            append-ne-nil notes c,
          )
        ]
      ]

  abbrev Denied : Text × Bool → Type 0
  Denied g = (is_free g ≡ false) ⊎ (resolves_to_all aliases g.0 0 ≡ some false)

  loop-false :
      (ts : List Text) (paren : ℕ) (np : Bool)
      → nopasswd_loop aliases paren np ts [] ≡ (false, [])
      → All Denied (effective paren np ts)
  unfolding nopasswd_loop effective
  loop-false [] paren np h = tt
  loop-false (raw ∷ rest) paren np h =
      let p' = paren_after paren np raw rest in
      let np' = np_after paren np raw rest in
      elim (Option-cases (token_round paren np raw).0) [
        | inl e ↦
            subst (All Denied) (sym (effective-none paren np raw rest e))
              (loop-false rest p' np' (ground (arith, e)))
        | inr (c, e) ↦
            subst (All Denied) (sym (effective-some paren np raw rest e))
              (elim (Bool-cases (is_free (c, np'))) [
                | inr q ↦ (inl q, loop-false rest p' np' (ground (arith, e, q)))
                | inl q ↦ elim (Option-cases (resolves_to_all aliases c 0)) [
                  | inl r ↦ absurd (
                      append-ne-nil [] c
                        (loop-notes rest p' np' (c ∷ []) (ground (arith, e, q, r))))
                  | inr (b, r) ↦ elim (Bool-cases b) [
                    | inl yes_all ↦ absurd (ground (arith, e, q, r, yes_all))
                    | inr not_all ↦ (
                      inr (r ∙ ap some not_all),
                      loop-false rest p' np' (ground (arith, e, q, r, not_all)),
                    )
                  ]
                ]
              ])
      ]

Denied→not-Grants :
    (aliases : CmndAliases) (g : Text × Bool)
    → Denied aliases g
    → (is_free g ≡ false) ⊎ (¬ Grants aliases g.0)
Denied→not-Grants aliases g (inl h) = inl h
Denied→not-Grants aliases g (inr h) =
    inr (subst (Means aliases g.0) h (resolves_to_all-Means aliases g.0))

-- An entry with a NOPASSWD that is reported as harmless, with nothing unknown, grants no command
-- that stands for ALL without a password.
pub is_nopasswd_all_complete :
    (entry : Text) (aliases : CmndAliases) (tokens : List Text)
    → entry_has_nopasswd entry ≡ true
    → list_tokens entry ≡ some tokens
    → is_nopasswd_all aliases entry ≡ (false, [])
    → All (λ g. (is_free g ≡ false) ⊎ (¬ Grants aliases g.0)) (effective 0 false tokens)
unfolding is_nopasswd_all
is_nopasswd_all_complete entry aliases tokens has split h =
    All-mono (effective 0 false tokens) (Denied→not-Grants aliases)
      (loop-false aliases tokens 0 false (ground (arith, has, split, h)))
