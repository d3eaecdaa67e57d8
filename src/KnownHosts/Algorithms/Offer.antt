-- ===== src/KnownHosts/Algorithms/Offer.antt =====
-- src/known_hosts.rs: which algorithms `pinned_algorithms` offers, and how often.
use owlzops_mapper.Common.{
  Text, Bool, true, false, not, ◌&&◌, ◌||◌, List, [], ◌∷◌, ◌++◌, ◌≡◌, refl, arith, any, filter,
  contains, ◌==◌, Bool-cases, inl, inr, subst, not_true, sym, ◌∙◌,
}
use owlzops_mapper.KnownHosts.Load.{KnownHostEntry}
use owlzops_mapper.KnownHosts.Algorithms.{
  Algorithm, algorithm_eq, algorithms_from_openssh_name, push_new, push_note, pin_entries,
  pinned_algorithms,
}

-- No algorithm stands in the list twice.
abbrev pub IsUnique : List Algorithm → Type 0
IsUnique [] = Unit
IsUnique (a ∷ rest) = (contains rest a ≡ false) × IsUnique rest

-- An entry that is not revoked stands for the algorithm.
abbrev pub offers : Algorithm → KnownHostEntry → Bool
offers alg e = not e.revoked && contains (algorithms_from_openssh_name e.key_type).0 alg

contains-append :
    (xs : List Algorithm) (y a : Algorithm) → contains (xs ++ y ∷ []) a ≡ (contains xs a || y == a)
contains-append [] y a = ground arith
contains-append (x ∷ xs) y a = ground (arith, contains-append xs y a)

push_new-contains :
    (out algs : List Algorithm) (a : Algorithm)
    → contains (push_new out algs) a ≡ (contains out a || contains algs a)
unfolding push_new
push_new-contains out [] a = ground arith
push_new-contains out (alg ∷ algs) a = elim (Bool-cases (contains out alg)) [
  | inl e ↦
      let rest = push_new-contains out algs a in
      elim (Bool-cases (alg == a)) [
        | inl q ↦
            let known : contains out a ≡ true =
              subst (λ x. contains out x ≡ true) ((algorithm_eq.beq_iff alg a).0 q) e in
            ground (arith, e, known, rest)
        | inr q ↦ ground (arith, e, q, rest)
      ]
  | inr e ↦ ground (arith, e, push_new-contains (out ++ alg ∷ []) algs a, contains-append out alg a)
]

IsUnique-append :
    (xs : List Algorithm) (y : Algorithm)
    → contains xs y ≡ false
    → IsUnique xs
    → IsUnique (xs ++ y ∷ [])
IsUnique-append [] y h u = (refl, tt)
IsUnique-append (x ∷ xs) y h u =
    let apart : ¬ ((y == x) ≡ true) =
      λ q. ground (arith, h, (algorithm_eq.beq_iff x y).1 (sym ((algorithm_eq.beq_iff y x).0 q))) in
    (
      ground (arith, u.0, not_true apart, contains-append xs y x),
      IsUnique-append xs y (ground (arith, h)) u.1,
    )

push_new-IsUnique : (out algs : List Algorithm) → IsUnique out → IsUnique (push_new out algs)
unfolding push_new
push_new-IsUnique out [] u = u
push_new-IsUnique out (alg ∷ algs) u = elim (Bool-cases (contains out alg)) [
  | inl e ↦ rw e (push_new-IsUnique out algs u)
  | inr e ↦ rw e (push_new-IsUnique (out ++ alg ∷ []) algs (IsUnique-append out alg e u))
]

pin_entries-contains :
    (host : Text) (es : List KnownHostEntry) (out : List Algorithm) (notes : List Text)
    (a : Algorithm)
    → contains (pin_entries host es out notes).0 a ≡ (
        contains out a
        || any (λ (e : KnownHostEntry). contains (algorithms_from_openssh_name e.key_type).0 a) es)
unfolding pin_entries
pin_entries-contains host [] out notes a = ground arith
pin_entries-contains host (e ∷ es) out notes a =
    let algs = algorithms_from_openssh_name e.key_type in
    ground (
      arith,
      pin_entries-contains host es (push_new out algs.0) (push_note host algs.1 notes) a,
      push_new-contains out algs.0 a,
    )

pin_entries-IsUnique :
    (host : Text) (es : List KnownHostEntry) (out : List Algorithm) (notes : List Text)
    → IsUnique out
    → IsUnique (pin_entries host es out notes).0
unfolding pin_entries
pin_entries-IsUnique host [] out notes u = u
pin_entries-IsUnique host (e ∷ es) out notes u =
    let algs = algorithms_from_openssh_name e.key_type in
    pin_entries-IsUnique host es (push_new out algs.0) (push_note host algs.1 notes)
      (push_new-IsUnique out algs.0 u)

any-filter :
    (p q : KnownHostEntry → Bool) (es : List KnownHostEntry)
    → any p (filter q es) ≡ any (λ e. q e && p e) es
any-filter p q [] = refl
any-filter p q (e ∷ es) = ground (arith, any-filter p q es)

-- The offer holds an algorithm exactly if an entry that is not revoked stands for it, and holds it
-- once.
pub pinned_algorithms-offers :
    (host : Text) (entries : List KnownHostEntry) (notes : List Text)
    → IsUnique (pinned_algorithms host entries notes).0
      × ((a : Algorithm)
          → contains (pinned_algorithms host entries notes).0 a ≡ any (offers a) entries)
unfolding pinned_algorithms
pinned_algorithms-offers host entries notes =
    let current = filter (λ (e : KnownHostEntry). not e.revoked) entries in
    (
      pin_entries-IsUnique host current [] notes tt,
      λ a. pin_entries-contains host current [] notes a ∙ any-filter _ _ entries,
    )
