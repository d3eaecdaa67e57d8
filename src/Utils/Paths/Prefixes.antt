-- ===== src/Utils/Paths/Prefixes.antt =====
-- Which of the prefixes of src/utils.rs exclude each other, and what follows for its predicates.
use owlzops_mapper.Common.{
  starts_with-append, Text, codes, Bool, true, false, ◌||◌, List, [], ◌∷◌, ◌++◌, ◌≡◌, refl, arith,
  inl, inr, any, starts_with, strip_prefix, Bool-cases, nat_eq, if◌then◌else◌,
}
use owlzops_mapper.Utils.Paths.{
  starts_with_any, volatile_prefixes, home_bases, is_volatile_exec_path, is_ephemeral_exec_path,
  merged, canon_path,
}

-- Two prefixes of one text: one of them is a prefix of the other.
abbrev pub comparable : Text → Text → Bool
comparable p q = starts_with p q || starts_with q p

pub starts_with-comparable :
    (s p q : Text) → starts_with s p ≡ true → starts_with s q ≡ true → comparable p q ≡ true
unfolding starts_with strip_prefix
starts_with-comparable s [] q hp hq = ground arith
starts_with-comparable s (b ∷ p) [] hp hq = refl
starts_with-comparable [] (b ∷ p) (c ∷ q) hp hq = absurd (cc)
starts_with-comparable (a ∷ s) (b ∷ p) (c ∷ q) hp hq = ground (arith, starts_with-comparable s p q)

comparable-any :
    (s p : Text) (qs : List Text)
    → starts_with s p ≡ true
    → starts_with_any qs s ≡ true
    → any (comparable p) qs ≡ true
unfolding starts_with_any
comparable-any s p [] hp hq = hq
comparable-any s p (q ∷ qs) hp hq =
    ground (arith, starts_with-comparable s p q, comparable-any s p qs)

-- A text that begins with a prefix of one list begins with none of another that is incomparable.
pub disjoint :
    (s : Text) (ps qs : List Text)
    → any (λ p. any (comparable p) qs) ps ≡ false
    → starts_with_any ps s ≡ true
    → starts_with_any qs s ≡ false
unfolding starts_with_any
disjoint s [] qs h hp = absurd (ground arith)
disjoint s (p ∷ ps) qs h hp = ground (arith, comparable-any s p qs, disjoint s ps qs)

also_home :
    (w a b c d e h : Bool)
    → (if w then false else a || (b || (c || (d || (e || false))))) ≡ true
    → (if w then false else a || b || c || d || h || e) ≡ true
also_home w a b c d e h p = ground arith

-- What is volatile is ephemeral.
pub volatile→ephemeral :
    (s : Text) → is_volatile_exec_path s ≡ true → is_ephemeral_exec_path s ≡ true
unfolding is_volatile_exec_path is_ephemeral_exec_path volatile_prefixes
volatile→ephemeral s h =
    also_home (starts_with s (codes "/run/wrappers/")) (starts_with s (codes "/tmp/"))
      (starts_with s (codes "/var/tmp/")) (starts_with s (codes "/dev/shm/"))
      (starts_with s (codes "/run/")) (starts_with s (codes "/memfd:"))
      (starts_with_any home_bases s) h

usr : List Text
usr = codes "/usr" ∷ []

usr_disjoint : any (λ p. any (comparable p) merged) (codes "/usr" ∷ []) ≡ false
unfolding merged starts_with strip_prefix
usr_disjoint = refl

-- The canonical path of a canonical path is that path.
pub canon_path_idem : (path : Text) → canon_path (canon_path path) ≡ canon_path path
unfolding canon_path
canon_path_idem path = elim (Bool-cases (starts_with_any merged path)) [
  | inl e ↦
      let fresh : starts_with_any merged (codes "/usr" ++ path) ≡ false =
        disjoint (codes "/usr" ++ path) (codes "/usr" ∷ []) merged usr_disjoint
          (unfold starts_with_any in ground (arith, starts_with-append (codes "/usr") path)) in
      ground (arith, e, fresh)
  | inr e ↦ ground (arith, e)
]
