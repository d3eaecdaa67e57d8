-- ===== src/Common/Lists.antt =====
-- Lists measured by native numbers, and the searches that the program makes by `iter()`.
use Prim.Native.Nat.{ℕ, zero, suc, ◌+◌, ◌-◌, min}
use mathlib.Core.Path.{◌≡◌, refl}
use mathlib.Core.Logic.{◌↔◌, ◌⊎◌, inl, inr}
use mathlib.Core.Bool.{Bool, true, false, ◌&&◌, ◌||◌}
use mathlib.Core.Option.{Option, none, some}
use mathlib.Core.List.{List, [], ◌∷◌, ◌++◌}
use native.Mathlib.Omega.{arith}
use owlzops_mapper.Common.Tests.{Eq, ◌==◌, if◌then◌else◌, Bool-cases}

module _ {ℓ} {A : Type ℓ} where
  abbrev pub length : List A → ℕ
  length [] = 0
  length (x ∷ xs) = suc (length xs)

  abbrev pub take : ℕ → List A → List A
  take zero xs = []
  take (suc n) [] = []
  take (suc n) (x ∷ xs) = x ∷ take n xs

  abbrev pub drop : ℕ → List A → List A
  drop zero xs = xs
  drop (suc n) [] = []
  drop (suc n) (x ∷ xs) = drop n xs

  abbrev pub get_elem? : List A → ℕ → Option A
  get_elem? [] i = none
  get_elem? (x ∷ xs) zero = some x
  get_elem? (x ∷ xs) (suc i) = get_elem? xs i

  -- `iter().any(p)`, `iter().all(p)`, `iter().filter(p)` and `iter().find(p)`
  abbrev pub any : (A → Bool) → List A → Bool
  any p [] = false
  any p (x ∷ xs) = p x || any p xs

  abbrev pub all : (A → Bool) → List A → Bool
  all p [] = true
  all p (x ∷ xs) = p x && all p xs

  abbrev pub filter : (A → Bool) → List A → List A
  filter p [] = []
  filter p (x ∷ xs) = if p x then x ∷ filter p xs else filter p xs

  abbrev pub find : (A → Bool) → List A → Option A
  find p [] = none
  find p (x ∷ xs) = if p x then some x else find p xs

  -- One element, or every element, has the property.
  abbrev pub Any : (A → Type 0) → List A → Type 0
  Any P [] = ⊥
  Any P (x ∷ xs) = P x ⊎ Any P xs

  abbrev pub All : (A → Type 0) → List A → Type 0
  All P [] = Unit
  All P (x ∷ xs) = P x × All P xs

  abbrev pub contains : ⦃e : Eq A⦄ → List A → A → Bool
  contains [] a = false
  contains (x ∷ xs) a = x == a || contains xs a

module _ {ℓ} {A : Type ℓ} where
  pub any→Any : (p : A → Bool) (xs : List A) → any p xs ≡ true → Any (λ x. p x ≡ true) xs
  any→Any p [] h = cc
  any→Any p (x ∷ xs) h = elim (Bool-cases (p x)) [
    | inl e ↦ inl e
    | inr e ↦ inr (any→Any p xs (rw e at h))
  ]

  pub Any→any : (p : A → Bool) (xs : List A) → Any (λ x. p x ≡ true) xs → any p xs ≡ true
  Any→any p [] h = absurd h
  Any→any p (x ∷ xs) (inl e) = rw e
  Any→any p (x ∷ xs) (inr r) = ground (arith, Any→any p xs r)

  pub any_iff : (p : A → Bool) (xs : List A) → (any p xs ≡ true) ↔ Any (λ x. p x ≡ true) xs
  any_iff p xs = (any→Any p xs, Any→any p xs)

  pub all→All : (p : A → Bool) (xs : List A) → all p xs ≡ true → All (λ x. p x ≡ true) xs
  all→All p [] h = tt
  all→All p (x ∷ xs) h = ground (arith, all→All p xs)

  pub All→all : (p : A → Bool) (xs : List A) → All (λ x. p x ≡ true) xs → all p xs ≡ true
  All→all p [] h = refl
  All→all p (x ∷ xs) h = ground (arith, All→all p xs)

  pub all_iff : (p : A → Bool) (xs : List A) → (all p xs ≡ true) ↔ All (λ x. p x ≡ true) xs
  all_iff p xs = (all→All p xs, All→all p xs)

  pub All-mono : {P Q : A → Type 0} (xs : List A) → ((x : A) → P x → Q x) → All P xs → All Q xs
  All-mono [] f h = tt
  All-mono (x ∷ xs) f h = (f x h.0, All-mono xs f h.1)

  pub Any-mono : {P Q : A → Type 0} (xs : List A) → ((x : A) → P x → Q x) → Any P xs → Any Q xs
  Any-mono [] f h = absurd h
  Any-mono (x ∷ xs) f (inl h) = inl (f x h)
  Any-mono (x ∷ xs) f (inr h) = inr (Any-mono xs f h)

  pub find-some : (p : A → Bool) (xs : List A) {a : A} → find p xs ≡ some a → p a ≡ true
  find-some p [] h = absurd (cc)
  find-some p (x ∷ xs) {a} h = elim (Bool-cases (p x)) [
    | inl e ↦ let q : some x ≡ some a = rw e at h in let q' : x ≡ a = cc in rw (← q') e
    | inr e ↦ find-some p xs {a = a} (rw e at h)
  ]

  pub All-find :
      (P : A → Type 0) (p : A → Bool) (xs : List A) {a : A} → All P xs → find p xs ≡ some a → P a
  All-find P p [] h e = absurd (cc)
  All-find P p (x ∷ xs) {a} h q = elim (Bool-cases (p x)) [
    | inl e ↦ let q1 : some x ≡ some a = rw e at q in let q' : x ≡ a = cc in rw (← q') h.0
    | inr e ↦ All-find P p xs {a = a} h.1 (rw e at q)
  ]

  pub find-none : (p : A → Bool) (xs : List A) → find p xs ≡ none → All (λ x. p x ≡ false) xs
  find-none p [] h = tt
  find-none p (x ∷ xs) h = ground (arith, find-none p xs)

  pub length-append : (xs ys : List A) → length (xs ++ ys) ≡ length xs + length ys
  length-append [] ys = omega arith
  length-append (x ∷ xs) ys = omega (arith, length-append xs ys)

  pub length-take : (n : ℕ) (xs : List A) → length (take n xs) ≡ min n (length xs)
  length-take zero xs = omega arith
  length-take (suc n) [] = omega arith
  length-take (suc n) (x ∷ xs) = omega (arith, length-take n xs)

  pub All-take : (P : A → Type 0) (n : ℕ) (xs : List A) → All P xs → All P (take n xs)
  All-take P zero xs h = tt
  All-take P (suc n) [] h = tt
  All-take P (suc n) (x ∷ xs) h = (h.0, All-take P n xs h.1)

  pub All-append : (P : A → Type 0) (us vs : List A) → All P us → All P vs → All P (us ++ vs)
  All-append P [] vs left right = right
  All-append P (u ∷ us) vs left right = (left.0, All-append P us vs left.1 right)

  pub All-append_inv : (P : A → Type 0) (us vs : List A) → All P (us ++ vs) → All P us × All P vs
  All-append_inv P [] vs h = (tt, h)
  All-append_inv P (u ∷ us) vs h = let rest = All-append_inv P us vs h.1 in ((h.0, rest.0), rest.1)

  -- What an index into a list says of the rest from there.
  pub drop-none : (xs : List A) (i : ℕ) → get_elem? xs i ≡ none → drop i xs ≡ []
  drop-none [] zero h = refl
  drop-none [] (suc i) h = refl
  drop-none (x ∷ xs) zero h = absurd (cc)
  drop-none (x ∷ xs) (suc i) h = drop-none xs i h

  pub drop-some :
      (xs : List A) (i : ℕ) (a : A) → get_elem? xs i ≡ some a → drop i xs ≡ a ∷ drop (suc i) xs
  drop-some [] i a h = absurd (cc)
  drop-some (x ∷ xs) zero a h = ground arith
  drop-some (x ∷ xs) (suc i) a h = drop-some xs i a h

  pub length-drop : (n : ℕ) (xs : List A) → length (drop n xs) ≡ length xs - n
  length-drop zero xs = omega arith
  length-drop (suc n) [] = omega arith
  length-drop (suc n) (x ∷ xs) = omega (arith, length-drop n xs)

  pub append-eq-nil : (xs ys : List A) → xs ++ ys ≡ [] → (xs ≡ []) × (ys ≡ [])
  append-eq-nil [] ys h = (refl, h)
  append-eq-nil (x ∷ xs) ys h = absurd (cc)
