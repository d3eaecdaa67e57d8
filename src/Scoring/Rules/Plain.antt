-- ===== src/Scoring/Rules/Plain.antt =====
-- src/scoring.rs, `evaluate`: what every finding of the rules has in common.
pub mod Access
pub mod Later
pub mod Hygiene
pub mod Capabilities
pub mod Kernel
pub mod Files
pub mod Memory
pub mod Listeners
pub mod Sudo
pub mod Sshd
pub mod Processes
pub mod Units
pub mod Ghosts
pub mod Containers
pub mod Reliability
pub mod Pam
pub mod Persistence
use owlzops_mapper.Common.{
  ℕ, ◌≤◌, String, Text, Bool, true, false, not, ◌&&◌, ◌||◌, List, [], ◌∷◌, ◌++◌, Option, none, some,
  ◌≡◌, refl, arith, leb, contains, is_none, string_eq, ◌==◌, if◌then◌else◌, All, All-append, max,
  map, filter,
}
use owlzops_mapper.Scoring.Finding.{Finding, Category, Scanner}
use owlzops_mapper.Scoring.Verdict.{compromise_ids}
use owlzops_mapper.Scoring.Rules.Push.{push_if, concat, max_of}

abbrev pub is_security : Category → Bool
is_security Category.security = true
is_security Category.reliability = false
is_security Category.hygiene = false

-- At most 60 points; with a compromise id at least 55 of the security axis, and not suppressed.
unfoldable pub is_proper : Finding → Bool
unfolding compromise_ids
is_proper f =
    leb f.weight 60
    && not (f.id == "COV-001")
    && (not (contains compromise_ids f.id)
        || leb 55 f.weight && is_none f.suppressed && is_security f.category)

-- The ids of the passwordless-root class.
abbrev pub class_ids : List String
class_ids = "SEC-005" ∷ "SEC-012" ∷ "SEC-061" ∷ []

unfoldable pub is_plain : Finding → Bool
unfolding is_proper
is_plain f = is_proper f && not (contains class_ids f.id)

abbrev pub AllPlain : List Finding → Type 0
AllPlain = All (λ f. is_plain f ≡ true)

abbrev pub AllProper : List Finding → Type 0
AllProper = All (λ f. is_proper f ≡ true)

pub push_if-All : (P : Finding → Type 0) (c : Bool) (f : Finding) → P f → All P (push_if c f)
push_if-All P true f h = (h, tt)
push_if-All P false f h = tt

pub push_if-AllPlain : (c : Bool) (f : Finding) → is_plain f ≡ true → AllPlain (push_if c f)
push_if-AllPlain c f h = push_if-All (λ g. is_plain g ≡ true) c f h

pub append-AllPlain : (us vs : List Finding) → AllPlain us → AllPlain vs → AllPlain (us ++ vs)
append-AllPlain us vs = All-append (λ f. is_plain f ≡ true) us vs

pub max_of-le :
    {A : Type 0} (g : A → ℕ) (n : ℕ) (xs : List A) → ((x : A) → g x ≤ n) → max_of (map g xs) ≤ n
max_of-le g n [] h = omega arith
max_of-le g n (x ∷ xs) h = omega (arith, h x, max_of-le g n xs h)

pub if-is_plain :
    (c : Bool) (f g : Finding)
    → is_plain f ≡ true
    → is_plain g ≡ true
    → is_plain (if c then f else g) ≡ true
if-is_plain true f g h k = h
if-is_plain false f g h k = k

pub ruleset plain = (append-AllPlain, push_if-AllPlain)
