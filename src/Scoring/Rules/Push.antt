-- ===== src/Scoring/Rules/Push.antt =====
-- src/scoring.rs, `evaluate`: how a rule pushes its finding, and the texts of evidence.
use owlzops_mapper.Common.{
  ℕ, zero, suc, ◌+◌, ◌/◌, ◌%◌, String, Text, Bool, true, false, List, [], ◌∷◌, ◌++◌, Option, ltb,
  none, some, if◌then◌else◌, decimal, max, text_eq, ◌==◌,
}
use owlzops_mapper.Scoring.Finding.{Finding, Category, Scanner}

-- The fields of a finding in the order of the struct.
abbrev pub finding :
    String → Scanner → Text → Category → ℕ → Text → Option Text → Option String → Finding
finding id source title category weight evidence suppressed cis_ref = record {
  id = id;
  source = source;
  title = title;
  category = category;
  weight = weight;
  evidence = evidence;
  suppressed = suppressed;
  cis_ref = cis_ref;
}

-- `if c { findings.push(f) }`
abbrev pub push_if : Bool → Finding → List Finding
push_if c f = if c then f ∷ [] else []

-- `!v.is_empty()`
abbrev pub non_empty {ℓ} : {A : Type ℓ} → List A → Bool
non_empty [] = false
non_empty (x ∷ xs) = true

abbrev pub concat {ℓ} : {A : Type ℓ} → List (List A) → List A
concat [] = []
concat (xs ∷ xss) = xs ++ concat xss

-- "{n}{words}"
abbrev pub counted : ℕ → Text → Text
counted n words = decimal n ++ words

abbrev pub or_else {ℓ} : {A : Type ℓ} → Option A → A → A
or_else none a = a
or_else (some b) a = b

-- `iter().max().unwrap_or(0)`
abbrev pub max_of : List ℕ → ℕ
max_of [] = 0
max_of (n ∷ ns) = max n (max_of ns)

-- "{:o}" of a u32, which has at most eleven octal digits.
octal_digits : ℕ → ℕ → Text → Text
octal_digits zero n behind = behind
octal_digits (suc d) n behind =
    let rest = octal_digits d (n / 8) ((48 + n % 8) ∷ behind) in
    if ltb n 8 then (48 + n % 8) ∷ behind else rest

unfoldable pub octal : ℕ → Text
unfolding octal_digits
octal n = octal_digits 11 n []

-- `Option::is_some_and`
abbrev pub is_some_and {ℓ} : {A : Type ℓ} → (A → Bool) → Option A → Bool
is_some_and p none = false
is_some_and p (some a) = p a

-- A HashMap from texts, as a list of its entries: `entry(key).or_insert(v)`, changed by `f`.
unfoldable pub update_entry {ℓ} :
    {A : Type ℓ} → Text → A → (A → A) → List (Text × A) → List (Text × A)
update_entry key v f [] = (key, f v) ∷ []
update_entry key v f ((k, w) ∷ rest) =
    let changed = update_entry key v f rest in
    if k == key then (k, f w) ∷ rest else (k, w) ∷ changed
