-- ===== src/Scoring/Finding.antt =====
-- src/scoring.rs: the finding model, `Category`, `Scanner` and `Finding`.
use owlzops_mapper.Common.{
  ℕ, ◌-◌, String, Text, codes, Bool, Option, none, some, List, [], ◌∷◌, ◌++◌, Eq, ◌==◌, text_eq,
  if◌then◌else◌, leb, length, take, decimal, any, false, eq_of_discrete,
}

pub data Category : Type 0 where
  security reliability hygiene : Category

pub data Scanner : Type 0 where
  host network storage security persistence packages databases docker : Scanner
  mount_namespace orchestrator : Scanner

unfoldable pub discrete_scanner : Discrete Scanner
discrete_scanner = hlevel

instance abbrev pub scanner_eq : Eq Scanner
scanner_eq = eq_of_discrete discrete_scanner

pub record Finding : Type 0 where
  pub id : String
  pub source : Scanner
  pub title : Text
  pub category : Category
  pub weight : ℕ
  pub evidence : Text
  pub suppressed : Option Text
  pub cis_ref : Option String

unfoldable pub from_name : Text → Option Scanner
from_name name =
    if name == codes "host"
    then some host
    else if name == codes "network"
    then some network
    else if name == codes "storage"
    then some storage
    else if name == codes "security"
    then some Scanner.security
    else if name == codes "persistence"
    then some persistence
    else if name == codes "packages"
    then some packages
    else if name == codes "databases"
    then some databases
    else if name == codes "docker"
    then some docker
    else if name == codes "mount_namespace"
    then some mount_namespace
    else none

-- The finding comes from a scanner that panicked.
unfoldable pub finding_from_failed_scanner : Finding → List Text → Bool
unfolding from_name
finding_from_failed_scanner f failed =
    any (λ name. elim (from_name name) [ none ↦ false | some s ↦ s == f.source ]) failed

abbrev pub join : List Text → Text → Text
join [] sep = []
join (x ∷ []) sep = x
join (x ∷ y ∷ rest) sep = x ++ (sep ++ join (y ∷ rest) sep)

unfoldable pub evidence_list : List Text → ℕ → Text
evidence_list items limit =
    if leb (length items) limit
    then join items (codes "; ")
    else join (take limit items) (codes "; ")
      ++ (codes "; +" ++ (decimal (length items - limit) ++ codes " more"))
