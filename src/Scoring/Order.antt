-- ===== src/Scoring/Order.antt =====
-- src/scoring.rs: the score and the verdict against the order in which the findings arrive.
use owlzops_mapper.Common.{List, string_eq}
use owlzops_mapper.Scoring.Finding.{Finding}
