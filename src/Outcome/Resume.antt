-- ===== src/Outcome/Resume.antt =====
-- src/main.rs: `resume_scan`, which reads the records of an interrupted run back into the
-- aggregate, and the lines that the writer of these records makes.
pub mod RoundTrip
use owlzops_mapper.Common.{
  ℕ, ◌+◌, Text, Bool, true, false, ◌&&◌, not, List, [], ◌∷◌, ◌++◌, Option, none, some, ◌==◌,
  text_eq, if◌then◌else◌, length, ltb, as_bytes, ends_with, trim, contains,
}
use owlzops_mapper.Scoring.Finding.{Finding}
use owlzops_mapper.Acceptance.Rules.{Chrono}
use owlzops_mapper.Report.{AgentReport}
use owlzops_mapper.Outcome.{OutcomeBuilder, add}

pub record ResumeState : Type 0 where
  pub done : List Text
  pub needs_newline : Bool

pub data ResumeError : Type 0 where
  cannot_open : ResumeError
  read_error : ℕ → ResumeError
  bad_record : ℕ → ResumeError
  torn_record : ℕ → ℕ → ResumeError
  no_input_address : ℕ → ResumeError

pub data Resumed : Type 0 where
  ok : ResumeState → OutcomeBuilder → Resumed
  err : ResumeError → Resumed

-- `HashSet::insert`
abbrev pub insert_address : List Text → Text → List Text
insert_address done addr = if contains done addr then done else done ++ addr ∷ []

-- The variables of the loop.
pub record Progress : Type 0 where
  pub n : ℕ
  pub offset : ℕ
  pub terminated : Bool
  pub done : List Text
  pub agg : OutcomeBuilder

abbrev pub newline : Text
newline = 10 ∷ []

unfoldable pub step_over : Progress → Text → Progress
step_over p line = record p {
  n = p.n + 1;
  offset = p.offset + length (as_bytes line);
  terminated = ends_with line newline;
}

-- `clock n` is the time when the record of line `n` is added.
module _ {Facts : Type 0} (chrono : Chrono) (evaluate : AgentReport Facts → List Finding)
    (clock : ℕ → ℕ) (from_str : Text → Option (AgentReport Facts)) where
  unfoldable pub credit : Progress → AgentReport Facts → Text → Progress
  credit p report addr = record p {
    done = insert_address p.done addr;
    agg = add chrono evaluate p.agg (clock p.n, report);
  }

  -- One round, on the progress that counts the line already; `start` is where the line begins.
  unfoldable pub resume_line : ℕ → Progress → Text → (Progress → Resumed) → Resumed
  unfolding credit
  resume_line start p line next = elim (trim line) [
    | [] ↦ next p
    | c ∷ rec ↦ elim (from_str (c ∷ rec)) [
      | none ↦ err (if p.terminated then bad_record p.n else torn_record p.n start)
      | some report ↦ elim report.input_address [
        | none ↦ err (no_input_address p.n)
        | some addr ↦ next (credit p report addr)
      ]
    ]
  ]

  unfoldable pub resume_end : Progress → Resumed
  resume_end p =
      ok (record { done = p.done; needs_newline = ltb 0 p.offset && not p.terminated }) p.agg

  -- `read_line` gives a line with its newline, or fails.
  unfoldable pub resume_loop : List (Option Text) → Progress → Resumed
  unfolding resume_line resume_end step_over
  resume_loop [] p = resume_end p
  resume_loop (none ∷ rest) p = err (read_error (p.n + 1))
  resume_loop (some line ∷ rest) p =
      resume_line p.offset (step_over p line) line (λ q. resume_loop rest q)

  unfoldable pub resume_scan : Option (List (Option Text)) → OutcomeBuilder → Resumed
  unfolding resume_loop
  resume_scan none agg = err cannot_open
  resume_scan (some lines) agg =
      resume_loop lines (record { n = 0; offset = 0; terminated = true; done = []; agg = agg })
