-- ===== src/Outcome/Resume/RoundTrip.antt =====
-- src/main.rs: what `resume_scan` makes of a file that the writer left, whole or torn.
use owlzops_mapper.Common.{
  ends_with-append, append-nil, ap, ◌∙◌, sym, ap₂, ℕ, ◌+◌, Text, true, false, List, [], ◌∷◌, ◌++◌,
  Option, none, some, ◌≡◌, refl, arith, map, length, as_bytes, trim, All, ends_with,
}
use owlzops_mapper.Scoring.Finding.{Finding}
use owlzops_mapper.Acceptance.Rules.{Chrono}
use owlzops_mapper.Report.{AgentReport}
use owlzops_mapper.Outcome.{OutcomeBuilder, add_all}
use owlzops_mapper.Outcome.Resume.{
  Progress, Resumed, ok, err, torn_record, insert_address, newline, step_over, credit, resume_line,
  resume_loop, resume_end, resume_scan,
}

module _ {Facts : Type 0} (chrono : Chrono) (evaluate : AgentReport Facts → List Finding)
    (clock : ℕ → ℕ) (from_str : Text → Option (AgentReport Facts))
    (to_string : AgentReport Facts → Text) where
  -- The line of one record, as the writer makes it.
  abbrev pub record_line : Text × AgentReport Facts → Text
  record_line (addr, r) = to_string r ++ newline

  -- serde_json reads back what it wrote, which has no space around it and is not empty; and the
  -- report carries the address that the host was asked by.
  pub record IsWritten (w : Text × AgentReport Facts) : Type 0 where
    pub addressed : w.1.input_address ≡ some w.0
    pub first : ℕ
    pub rest : Text
    pub trimmed : trim (record_line w) ≡ first ∷ rest
    pub readable : from_str (first ∷ rest) ≡ some w.1

  -- What the loop has done behind some records.
  pub after : List (Text × AgentReport Facts) → Progress → Progress
  after [] p = p
  after (w ∷ ws) p =
      after ws (credit chrono evaluate clock from_str (step_over p (record_line w)) w.1 w.0)

  resume_line-credit :
      (begin_at : ℕ) (p : Progress) (line : Text) (next : Progress → Resumed) (c : ℕ) (rec : Text)
      (report : AgentReport Facts) (addr : Text)
      → trim line ≡ c ∷ rec
      → from_str (c ∷ rec) ≡ some report
      → report.input_address ≡ some addr
      → resume_line chrono evaluate clock from_str begin_at p line next
        ≡ next (credit chrono evaluate clock from_str p report addr)
  unfolding resume_line
  resume_line-credit begin_at p line next c rec report addr t r a = ground (arith, t, r, a)

  resume_line-refuse :
      (begin_at : ℕ) (p : Progress) (line : Text) (next : Progress → Resumed) (c : ℕ) (rec : Text)
      → trim line ≡ c ∷ rec
      → from_str (c ∷ rec) ≡ none
      → p.terminated ≡ false
      → resume_line chrono evaluate clock from_str begin_at p line next
        ≡ err (torn_record p.n begin_at)
  unfolding resume_line
  resume_line-refuse begin_at p line next c rec t r a = ground (arith, t, r, a)

  resume_loop-written :
      (ws : List (Text × AgentReport Facts)) (more : List (Option Text)) (p : Progress)
      → All IsWritten ws
      → resume_loop chrono evaluate clock from_str (map (λ w. some (record_line w)) ws ++ more) p
        ≡ resume_loop chrono evaluate clock from_str more (after ws p)
  unfolding resume_loop after
  resume_loop-written [] more p h = refl
  resume_loop-written (w ∷ ws) more p h =
      resume_line-credit p.offset (step_over p (record_line w)) (record_line w)
        (λ q.
          resume_loop chrono evaluate clock from_str (map (λ w. some (record_line w)) ws ++ more) q)
        h.0.first h.0.rest w.1 w.0 h.0.trimmed h.0.readable h.0.addressed
      ∙ resume_loop-written ws more
          (credit chrono evaluate clock from_str (step_over p (record_line w)) w.1 w.0) h.1

  -- The reports with the times at which they are added, the first one as line `n + 1`.
  abbrev pub stamped : ℕ → List (Text × AgentReport Facts) → List (ℕ × AgentReport Facts)
  stamped n [] = []
  stamped n ((addr, r) ∷ ws) = (clock (n + 1), r) ∷ stamped (n + 1) ws

  abbrev pub credited : List Text → List (Text × AgentReport Facts) → List Text
  credited done [] = done
  credited done ((addr, r) ∷ ws) = credited (insert_address done addr) ws

  abbrev pub bytes : List (Text × AgentReport Facts) → ℕ
  bytes [] = 0
  bytes (w ∷ ws) = length (as_bytes (record_line w)) + bytes ws

  after-agg :
      (ws : List (Text × AgentReport Facts)) (p : Progress)
      → (after ws p).agg ≡ add_all chrono evaluate p.agg (stamped p.n ws)
  unfolding after credit step_over add_all
  after-agg [] p = refl
  after-agg (w ∷ ws) p =
      after-agg ws (credit chrono evaluate clock from_str (step_over p (record_line w)) w.1 w.0)

  after-done :
      (ws : List (Text × AgentReport Facts)) (p : Progress) → (after ws p).done ≡ credited p.done ws
  unfolding after credit step_over
  after-done [] p = refl
  after-done (w ∷ ws) p =
      after-done ws (credit chrono evaluate clock from_str (step_over p (record_line w)) w.1 w.0)

  after-n :
      (ws : List (Text × AgentReport Facts)) (p : Progress)
      → ((after ws p).n ≡ p.n + length ws) × ((after ws p).offset ≡ p.offset + bytes ws)
  unfolding after credit step_over
  after-n [] p = (omega arith, omega arith)
  after-n (w ∷ ws) p =
      let ih =
        after-n ws (credit chrono evaluate clock from_str (step_over p (record_line w)) w.1 w.0) in
      (omega (arith, ih), omega (arith, ih))

  after-terminated :
      (ws : List (Text × AgentReport Facts)) (p : Progress)
      → p.terminated ≡ true
      → (after ws p).terminated ≡ true
  unfolding after credit step_over
  after-terminated [] p h = h
  after-terminated (w ∷ ws) p h =
      after-terminated ws
        (credit chrono evaluate clock from_str (step_over p (record_line w)) w.1 w.0)
        (ends_with-append (to_string w.1) newline)

  resume_end-terminated :
      (p : Progress)
      → p.terminated ≡ true
      → resume_end chrono evaluate clock from_str p
        ≡ ok (record { done = p.done; needs_newline = false }) p.agg
  unfolding resume_end
  resume_end-terminated p h =
      ap (λ b. ok (record { done = p.done; needs_newline = b }) p.agg) (ground arith)

  abbrev begin : OutcomeBuilder → Progress
  begin agg = record { n = 0; offset = 0; terminated = true; done = []; agg = agg }

  -- Where the file holds the lines of some reports, and serde_json reads back what it wrote, the
  -- resumed run has the aggregate to which these reports were added in their order, and the
  -- addresses that they carry; nothing has to be added to the file's end.
  pub resume_scan-written :
      (ws : List (Text × AgentReport Facts)) (agg : OutcomeBuilder)
      → All IsWritten ws
      → resume_scan chrono evaluate clock from_str (some (map (λ w. some (record_line w)) ws)) agg
        ≡ ok
            (record { done = credited [] ws; needs_newline = false })
            (add_all chrono evaluate agg (stamped 0 ws))
  unfolding resume_scan resume_loop
  resume_scan-written ws agg h =
      let lines = map (λ w. some (record_line w)) ws in
      let last = after ws (begin agg) in
      ap (λ ls. resume_loop chrono evaluate clock from_str ls (begin agg)) (sym (append-nil lines))
      ∙ (resume_loop-written ws [] (begin agg) h
          ∙ (resume_end-terminated last (after-terminated ws (begin agg) refl)
              ∙ ap₂ (λ d a. ok (record { done = d; needs_newline = false }) a)
                  (after-done ws (begin agg)) (after-agg ws (begin agg))))

  -- Behind such lines, a last one that the previous run did not finish, and that cannot be read, is
  -- refused with its number and with the byte where it begins.
  pub resume_scan-torn :
      (ws : List (Text × AgentReport Facts)) (tail : Text) (c : ℕ) (rec : Text)
      (agg : OutcomeBuilder)
      → All IsWritten ws
      → trim tail ≡ c ∷ rec
      → from_str (c ∷ rec) ≡ none
      → ends_with tail newline ≡ false
      → resume_scan chrono evaluate clock from_str
          (some (map (λ w. some (record_line w)) ws ++ some tail ∷ []))
          agg
        ≡ err (torn_record (length ws + 1) (bytes ws))
  unfolding resume_scan resume_loop step_over
  resume_scan-torn ws tail c rec agg h t n e =
      let last = after ws (begin agg) in
      let counts = after-n ws (begin agg) in
      resume_loop-written ws (some tail ∷ []) (begin agg) h
      ∙ (resume_line-refuse last.offset (step_over last tail) tail
            (λ q. resume_loop chrono evaluate clock from_str [] q) c rec t n e
          ∙ ap₂ (λ k at. err (torn_record k at)) (omega (arith, counts.0))
              (omega (arith, counts.1)))
