-- ===== src/Lib.antt =====
-- A verification library of owlzops-mapper, an agentless auditor of Linux hosts.
--
-- The program scans a host (src/scanners/), or reaches one over SSH (src/ssh_engine.rs,
-- src/known_hosts.rs), turns the report of the scanners into findings with weights
-- (src/scoring.rs), lets an operator accept some of them by a policy file (src/acceptance.rs),
-- and gives a score, a security verdict and an exit code. What comes from the scanned host is
-- text of an adversary: it is sanitized (src/utils.rs) before it reaches a terminal, a log or a
-- document.
--
-- The files here, and the code each is about:
--   Common, Common/Tests, Common/Lists, Common/Strings: shared names; Boolean tests on numbers,
--     lists of code points as texts, and the methods of Rust's str that the code calls.
--   Scoring/Finding, Scoring/Score, Scoring/Verdict: src/scoring.rs, the record of a finding,
--     `score` with its saturating u8 sums, `CriticalFlags`, `security_verdict_from_findings`;
--     Scoring/Order is about the order of the findings.
--   Acceptance/Glob, Acceptance/Rules, Acceptance/Apply: src/acceptance.rs, `glob_match`,
--     `Acceptances::load` with its checks in their order, `Acceptances::apply` and
--     `accepted_count`. The findings that `apply` mutates in place are returned.
--   Utils/Sanitize: src/utils.rs, `strip_ansi` as a scan with four states, `is_terminal_unsafe`
--     and the sanitizers.
--   Utils/Paths, Utils/Provenance: src/utils.rs, the predicates on paths and addresses,
--     `canon_path`, `exe_provenance` and `classify_listeners`; what these ask of the host is the
--     record `Host`.
--   Scoring/Classify: src/scoring.rs, the weights of set-uid files, of files with capabilities,
--     of ambient capabilities and of core dump handlers.
--   Report: src/models.rs, the records of a report with the fields that src/scoring.rs and
--     src/main.rs read; its children are about processes, the kernel, files and access.
--   Scoring/Rules: src/scoring.rs, `evaluate`. Each child holds the rules of one subject, each rule
--     a function from the facts of a report to the findings it pushes; Scoring/Rules lists them in
--     the order of the code. Scoring/Rules/Plain and its children go through the rules one by
--     one; Scoring/Rules/Weights, Scoring/Rules/Class and Scoring/Rules/Failed are about all.
--   VerdictCache: src/verdict_cache.rs, lookup, record and flush of the cache of verdicts; a
--     file's metadata and the clock are arguments.
--   Coverage: src/coverage.rs, `record` with its cap and `drain_scoped`; the sink behind the lock
--     is a list that is passed along.
--   KnownHosts/Glob, KnownHosts/Load, KnownHosts/Algorithms, KnownHosts/Verify:
--     src/known_hosts.rs, the host patterns, the lines of a trust store, the algorithms offered,
--     and `verify`. `decide_key` is the decision of `verify` before the pin file is written;
--     `verify` is given what the write did.
--   Sudoers/Lines, Sudoers/Aliases, Sudoers/Commands: src/scanners/sudoers.rs, comments and
--     continued lines, command aliases, tags, and the test for passwordless ALL. The coverage
--     notes of `is_nopasswd_all` are returned beside its answer.
--   Sudoers/Walk: src/scanners/sudoers.rs, the walk over the sudoers files and what they include,
--     with its limits of depth and of files; Sudoers/Walk/Rounds is its rule of induction,
--     Sudoers/Walk/Once and Sudoers/Walk/Gaps are about the files it reads.
--   Outcome, Outcome/Resume: src/main.rs, the aggregate of a fleet, its exit code, and
--     `resume_scan`, which reads the records of an interrupted run; Outcome/ExitCode,
--     Outcome/Clean and Outcome/Order are about the code and the order of the reports.
--   Examples: tests at concrete inputs.
--
-- How the code is carried over. A text is the list of its code points, and `as_bytes` gives its
-- UTF-8 bytes where the code works on bytes. A string constant that is only compared is a
-- String. Parameters of the model are the calendar (`Chrono`, the crate chrono), the JSON reader
-- and the file read in `load`, base64 and HMAC (`Crypto`), the clock, file metadata, the
-- file system of the sudoers walk, and in `evaluate` the host (`Host`), `Path::file_name` and the
-- order in which a HashMap gives its entries. The f32 entropy of a memory region is a record of
-- what is asked of it (`Entropy`). The i32
-- that counts parentheses is a natural number, since the code keeps it from going below 0. Fuel
-- occurs in the host patterns of KnownHosts/Glob, (length of text + 1) * (length of pattern + 1)
-- steps for the lengths in bytes, one pass over the pattern for each start in the text; and in the
-- loop over glued tags, one round for each character, each of which takes a colon;
-- the recursion on aliases is on the depth left, as the code bounds it by 16.
--
-- Not modelled: the scanners that read /proc, /sys and files; the comparison of reports, the user interface, the exporters, the SSH
-- transport and the signing of binaries. In `from_findings` the debug_assert, which a release
-- build leaves out, is not modelled.
pub mod Acceptance
pub mod Common
pub mod Coverage
pub mod Examples
pub mod KnownHosts
pub mod Outcome
pub mod Report
pub mod Scoring
pub mod Sudoers
pub mod Utils
pub mod VerdictCache
