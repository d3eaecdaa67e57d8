-- ===== src/Sudoers/Walk.antt =====
-- src/scanners/sudoers.rs: `each_sudoers_entry_from`, the walk over the files that sudo would read,
-- and `scan_sudoers`. The file system is a record of answers.
pub mod Rounds
pub mod Once
pub mod Gaps
use owlzops_mapper.Common.{
  ℕ, zero, suc, ◌+◌, ◌-◌, ◌*◌, Text, codes, Bool, true, false, not, ◌&&◌, ◌||◌, List, [], ◌∷◌, ◌++◌,
  Option, none, some, ◌==◌, nat_eq, text_eq, if◌then◌else◌, contains, contains_text, starts_with,
  ends_with, trim, lines, ltb, decimal, map, any,
}
use owlzops_mapper.Sudoers.Lines.{include_target, logical_lines}
use owlzops_mapper.Sudoers.Aliases.{CmndAliases, absorb}

abbrev pub max_sudoers_bytes : ℕ
max_sudoers_bytes = 4 * 1024 * 1024

abbrev pub max_include_depth : ℕ
max_include_depth = 16

abbrev pub max_sudoers_files : ℕ
max_sudoers_files = 512

-- What `read_file_capped_regular` gives for a file.
pub data Content : Type 0 where
  text : Text → Bool → Content
  not_found : Content
  invalid_data : Content
  unreadable : Text → Content

-- An entry of a directory: its name, its path, and whether it is a file.
pub record DirEntry : Type 0 where
  pub file_name : Text
  pub path : Text
  pub is_file : Bool

-- `Path::canonicalize`, `Path::is_dir`, `fs::read_dir`, the capped read, `Path::parent` and
-- `Path::join`.
pub record FileSystem : Type 0 where
  pub canonicalize : Text → Option Text
  pub is_dir : Text → Bool
  pub read_dir : Text → Option (List DirEntry)
  pub read_capped : Text → ℕ → Content
  pub parent : Text → Option Text
  pub join : Text → Text → Text

-- The notes of the walk.
pub data Note : Type 0 where
  file_budget : Note
  depth_limit : Text → Note
  truncated : Text → Note
  no_root_file : Text → Note
  dangling_include : Text → Note
  not_regular : Text → Note
  unread : Text → Text → Note

-- The files that the walk counts in `files_seen`, with their depth, what it hands to the callback,
-- and the notes it records, each in order.
pub record Trace : Type 0 where
  pub seen : List (Text × ℕ)
  pub entries : List (Text × Text)
  pub notes : List Note

abbrev pub nothing : Trace
nothing = record { seen = []; entries = []; notes = [] }

abbrev pub followed_by : Trace → Trace → Trace
followed_by s t = record {
  seen = s.seen ++ t.seen;
  entries = s.entries ++ t.entries;
  notes = s.notes ++ t.notes;
}

abbrev pub note : Note → Trace
note n = record { seen = []; entries = []; notes = n ∷ [] }

-- The queue is a stack of files with their depth: `Vec::pop` takes the last one, so the top is the
-- head here.
abbrev pub Queue : Type 0
Queue = List (Text × ℕ)

unfoldable pub is_sudoers_file : DirEntry → Bool
unfolding starts_with contains_text ends_with
is_sudoers_file e =
    not (contains_text e.file_name (codes ".") || ends_with e.file_name (codes "~"))
    && (e.is_file
        && not (starts_with e.file_name (codes "."))
        && not (e.file_name == codes "README"))

unfoldable pub entries_of : Text → ℕ → Content → List (Text × Text) × List Note
entries_of file depth (text content cut) =
    (map (λ entry. (file, entry)) (logical_lines content), if cut then truncated file ∷ [] else [])
entries_of file depth not_found =
    ([], (if depth == 0 then no_root_file file else dangling_include file) ∷ [])
entries_of file depth invalid_data = ([], not_regular file ∷ [])
entries_of file depth (unreadable kind) = ([], unread file kind ∷ [])

module _ (fs : FileSystem) where
  unfoldable pub canon_path_key : Text → Text
  canon_path_key path = elim (fs.canonicalize path) [ none ↦ path | some p ↦ p ]

  -- `for entry in entries.flatten()`: each file is pushed on top of the queue.
  unfoldable pub push_entries : List DirEntry → ℕ → Queue → Queue
  push_entries [] depth queue = queue
  push_entries (e ∷ es) depth queue =
      push_entries es depth (if is_sudoers_file e then (e.path, depth + 1) ∷ queue else queue)

  unfoldable pub push_dir : Text → ℕ → Queue → Queue
  unfolding push_entries
  push_dir dir depth queue = elim (fs.read_dir dir) [
    | none ↦ queue
    | some es ↦ push_entries es depth queue
  ]

  unfoldable pub resolve_include : Text → Text → Text
  resolve_include file target =
      if starts_with target (codes "/")
      then target
      else elim (fs.parent file) [ none ↦ target | some p ↦ fs.join p target ]

  unfoldable pub push_includes : Text → ℕ → List Text → Queue → Queue
  unfolding push_dir resolve_include
  push_includes file depth [] queue = queue
  push_includes file depth (raw ∷ rest) queue = elim (include_target (trim raw)) [
    | none ↦ push_includes file depth rest queue
    | some (target, is_dir) ↦ push_includes file depth rest (
        if is_dir
        then push_dir (resolve_include file target) depth queue
        else (resolve_include file target, depth + 1) ∷ queue)
  ]

  -- What a file that was not seen before gives to the callback and to the notes.
  unfoldable pub read_entries : Text → ℕ → Trace
  unfolding entries_of
  read_entries file depth =
      let found =
        if fs.is_dir file
        then ([], [])
        else entries_of file depth (fs.read_capped file max_sudoers_bytes) in
      record { seen = (file, depth) ∷ []; entries = found.0; notes = found.1 }

  -- What it pushes on the queue.
  unfoldable pub push_content : Text → ℕ → Content → Queue → Queue
  unfolding push_includes
  push_content file depth (text content cut) queue = push_includes file depth (lines content) queue
  push_content file depth not_found queue = queue
  push_content file depth invalid_data queue = queue
  push_content file depth (unreadable kind) queue = queue

  unfoldable pub push_file : Text → ℕ → Queue → Queue
  unfolding push_content push_dir
  push_file file depth queue =
      if fs.is_dir file
      then push_dir file depth queue
      else push_content file depth (fs.read_capped file max_sudoers_bytes) queue

  -- `budget` is how many files may still be seen.
  pub walk : ℕ → Queue → List Text → Trace
  unfolding read_entries push_file canon_path_key
  walk budget [] visited = nothing
  walk zero (item ∷ queue) visited = note file_budget
  walk (suc budget) ((file, depth) ∷ queue) visited =
      let skipped = walk (suc budget) queue visited in
      let key = canon_path_key file in
      let onward = walk budget (push_file file depth queue) (key ∷ visited) in
      if ltb max_include_depth depth
      then followed_by (note (depth_limit file)) skipped
      else if contains visited key
      then skipped
      else followed_by (read_entries file depth) onward

  -- The roots are pushed in their order: the last one is on top.
  unfoldable pub push_roots : List Text → Queue → Queue
  push_roots [] queue = queue
  push_roots (r ∷ rs) queue = push_roots rs ((r, 0) ∷ queue)

  unfoldable pub each_sudoers_entry_from : List Text → Trace
  unfolding walk push_roots
  each_sudoers_entry_from roots = walk max_sudoers_files (push_roots roots []) []

  unfoldable pub each_sudoers_entry : Trace
  unfolding each_sudoers_entry_from
  each_sudoers_entry = each_sudoers_entry_from (codes "/etc/sudoers" ∷ codes "/etc/sudoers.d" ∷ [])

pub record SudoersScan : Type 0 where
  pub aliases : CmndAliases
  pub entries : List (Text × Text)

unfoldable pub absorb_all : CmndAliases → List (Text × Text) → CmndAliases
absorb_all aliases [] = aliases
absorb_all aliases ((file, entry) ∷ rest) = absorb_all (absorb aliases entry) rest

unfoldable pub scan_sudoers_from : FileSystem → List Text → SudoersScan
unfolding absorb_all
scan_sudoers_from fs roots =
    let found = each_sudoers_entry_from fs roots in
    record { aliases = absorb_all [] found.entries; entries = found.entries }

unfoldable pub scan_sudoers : FileSystem → SudoersScan
unfolding absorb_all
scan_sudoers fs =
    let found = each_sudoers_entry fs in
    record { aliases = absorb_all [] found.entries; entries = found.entries }
