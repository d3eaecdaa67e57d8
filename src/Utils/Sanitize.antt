-- ===== src/Utils/Sanitize.antt =====
-- src/utils.rs: `strip_ansi`, `is_terminal_unsafe`, `sanitize_for_log`, `sanitize_for_document`.
-- `strip_ansi` walks bytes and tests for ASCII bytes only, so the walk is written for any list of
-- numbers: the bytes of a text, or its code points.
pub mod Bytes
pub mod IsSafe
use owlzops_mapper.Common.{
  ℕ, Text, Bool, Option, none, some, ◌||◌, ◌&&◌, List, [], ◌∷◌, map, take, ◌==◌, nat_eq, leb,
  if◌then◌else◌,
}

abbrev pub esc : ℕ
esc = 0x1B

-- Where the walk stands: at a byte to copy, behind an ESC, or inside a sequence.
pub data Mode : Type 0 where
  copy escape csi osc dcs : Mode

abbrev pub is_csi_final : ℕ → Bool
is_csi_final c = leb 0x40 c && leb c 0x7E

-- The `match` on the byte behind an ESC: where the walk goes on, or none if the byte is not
-- consumed and does not begin an escape of its own.
pub behind : ℕ → Option Mode
behind c =
    if c == b'['
    then some csi
    else if c == b']'
    then some osc
    else if c == b'P' || c == b'X' || c == b'^' || c == b'_'
    then some dcs
    else if leb 0x30 c && leb c 0x7E
    then some copy
    else if c == esc
    then some escape
    else none

pub walk : Mode → List ℕ → List ℕ
walk mode [] = []
walk copy (c ∷ s) =
    let in_escape = walk escape s in
    let copied = c ∷ walk copy s in if c == esc then in_escape else copied
walk escape (c ∷ s) = elim (behind c) [ some mode ↦ walk mode s | none ↦ c ∷ walk copy s ]
walk csi (c ∷ s) =
    let ended = walk copy s in let more = walk csi s in if is_csi_final c then ended else more
walk osc (c ∷ []) = []
walk osc (c ∷ d ∷ s) =
    let bel = walk copy (d ∷ s) in
    let st = walk copy s in
    let more = walk osc (d ∷ s) in
    if c == 0x07 then bel else if c == esc && d == 0x5C then st else more
walk dcs (c ∷ []) = []
walk dcs (c ∷ d ∷ s) =
    let st = walk copy s in
    let more = walk dcs (d ∷ s) in if c == esc && d == 0x5C then st else more

unfoldable pub strip_ansi : Text → Text
unfolding walk behind
strip_ansi s = walk copy s

-- `char::is_control`: the general category Cc
abbrev pub is_control : ℕ → Bool
is_control c = leb c 0x1F || leb 0x7F c && leb c 0x9F

unfoldable pub is_terminal_unsafe : ℕ → Bool
is_terminal_unsafe c =
    is_control c
    || c == 0x00AD
    || c == 0x061C
    || c == 0x180E
    || c == 0x115F
    || c == 0x1160
    || c == 0x3164
    || c == 0xFFA0
    || leb 0x200B c && leb c 0x200F
    || leb 0x202A c && leb c 0x202E
    || c == 0x2028
    || c == 0x2029
    || leb 0x2060 c && leb c 0x206F
    || c == 0xFEFF
    || leb 0xE0000 c && leb c 0xE007F

unfoldable pub blank : ℕ → ℕ
unfolding is_terminal_unsafe
blank c = if is_terminal_unsafe c then 0x20 else c

unfoldable pub sanitize_and_truncate : Text → ℕ → Text
unfolding strip_ansi blank
sanitize_and_truncate s max_chars = take max_chars (map blank (strip_ansi s))

unfoldable pub sanitize_for_log : Text → Text
unfolding sanitize_and_truncate
sanitize_for_log s = sanitize_and_truncate s 300

unfoldable pub replace_unsafe : ℕ → ℕ
unfolding is_terminal_unsafe
replace_unsafe c = if is_terminal_unsafe c then 0xFFFD else c

unfoldable pub sanitize_for_document : Text → Text
unfolding replace_unsafe
sanitize_for_document s = map replace_unsafe s
