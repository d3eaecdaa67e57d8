-- ===== src/Utils/Sanitize/Bytes.antt =====
-- src/utils.rs: `strip_ansi` on the bytes of a text and on its code points.
use owlzops_mapper.Common.{
  ◌&&◌, false, ◌%◌, ◌+◌, ◌/◌, ℕ, ◌≤◌, ◌≡◌, refl, List, [], ◌∷◌, ◌++◌, arith, All, nat_eq, ◌<◌,
  utf8_char, ◌⊎◌, Bool-cases, as_bytes, Text, ltb, inl, inr, ◌+◌, ◌/◌, ◌==◌, lt→ltb, false, ◌∙◌, ap,
  Option-cases, sym, Bool, true, if◌then◌else◌,
}
use owlzops_mapper.Utils.Sanitize.{copy, csi, walk, escape, osc, dcs, Mode, strip_ansi, behind, esc}

-- No byte of a character beyond ASCII is one that the walk tests for.
abbrev IsHigh : ℕ → Type 0
IsHigh c = 0x80 ≤ c

walk-copy_high : (u s : List ℕ) → All IsHigh u → walk copy (u ++ s) ≡ u ++ walk copy s
unfolding walk
walk-copy_high [] s h = refl
walk-copy_high (c ∷ u) s h = ground (arith, walk-copy_high u s h.1)

walk-csi_high : (u s : List ℕ) → All IsHigh u → walk csi (u ++ s) ≡ walk csi s
unfolding walk
walk-csi_high [] s h = refl
walk-csi_high (c ∷ u) s h = ground (arith, walk-csi_high u s h.1)

walk-osc_high : (u s : List ℕ) → All IsHigh u → walk osc (u ++ s) ≡ walk osc s
unfolding walk
walk-osc_high [] s h = refl
walk-osc_high (c ∷ []) [] h = refl
walk-osc_high (c ∷ []) (d ∷ s) h = ground arith
walk-osc_high (c ∷ d ∷ u) s h = ground (arith, walk-osc_high (d ∷ u) s h.1)

walk-dcs_high : (u s : List ℕ) → All IsHigh u → walk dcs (u ++ s) ≡ walk dcs s
unfolding walk
walk-dcs_high [] s h = refl
walk-dcs_high (c ∷ []) [] h = refl
walk-dcs_high (c ∷ []) (d ∷ s) h = ground arith
walk-dcs_high (c ∷ d ∷ u) s h = ground (arith, walk-dcs_high (d ∷ u) s h.1)

walk-escape_high :
    (c : ℕ) (u s : List ℕ)
    → IsHigh c
    → All IsHigh u
    → walk escape (c ∷ u ++ s) ≡ c ∷ u ++ walk copy s
unfolding walk behind
walk-escape_high c u s h k = ground (arith, walk-copy_high u s k)

-- A character is one ASCII byte, or a run of high ones.
utf8_char-low : (c : ℕ) → c < 0x80 → utf8_char c ≡ c ∷ []
unfolding utf8_char
utf8_char-low c h = rw (lt→ltb _ _ h)

utf8_char-IsHigh :
    (c : ℕ) → 0x80 ≤ c → (b : ℕ) × (u : List ℕ) × (utf8_char c ≡ b ∷ u) × IsHigh b × All IsHigh u
unfolding utf8_char
utf8_char-IsHigh c h =
    let e : ltb c 0x80 ≡ false = ground arith in
    elim (Bool-cases (ltb c 0x800)) [
      | inl e2 ↦ (0xC0 + c / 64, (0x80 + c % 64) ∷ [], rw (e, e2), omega arith, omega arith)
      | inr e2 ↦ elim (Bool-cases (ltb c 0x10000)) [
        | inl e3 ↦ (
          0xE0 + c / 4096,
          (0x80 + c / 64 % 64) ∷ (0x80 + c % 64) ∷ [],
          rw (e, e2, e3),
          omega arith,
          omega arith,
        )
        | inr e3 ↦ (
          0xF0 + c / 262144,
          (0x80 + c / 4096 % 64) ∷ (0x80 + c / 64 % 64) ∷ (0x80 + c % 64) ∷ [],
          rw (e, e2, e3),
          omega arith,
          omega arith,
        )
      ]
    ]

as_bytes-low : (c : ℕ) (s : Text) → c < 0x80 → as_bytes (c ∷ s) ≡ c ∷ as_bytes s
unfolding as_bytes
as_bytes-low c s h = rw (utf8_char-low c h)

as_bytes-high :
    (c : ℕ) (s : Text) {b : ℕ} {u : List ℕ}
    → utf8_char c ≡ b ∷ u
    → as_bytes (c ∷ s) ≡ (b ∷ u) ++ as_bytes s
unfolding as_bytes
as_bytes-high c s e = rw e

as_bytes-nil : as_bytes [] ≡ []
unfolding as_bytes
as_bytes-nil = refl

low-or-high : (c : ℕ) → (c < 0x80) ⊎ (0x80 ≤ c)
low-or-high c = elim (Bool-cases (ltb c 0x80)) [
  | inl e ↦ inl (ground arith)
  | inr e ↦ inr (ground arith)
]

-- The bytes of a text that is not empty begin with a backslash exactly if the text does.
as_bytes-head :
    (d : ℕ) (s : Text)
    → (b : ℕ) × (t : List ℕ) × (as_bytes (d ∷ s) ≡ b ∷ t)
      × ((b == 0x5C) ≡ (d == 0x5C))
      × (d ≡ 0x5C → t ≡ as_bytes s)
as_bytes-head d s = elim (low-or-high d) [
  | inl low ↦ (d, as_bytes s, as_bytes-low d s low, refl, λ _. refl)
  | inr high ↦
      let (b, u, e, hb, hu) = utf8_char-IsHigh d high in
      (b, u ++ as_bytes s, as_bytes-high d s e, ground arith, λ q. absurd (omega arith))
]

-- The two tests of a round inside a long sequence.
abbrev choose : Bool → Bool → List ℕ → List ℕ → List ℕ → List ℕ
choose p q x y z = if p then x else if q then y else z

choose-as_bytes :
    (p q : Bool) (x y z x' y' z' : List ℕ)
    → x' ≡ as_bytes x
    → (q ≡ true → y' ≡ as_bytes y)
    → z' ≡ as_bytes z
    → choose p q x' y' z' ≡ as_bytes (choose p q x y z)
choose-as_bytes true q x y z x' y' z' h k l = h
choose-as_bytes false true x y z x' y' z' h k l = k refl
choose-as_bytes false false x y z x' y' z' h k l = l

second : (c d : ℕ) → (c == esc && d == 0x5C) ≡ true → d ≡ 0x5C
second c d h = ground arith

walk-as_bytes : (mode : Mode) (s : Text) → walk mode (as_bytes s) ≡ as_bytes (walk mode s)
unfolding walk
walk-as_bytes copy [] = rw as_bytes-nil refl
walk-as_bytes copy (c ∷ s) = elim (low-or-high c) [
  | inl low ↦ ground (
    arith,
    as_bytes-low c s low,
    as_bytes-low c (walk copy s) low,
    walk-as_bytes copy s,
    walk-as_bytes escape s,
  )
  | inr high ↦
      let (b, u, e, hb, hu) = utf8_char-IsHigh c high in
      let kept : walk copy (c ∷ s) ≡ c ∷ walk copy s = ground arith in
      rw (kept, as_bytes-high c s e, as_bytes-high c (walk copy s) e)
        (walk-copy_high (b ∷ u) (as_bytes s) (hb, hu)
          ∙ ap (λ t. (b ∷ u) ++ t) (walk-as_bytes copy s))
]
walk-as_bytes escape [] = rw as_bytes-nil refl
walk-as_bytes escape (c ∷ s) = elim (low-or-high c) [
  | inl low ↦ elim (Option-cases (behind c)) [
    | inl e ↦
        ground
          (arith, e, as_bytes-low c s low, as_bytes-low c (walk copy s) low, walk-as_bytes copy s)
    | inr (mode, e) ↦ ground (arith, e, as_bytes-low c s low, walk-as_bytes mode s)
  ]
  | inr high ↦
      let (b, u, e, hb, hu) = utf8_char-IsHigh c high in
      let kept : walk escape (c ∷ s) ≡ c ∷ walk copy s = walk-escape_high c [] s high tt in
      rw (kept, as_bytes-high c s e, as_bytes-high c (walk copy s) e)
        (walk-escape_high b u (as_bytes s) hb hu ∙ ap (λ t. (b ∷ u) ++ t) (walk-as_bytes copy s))
]
walk-as_bytes csi [] = rw as_bytes-nil refl
walk-as_bytes csi (c ∷ s) = elim (low-or-high c) [
  | inl low ↦ ground (arith, as_bytes-low c s low, walk-as_bytes copy s, walk-as_bytes csi s)
  | inr high ↦
      let (b, u, e, hb, hu) = utf8_char-IsHigh c high in
      let more : walk csi (c ∷ s) ≡ walk csi s = ground arith in
      rw (more, as_bytes-high c s e)
        (walk-csi_high (b ∷ u) (as_bytes s) (hb, hu) ∙ walk-as_bytes csi s)
]
walk-as_bytes osc [] = rw as_bytes-nil refl
walk-as_bytes osc (c ∷ []) = elim (low-or-high c) [
  | inl low ↦ ground (arith, as_bytes-low c [] low, as_bytes-nil)
  | inr high ↦
      let (b, u, e, hb, hu) = utf8_char-IsHigh c high in
      rw (as_bytes-high c [] e)
        (walk-osc_high (b ∷ u) (as_bytes []) (hb, hu) ∙ walk-as_bytes osc [])
]
walk-as_bytes osc (c ∷ d ∷ s) = elim (low-or-high c) [
  | inl low ↦
      let (b, t, e, same, tail) = as_bytes-head d s in
      let step : walk osc (as_bytes (c ∷ d ∷ s)) ≡ walk osc (c ∷ b ∷ t) =
        ap (walk osc) (as_bytes-low c (d ∷ s) low ∙ ap (λ r. c ∷ r) e) in
      step
      ∙ ap
          (λ q.
            choose (c == 0x07) (c == esc && q) (walk copy (b ∷ t)) (walk copy t) (walk osc (b ∷ t)))
          same
      ∙ choose-as_bytes (c == 0x07) (c == esc && d == 0x5C) (walk copy (d ∷ s)) (walk copy s)
          (walk osc (d ∷ s)) (walk copy (b ∷ t)) (walk copy t) (walk osc (b ∷ t))
          (ap (walk copy) (sym e) ∙ walk-as_bytes copy (d ∷ s))
          (λ q. ap (walk copy) (tail (second c d q)) ∙ walk-as_bytes copy s)
          (ap (walk osc) (sym e) ∙ walk-as_bytes osc (d ∷ s))
  | inr high ↦
      let (b, u, e, hb, hu) = utf8_char-IsHigh c high in
      let more : walk osc (c ∷ d ∷ s) ≡ walk osc (d ∷ s) =
        walk-osc_high (c ∷ []) (d ∷ s) (high, tt) in
      rw (more, as_bytes-high c (d ∷ s) e)
        (walk-osc_high (b ∷ u) (as_bytes (d ∷ s)) (hb, hu) ∙ walk-as_bytes osc (d ∷ s))
]
walk-as_bytes dcs [] = rw as_bytes-nil refl
walk-as_bytes dcs (c ∷ []) = elim (low-or-high c) [
  | inl low ↦ ground (arith, as_bytes-low c [] low, as_bytes-nil)
  | inr high ↦
      let (b, u, e, hb, hu) = utf8_char-IsHigh c high in
      rw (as_bytes-high c [] e)
        (walk-dcs_high (b ∷ u) (as_bytes []) (hb, hu) ∙ walk-as_bytes dcs [])
]
walk-as_bytes dcs (c ∷ d ∷ s) = elim (low-or-high c) [
  | inl low ↦
      let (b, t, e, same, tail) = as_bytes-head d s in
      let step : walk dcs (as_bytes (c ∷ d ∷ s)) ≡ walk dcs (c ∷ b ∷ t) =
        ap (walk dcs) (as_bytes-low c (d ∷ s) low ∙ ap (λ r. c ∷ r) e) in
      step
      ∙ ap (λ q. choose (false) (c == esc && q) [] (walk copy t) (walk dcs (b ∷ t))) same
      ∙ choose-as_bytes (false) (c == esc && d == 0x5C) [] (walk copy s) (walk dcs (d ∷ s)) []
          (walk copy t) (walk dcs (b ∷ t)) (sym as_bytes-nil)
          (λ q. ap (walk copy) (tail (second c d q)) ∙ walk-as_bytes copy s)
          (ap (walk dcs) (sym e) ∙ walk-as_bytes dcs (d ∷ s))
  | inr high ↦
      let (b, u, e, hb, hu) = utf8_char-IsHigh c high in
      let more : walk dcs (c ∷ d ∷ s) ≡ walk dcs (d ∷ s) =
        walk-dcs_high (c ∷ []) (d ∷ s) (high, tt) in
      rw (more, as_bytes-high c (d ∷ s) e)
        (walk-dcs_high (b ∷ u) (as_bytes (d ∷ s)) (hb, hu) ∙ walk-as_bytes dcs (d ∷ s))
]

-- Stripping the bytes of a text gives the bytes of the stripped text: no character is cut, so the
-- conversion back from UTF-8 that follows in the source replaces nothing.
pub strip_ansi-as_bytes : (s : Text) → strip_ansi (as_bytes s) ≡ as_bytes (strip_ansi s)
unfolding strip_ansi
strip_ansi-as_bytes s = walk-as_bytes copy s
