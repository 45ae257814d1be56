-- ===== src/Knowledge/Windows.antt =====
-- The token windows of a section: `_split_large_section` of src/oncall/rag/chunking.py.
use native.Mathlib.Decide.{dec_lt}
use mathlib.Core.Option.{some-injective}
use oncall.Knowledge.Tokens.{TokenSpan, IsOrdered, token_spans, token_spans-IsOrdered}
use oncall.Knowledge.Chunking.{Window, windows, nth, char_end, char_start, slice, window_text}
use oncall.Prelude.{
  ℕ, List, [], arith, suc, zero, ◌+◌, ◌-◌, ◌<◌, ◌∷◌, ◌≡◌, ◌≤◌, false, if◌then◌else◌, leb, nat_beq,
  refl, some, subst, true, String, length, ok, size, Bool-cases, inl, inr, sym, ◌∙◌,
}

module _ (max_tokens overlap_tokens count : ℕ) where
  -- The windows begin at `start`, the last one ends with the last token and is no longer than
  -- allowed; each other one is of full length, and the next one begins before its end by exactly
  -- the overlap.
  abbrev pub IsTiling : ℕ → List Window → Type 0
  IsTiling start [] = ⊥
  IsTiling start (w ∷ []) =
      (w.first ≡ start) × (w.last ≡ count) × (start < count) × (count ≤ start + max_tokens)
  IsTiling start (w ∷ (v ∷ ws)) =
      (w.first ≡ start)
      × (w.last ≡ start + max_tokens)
      × (start + max_tokens < count)
      × IsTiling (start + max_tokens - overlap_tokens) (v ∷ ws)

  cons-IsTiling :
      (start : ℕ) (w : Window) (ws : List Window)
      → w.first ≡ start
      → w.last ≡ start + max_tokens
      → start + max_tokens < count
      → IsTiling (start + max_tokens - overlap_tokens) ws
      → IsTiling start (w ∷ ws)
  cons-IsTiling start w [] f l c t = absurd t
  cons-IsTiling start w (v ∷ ws) f l c t = (f, l, c, t)

  pub windows-IsTiling :
      (fuel start : ℕ)
      → overlap_tokens < max_tokens
      → start < count
      → count ≤ start + fuel
      → IsTiling start (windows max_tokens overlap_tokens count fuel start)
  unfolding windows
  windows-IsTiling zero start o s f = absurd (omega arith)
  windows-IsTiling (suc fuel) start o s f =
      let inside : leb count start ≡ false = ground arith in
      elim (dec_lt (start + max_tokens) count) [
        | yes h ↦
            let fits : leb (start + max_tokens) count ≡ true = ground arith in
            let goes_on : nat_beq (start + max_tokens) count ≡ false = ground arith in
            let e : start + (max_tokens - overlap_tokens) ≡ start + max_tokens - overlap_tokens =
              omega arith in
            rw (inside, fits, goes_on)
              (cons-IsTiling start _ _ refl refl h (
                subst
                  (λ n. IsTiling n (
                    windows max_tokens overlap_tokens count fuel
                      (start + (max_tokens - overlap_tokens))))
                  e
                  (windows-IsTiling fuel (start + (max_tokens - overlap_tokens)) o (omega arith)
                    (omega arith))))
        | no h ↦
            let ends : (if leb (start + max_tokens) count then start + max_tokens else count)
                ≡ count =
              ground arith in
            let last : nat_beq count count ≡ true = ground arith in
            rw (inside, ends, last) (refl, refl, s, omega arith)
      ]

  -- Each token stands in a window.
  pub IsTiling-covers :
      (start : ℕ) (ws : List Window) (k : ℕ)
      → overlap_tokens < max_tokens
      → IsTiling start ws
      → start ≤ k
      → k < count
      → (j : ℕ) × (w : Window) × (nth j ws ≡ some w)
        × (w.first ≤ k)
        × (k < w.last)
        × (w.last ≤ count)
  IsTiling-covers start [] k o t s c = absurd t
  IsTiling-covers start (w ∷ []) k o t s c =
      (zero, w, refl, omega (arith, t.0), omega (arith, t.1), omega (arith, t.1))
  IsTiling-covers start (w ∷ (v ∷ ws)) k o t s c = elim (dec_lt k (start + max_tokens)) [
    | yes h ↦ (zero, w, refl, omega (arith, t.0), omega (arith, t.1), omega (arith, t.1, t.2))
    | no h ↦
        let (j, u, at_j, before, after, fits) =
          IsTiling-covers (start + max_tokens - overlap_tokens) (v ∷ ws) k o t.3 (omega arith) c in
        (suc j, u, at_j, before, after, fits)
  ]

IsOrdered-le : (low high : ℕ) (ts : List TokenSpan) → IsOrdered low high ts → low ≤ high
IsOrdered-le low high [] h = h
IsOrdered-le low high (t ∷ ts) h = omega (arith, h.0, h.1, IsOrdered-le t.end high ts h.2)

nth-of-IsOrdered :
    (low high k : ℕ) (ts : List TokenSpan) {t : TokenSpan}
    → IsOrdered low high ts
    → nth k ts ≡ some t
    → (low ≤ t.start) × (t.start < t.end) × (t.end ≤ high)
nth-of-IsOrdered low high k [] h e = absurd (cc)
nth-of-IsOrdered low high zero (t ∷ ts) h e =
    let r = IsOrdered-le t.end high ts h.2 in
    subst (λ (x : TokenSpan). (low ≤ x.start) × (x.start < x.end) × (x.end ≤ high))
      (some-injective _ _ e) (h.0, h.1, r)
nth-of-IsOrdered low high (suc k) (t ∷ ts) {t = u} h e =
    let r = nth-of-IsOrdered t.end high k ts {t = u} h.2 e in
    (omega (arith, r.0, h.0, h.1), r.1, r.2)

-- Later tokens begin and end later.
nth-IsMonotone :
    (low high j k : ℕ) (ts : List TokenSpan) {t u : TokenSpan}
    → IsOrdered low high ts
    → nth j ts ≡ some t
    → nth k ts ≡ some u
    → j ≤ k
    → (t.start ≤ u.start) × (t.end ≤ u.end)
nth-IsMonotone low high j k [] h e f le = absurd (cc)
nth-IsMonotone low high zero zero (x ∷ ts) {t = t} {u = u} h e f le =
    let same : t ≡ u = some-injective _ _ (sym e ∙ f) in
    subst (λ (x : TokenSpan). (t.start ≤ x.start) × (t.end ≤ x.end)) same (omega arith, omega arith)
nth-IsMonotone low high (suc j) zero (x ∷ ts) h e f le = absurd (omega arith)
nth-IsMonotone low high zero (suc k) (x ∷ ts) {t = t} {u = u} h e f le =
    let r = nth-of-IsOrdered x.end high k ts {t = u} h.2 f in
    subst (λ (x : TokenSpan). (x.start ≤ u.start) × (x.end ≤ u.end)) (some-injective _ _ e)
      (omega (arith, h.1, r.0), omega (arith, r.0, r.1))
nth-IsMonotone low high (suc j) (suc k) (x ∷ ts) {t = t} {u = u} h e f le =
    nth-IsMonotone x.end high j k ts {t = t} {u = u} h.2 e f (omega arith)

pub nth-of-length :
    (k : ℕ) (ts : List TokenSpan) → k < length ts → (t : TokenSpan) × (nth k ts ≡ some t)
nth-of-length k [] h = absurd (omega arith)
nth-of-length zero (t ∷ ts) h = (t, refl)
nth-of-length (suc k) (t ∷ ts) h = nth-of-length k ts (omega arith)

length-of-nth : (k : ℕ) (ts : List TokenSpan) {t : TokenSpan} → nth k ts ≡ some t → k < length ts
length-of-nth k [] e = absurd (cc)
length-of-nth zero (t ∷ ts) e = omega arith
length-of-nth (suc k) (t ∷ ts) {t = u} e = omega (arith, length-of-nth k ts {t = u} e)

-- A window begins at or before the start of its tokens.
pub char_start-le :
    (s : String) (first k : ℕ) {t : TokenSpan}
    → nth k (token_spans s) ≡ some t
    → first ≤ k
    → (a : ℕ) × (char_start (token_spans s) first ≡ ok a) × (a ≤ t.start)
unfolding char_start
char_start-le s first k {t = t} e f = elim (Bool-cases (nat_beq first 0)) [
  | inl z ↦ (0, rw (char_start, z) refl, omega arith)
  | inr z ↦
      let (u, at_first) =
        nth-of-length first (token_spans s)
          (omega (arith, length-of-nth k (token_spans s) {t = t} e)) in
      let r =
        nth-IsMonotone 0 (size s) first k (token_spans s) {t = u} {u = t} (token_spans-IsOrdered s)
          at_first e f in
      (u.start, rw (char_start, z, at_first) refl, r.0)
]

-- It ends at or after the end of its tokens, within the text.
pub char_end-ge :
    (s : String) (last k : ℕ) {t : TokenSpan}
    → nth k (token_spans s) ≡ some t
    → k < last
    → last ≤ length (token_spans s)
    → (b : ℕ) × (char_end s (token_spans s) last ≡ ok b) × (t.end ≤ b) × (b ≤ size s)
unfolding char_end
char_end-ge s last k {t = t} e l c = elim (Bool-cases (nat_beq last (length (token_spans s)))) [
  | inl z ↦ (
    size s,
    rw (char_end, z) refl,
    (nth-of-IsOrdered 0 (size s) k (token_spans s) {t = t} (token_spans-IsOrdered s) e).2,
    omega arith,
  )
  | inr z ↦
      let (u, at_last) = nth-of-length (last - 1) (token_spans s) (omega arith) in
      let r =
        nth-IsMonotone 0 (size s) k (last - 1) (token_spans s) {t = t} {u = u}
          (token_spans-IsOrdered s) e at_last (omega arith) in
      let v =
        nth-of-IsOrdered 0 (size s) (last - 1) (token_spans s) {t = u} (token_spans-IsOrdered s)
          at_last in
      (u.end, rw (char_end, z, at_last) refl, r.1, v.2)
]

-- The windows of a section that is cut.
abbrev pub section_windows : String → ℕ → ℕ → List Window
section_windows s max_tokens overlap_tokens =
    windows max_tokens overlap_tokens (length (token_spans s)) (length (token_spans s)) 0

-- Where a section is longer than `max_tokens`, its windows cover its tokens, each of at most
-- `max_tokens` and with exactly the overlap between neighbours, and there are rounds enough for it.
pub section_windows-IsTiling :
    (s : String) (max_tokens overlap_tokens : ℕ)
    → overlap_tokens < max_tokens
    → max_tokens < length (token_spans s)
    → IsTiling max_tokens overlap_tokens
        (length (token_spans s))
        0
        (section_windows s max_tokens overlap_tokens)
section_windows-IsTiling s max_tokens overlap_tokens o h =
    windows-IsTiling max_tokens overlap_tokens (length (token_spans s)) (length (token_spans s)) 0 o
      (omega arith) (omega arith)

-- Each token of a section that is cut lies whole in the slice of one of its windows: of the slice
-- from `a` to `b`, which lies within the text.
pub token-in-window :
    (s : String) (max_tokens overlap_tokens k : ℕ) (t : TokenSpan)
    → overlap_tokens < max_tokens
    → max_tokens < length (token_spans s)
    → nth k (token_spans s) ≡ some t
    → (j : ℕ) × (w : Window) × (a : ℕ) × (b : ℕ) × (nth j
          (section_windows s max_tokens overlap_tokens)
        ≡ some w)
      × (window_text s (token_spans s) w ≡ ok (slice s a b))
      × (a ≤ t.start)
      × (t.end ≤ b)
      × (b ≤ size s)
unfolding window_text
token-in-window s max_tokens overlap_tokens k t o h e =
    let tiling = section_windows-IsTiling s max_tokens overlap_tokens o h in
    let (j, w, at_j, first, last, fits) =
      IsTiling-covers max_tokens overlap_tokens (length (token_spans s)) 0
        (section_windows s max_tokens overlap_tokens) k o tiling (omega arith)
        (length-of-nth k (token_spans s) {t = t} e) in
    let (a, start, le) = char_start-le s w.first k {t = t} e first in
    let (b, stop, ge, inside) = char_end-ge s w.last k {t = t} e last fits in
    (j, w, a, b, at_j, rw (start, stop) refl, le, ge, inside)
