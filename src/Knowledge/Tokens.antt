-- ===== src/Knowledge/Tokens.antt =====
-- The token positions of a text, and the slices of a text: src/oncall/rag/chunking.py. A text's
-- characters are its code points.
use oncall.Prelude.{
  ℕ, Bool, List, Option, String, [], arith, false, if◌then◌else◌, is_alnum, is_space, leb, nat_beq,
  none, size, some, suc, ◌&&◌, ◌++◌, ◌+◌, ◌<◌, ◌||◌, ◌∷◌, ◌≡◌, ◌≤◌, Bool-cases, inl, inr, refl, ◌⊎◌,
}
use Prim.Native.Char.{code}

pub record TokenSpan : Type 0 where
  pub start : ℕ
  pub end : ℕ

-- [\u3400-\u9fff]
abbrev is_han : ℕ → Bool
is_han c = leb 13312 c && leb c 40959

-- [A-Za-z0-9_]
abbrev is_word : ℕ → Bool
is_word c = is_alnum c || nat_beq c b'_'

-- [./:@+-]
abbrev is_joint : ℕ → Bool
is_joint c =
    nat_beq c b'.'
    || (nat_beq c b'/'
        || (nat_beq c b':' || (nat_beq c b'@' || (nat_beq c b'+' || nat_beq c b'-'))))

abbrev begins_word : String → Bool
begins_word String.[] = false
begins_word (String.◌∷◌ c s) = is_word (code c)

-- The character at `i` outside of a word: the token that it is, and where the word that it begins
-- does.
abbrev outside : ℕ → ℕ → List TokenSpan × Option ℕ
outside i c =
    if is_han c
    then (record { start = i; end = i + 1 } ∷ [], none)
    else if is_word c
    then ([], some i)
    else if is_space c
    then ([], none)
    else (record { start = i; end = i + 1 } ∷ [], none)

-- The same after the word that begins at `s`: a joint between two word characters goes on with it.
abbrev read_char : Option ℕ → ℕ → ℕ → String → List TokenSpan × Option ℕ
read_char none i c rest = outside i c
read_char (some s) i c rest =
    if is_word c || (is_joint c && begins_word rest)
    then ([], some s)
    else (record { start = s; end = i } ∷ (outside i c).0, (outside i c).1)

abbrev last_word : Option ℕ → ℕ → List TokenSpan
last_word none i = []
last_word (some s) i = record { start = s; end = i } ∷ []

unfoldable pub spans_from : Option ℕ → ℕ → String → List TokenSpan
spans_from word i String.[] = last_word word i
spans_from word i (String.◌∷◌ c rest) =
    let r = read_char word i (code c) rest in r.0 ++ spans_from r.1 (suc i) rest

-- `_token_spans`, the matches of `_TOKEN`
unfoldable pub token_spans : String → List TokenSpan
unfolding spans_from
token_spans s = spans_from none 0 s

-- Tokens follow each other from `low` on without overlap, none is empty, and all end by `high`.
abbrev pub IsOrdered : ℕ → ℕ → List TokenSpan → Type 0
IsOrdered low high [] = low ≤ high
IsOrdered low high (t ∷ ts) = (low ≤ t.start) × (t.start < t.end) × IsOrdered t.end high ts

outside-cases :
    (i c : ℕ)
    → (outside i c ≡ (record { start = i; end = i + 1 } ∷ [], none))
      ⊎ (outside i c ≡ ([], some i))
      ⊎ (outside i c ≡ ([], none))
outside-cases i c = elim (Bool-cases (is_han c)) [
  | inl e ↦ rw e (inl refl)
  | inr e ↦ elim (Bool-cases (is_word c)) [
    | inl f ↦ rw (e, f) (inr (inl refl))
    | inr f ↦ elim (Bool-cases (is_space c)) [
      | inl g ↦ rw (e, f, g) (inr (inr refl))
      | inr g ↦ rw (e, f, g) (inl refl)
    ]
  ]
]

abbrev IsBegun : ℕ → ℕ → Option ℕ → Type 0
IsBegun low i none = Unit
IsBegun low i (some b) = (low ≤ b) × (b < i)

spans_from-IsOrdered :
    (word : Option ℕ) (low i high : ℕ) (s : String)
    → IsBegun low i word
    → low ≤ i
    → i + size s ≡ high
    → IsOrdered low high (spans_from word i s)
unfolding spans_from
spans_from-IsOrdered none low i high String.[] h le e = omega arith
spans_from-IsOrdered (some b) low i high String.[] h le e = (h.0, h.1, omega arith)
spans_from-IsOrdered none low i high (String.◌∷◌ c s) h le e = elim (outside-cases i (code c)) [
  | inl o ↦ rw o (
    le,
    omega arith,
    spans_from-IsOrdered none (i + 1) (suc i) high s tt (omega arith) (omega arith),
  )
  | inr (inl o) ↦ rw o (
      spans_from-IsOrdered (some i) low (suc i) high s (le, omega arith) (omega arith)
        (omega arith))
  | inr (inr o) ↦ rw o (spans_from-IsOrdered none low (suc i) high s tt (omega arith) (omega arith))
]
spans_from-IsOrdered (some b) low i high (String.◌∷◌ c s) h le e =
    elim (Bool-cases (is_word (code c) || (is_joint (code c) && begins_word s))) [
      | inl g ↦ rw g (
          spans_from-IsOrdered (some b) low (suc i) high s (h.0, omega arith) (omega arith)
            (omega arith))
      | inr g ↦ rw g (
        h.0,
        h.1,
        elim (outside-cases i (code c)) [
          | inl o ↦ rw o (
            omega arith,
            omega arith,
            spans_from-IsOrdered none (i + 1) (suc i) high s tt (omega arith) (omega arith),
          )
          | inr (inl o) ↦ rw o (
              spans_from-IsOrdered (some i) i (suc i) high s (omega arith, omega arith)
                (omega arith) (omega arith))
          | inr (inr o) ↦
              rw o (spans_from-IsOrdered none i (suc i) high s tt (omega arith) (omega arith))
        ],
      )
    ]

-- The tokens of a text are disjoint, follow each other, and lie within the text.
pub token_spans-IsOrdered : (s : String) → IsOrdered 0 (size s) (token_spans s)
unfolding token_spans
token_spans-IsOrdered s = spans_from-IsOrdered none 0 0 (size s) s tt (omega arith) (omega arith)
