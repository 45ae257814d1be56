-- ===== src/Knowledge/Chunking.antt =====
-- Markdown split by headings and token windows: src/oncall/rag/chunking.py.
use oncall.Knowledge.Tokens.{token_spans, TokenSpan}
use oncall.Prelude.{
  ℕ, Bool, List, Option, Outcome, String, [], count, false, if◌then◌else◌, leb, length, nat_beq,
  nat_eq, none, ok, raised, size, some, string_eq, strip, suc, take_chars, zero, ◌&&◌, ◌+◌, ◌-◌,
  ◌==◌, ◌>>=◌, ◌||◌, ◌∷◌,
}
use Prim.Native.Char.{code}
use Prim.Native.String.{◌++◌}

-- `spans[k]` out of range
pub data IndexError : Type 0 where
  index_error : IndexError

-- `token_start` and `token_end` of a round
pub record Window : Type 0 where
  pub first : ℕ
  pub last : ℕ

abbrev pub nth {ℓ} : {A : Type ℓ} → ℕ → List A → Option A
nth k [] = none
nth zero (x ∷ xs) = some x
nth (suc k) (x ∷ xs) = nth k xs

abbrev min : ℕ → ℕ → ℕ
min a b = if leb a b then a else b

-- The rounds of the loop over `range(start, count, max_tokens - overlap_tokens)`, which ends with
-- the window that reaches the last token.
unfoldable pub windows : ℕ → ℕ → ℕ → ℕ → ℕ → List Window
windows max_tokens overlap_tokens count zero start = []
windows max_tokens overlap_tokens count (suc fuel) start =
    let rest =
      windows max_tokens overlap_tokens count fuel (start + (max_tokens - overlap_tokens)) in
    let last = min (start + max_tokens) count in
    if leb count start
    then []
    else record { first = start; last = last } ∷ (if nat_beq last count then [] else rest)

abbrev pub drop_chars : ℕ → String → String
drop_chars zero s = s
drop_chars (suc n) String.[] = String.[]
drop_chars (suc n) (String.◌∷◌ c s) = drop_chars n s

-- `text[a:b]`
abbrev pub slice : String → ℕ → ℕ → String
slice s a b = take_chars (b - a) (drop_chars a s)

unfoldable pub char_start : List TokenSpan → ℕ → Outcome IndexError ℕ
char_start spans first =
    if nat_beq first 0
    then ok 0
    else elim (nth first spans) [ none ↦ raised index_error | some t ↦ ok t.start ]

unfoldable pub char_end : String → List TokenSpan → ℕ → Outcome IndexError ℕ
char_end s spans last =
    if nat_beq last (length spans)
    then ok (size s)
    else elim (nth (last - 1) spans) [ none ↦ raised index_error | some t ↦ ok t.end ]

-- The slice of a window.
unfoldable pub window_text : String → List TokenSpan → Window → Outcome IndexError String
unfolding char_start char_end
window_text s spans w = do
  a ← char_start spans w.first
  b ← char_end s spans w.last
  ok (slice s a b)

unfoldable pub pieces : String → List TokenSpan → List Window → Outcome IndexError (List String)
unfolding window_text strip
pieces s spans [] = ok []
pieces s spans (w ∷ ws) = do
  raw ← window_text s spans w
  rest ← pieces s spans ws
  let chunk = strip raw
  ok (if chunk == "" then rest else chunk ∷ rest)

-- `_split_large_section`; as many rounds as there are tokens are enough.
unfoldable pub split_large_section : String → ℕ → ℕ → Outcome IndexError (List String)
unfolding token_spans windows pieces strip
split_large_section s max_tokens overlap_tokens =
    let spans = token_spans s in
    if leb (length spans) max_tokens
    then ok (strip s ∷ [])
    else pieces s spans (windows max_tokens overlap_tokens (length spans) (length spans) 0)

-- The characters at which `splitlines` ends a line.
abbrev is_line_break : ℕ → Bool
is_line_break c =
    (leb 10 c && leb c 13)
    || ((leb 28 c && leb c 30) || (nat_beq c 133 || (nat_beq c 8232 || nat_beq c 8233)))

abbrev begin_line : String → List String → List String
begin_line s [] = s ∷ []
begin_line s (l ∷ ls) = (s ++ l) ∷ ls

-- `splitlines`, where the character before was a carriage return or not: "\r\n" ends one line.
unfoldable pub lines_after : Bool → String → List String
lines_after returned String.[] = []
lines_after returned (String.◌∷◌ c s) =
    let rest = lines_after (nat_beq (code c) 13) s in
    if returned && nat_beq (code c) 10
    then rest
    else if is_line_break (code c)
    then "" ∷ rest
    else begin_line (String.◌∷◌ c String.[]) rest

unfoldable pub splitlines : String → List String
unfolding lines_after
splitlines s = lines_after false s
