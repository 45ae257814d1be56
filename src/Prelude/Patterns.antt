-- ===== src/Prelude/Patterns.antt =====
-- The regular expressions of the source that are character classes with lengths.
use Prim.Native.Nat.{ℕ, zero, suc}
use Prim.Native.Char.{code}
use Prim.Native.String.{String}
use mathlib.Core.Bool.{Bool, true, false, ◌&&◌, ◌||◌}
use oncall.Prelude.Tests.{leb, nat_beq}

-- `len(s)`: a character is a code point.
abbrev pub size : String → ℕ
size String.[] = 0
size (String.◌∷◌ c s) = suc (size s)

-- `s[:n]`
abbrev pub take_chars : ℕ → String → String
take_chars zero s = String.[]
take_chars (suc n) String.[] = String.[]
take_chars (suc n) (String.◌∷◌ c s) = String.◌∷◌ c (take_chars n s)

abbrev pub all_chars : (ℕ → Bool) → String → Bool
all_chars p String.[] = true
all_chars p (String.◌∷◌ c s) = p (code c) && all_chars p s

abbrev pub is_digit : ℕ → Bool
is_digit c = leb b'0' c && leb c b'9'

abbrev pub is_lower : ℕ → Bool
is_lower c = leb b'a' c && leb c b'z'

abbrev pub is_upper : ℕ → Bool
is_upper c = leb b'A' c && leb c b'Z'

abbrev pub is_alnum : ℕ → Bool
is_alnum c = is_digit c || (is_lower c || is_upper c)

-- `first` once, then `rest` between `low` and `high` times
abbrev pub first_rest : (ℕ → Bool) → (ℕ → Bool) → ℕ → ℕ → String → Bool
first_rest first rest low high String.[] = false
first_rest first rest low high (String.◌∷◌ c s) =
    first (code c) && (all_chars rest s && (leb low (size s) && leb (size s) high))

-- [A-Za-z0-9._-]
abbrev pub is_version_char : ℕ → Bool
is_version_char c = is_alnum c || (nat_beq c b'.' || (nat_beq c b'_' || nat_beq c b'-'))

-- ^[A-Za-z0-9][A-Za-z0-9._-]{0,63}$
unfoldable pub is_version : String → Bool
is_version s = first_rest is_alnum is_version_char 0 63 s

abbrev pub is_slug_first : ℕ → Bool
is_slug_first c = is_lower c || is_digit c

-- [a-z0-9-]
abbrev pub is_slug_char : ℕ → Bool
is_slug_char c = is_lower c || (is_digit c || nat_beq c b'-')

-- ^[a-z0-9][a-z0-9-]{1,high}$
unfoldable pub is_slug : ℕ → String → Bool
is_slug high s = first_rest is_slug_first is_slug_char 1 high s

-- [a-f0-9]
abbrev pub is_hex_char : ℕ → Bool
is_hex_char c = is_digit c || (leb b'a' c && leb c b'f')

-- ^[a-f0-9]{64}$
unfoldable pub is_hex64 : String → Bool
is_hex64 s = all_chars is_hex_char s && nat_beq (size s) 64

abbrev pub is_prefix : String → String → Bool
is_prefix String.[] t = true
is_prefix (String.◌∷◌ c s) String.[] = false
is_prefix (String.◌∷◌ c s) (String.◌∷◌ d t) = nat_beq (code c) (code d) && is_prefix s t

-- `s in t`
abbrev pub contains : String → String → Bool
contains s String.[] = is_prefix s String.[]
contains s (String.◌∷◌ c t) = is_prefix s (String.◌∷◌ c t) || contains s t
