-- ===== src/Prelude/Rendering.antt =====
-- Python's `str.join` and `str` of an integer, and that what is joined can be told apart again.
use Prim.Native.Nat.{ℕ, zero, suc, ◌+◌, ◌-◌, ◌*◌, ◌/◌, ◌%◌, ◌<◌, ◌≤◌}
use Prim.Native.Char.{Char, code, char}
use Prim.Native.String.{String, ◌++◌}
use mathlib.Core.Path.{◌≡◌, refl, sym, ◌∙◌, ap}
use mathlib.Core.Logic.{inl, inr}
use mathlib.Core.Bool.{Bool, true, false, not}
use mathlib.Core.List.{List, [], ◌∷◌}
use native.Mathlib.Omega.{arith}
use text.Mathlib.TextLemmas.{nil-append, cons-append}
use oncall.Prelude.Tests.{ltb, nat_beq, if◌then◌else◌, Bool-cases}
use oncall.Prelude.Patterns.{all_chars, size, take_chars}

-- `sep.join(parts)`
abbrev pub join : String → List String → String
join sep [] = ""
join sep (s ∷ []) = s
join sep (s ∷ (t ∷ rest)) = s ++ (sep ++ join sep (t ∷ rest))

abbrev pub is_not_colon : ℕ → Bool
is_not_colon c = not (nat_beq c b':')

-- `":" not in s`
abbrev pub lacks_colon : String → Bool
lacks_colon s = all_chars is_not_colon s

abbrev after_colon : String → String
after_colon t = String.◌∷◌ (char b':' tt) t

colon-append : (t : String) → ":" ++ t ≡ after_colon t
colon-append t = rw (cons-append, nil-append) refl

lacks_colon-append : (s t : String) → lacks_colon (s ++ after_colon t) ≡ false
lacks_colon-append String.[] t = rw (nil-append) refl
lacks_colon-append (String.◌∷◌ c s) t = rw (cons-append) (ground (arith, lacks_colon-append s t))

abbrev first_code : String → ℕ
first_code String.[] = 0
first_code (String.◌∷◌ c s) = code c

lacks_colon-first_code : (s : String) → lacks_colon s ≡ true → first_code s ≡ b':' → ⊥
lacks_colon-first_code String.[] h e = absurd (omega arith)
lacks_colon-first_code (String.◌∷◌ c s) h e = absurd (ground arith)

first_split :
    (s s' t t' : String)
    → lacks_colon s ≡ true
    → lacks_colon s' ≡ true
    → s ++ after_colon t ≡ s' ++ after_colon t'
    → (s ≡ s') × (t ≡ t')
first_split String.[] String.[] t t' h h' e =
    (let e' = rw (nil-append (after_colon t), nil-append (after_colon t')) at e in ground arith)
first_split String.[] (String.◌∷◌ c s') t t' h h' e = absurd (
    lacks_colon-first_code (String.◌∷◌ c s') h'
      (sym (ap first_code (rw (nil-append, cons-append) at e))))
first_split (String.◌∷◌ c s) String.[] t t' h h' e =
    absurd (
      lacks_colon-first_code (String.◌∷◌ c s) h (ap first_code (rw (nil-append, cons-append) at e)))
first_split (String.◌∷◌ c s) (String.◌∷◌ c' s') t t' h h' e =
    (let e' = rw (cons-append c s _, cons-append c' s' _) at e in
      ground (arith, first_split s s' t t'))

last_split :
    (s s' t t' : String)
    → lacks_colon t ≡ true
    → lacks_colon t' ≡ true
    → s ++ after_colon t ≡ s' ++ after_colon t'
    → (s ≡ s') × (t ≡ t')
last_split String.[] String.[] t t' h h' e =
    (let e' = rw (nil-append (after_colon t), nil-append (after_colon t')) at e in ground arith)
last_split String.[] (String.◌∷◌ c s') t t' h h' e =
    (let e' = rw (nil-append, cons-append) at e in
      absurd (ground (arith, lacks_colon-append s' t')))
last_split (String.◌∷◌ c s) String.[] t t' h h' e =
    (let e' = rw (nil-append, cons-append) at e in absurd (ground (arith, lacks_colon-append s t)))
last_split (String.◌∷◌ c s) (String.◌∷◌ c' s') t t' h h' e =
    (let e' = rw (cons-append c s _, cons-append c' s' _) at e in
      ground (arith, last_split s s' t t'))

-- What stands before the first colon is determined.
pub first_part_inj :
    (s s' t t' : String)
    → lacks_colon s ≡ true
    → lacks_colon s' ≡ true
    → s ++ (":" ++ t) ≡ s' ++ (":" ++ t')
    → (s ≡ s') × (t ≡ t')
first_part_inj s s' t t' h h' e =
    first_split s s' t t' h h' (rw (colon-append t, colon-append t') at e)

-- What stands after the last colon is determined.
pub last_part_inj :
    (s s' t t' : String)
    → lacks_colon t ≡ true
    → lacks_colon t' ≡ true
    → s ++ (":" ++ t) ≡ s' ++ (":" ++ t')
    → (s ≡ s') × (t ≡ t')
last_part_inj s s' t t' h h' e =
    last_split s s' t t' h h' (rw (colon-append t, colon-append t') at e)

abbrev digit : ℕ → Char
digit zero = char b'0' tt
digit (suc zero) = char b'1' tt
digit (suc (suc zero)) = char b'2' tt
digit (suc (suc (suc zero))) = char b'3' tt
digit (suc (suc (suc (suc zero)))) = char b'4' tt
digit (suc (suc (suc (suc (suc zero))))) = char b'5' tt
digit (suc (suc (suc (suc (suc (suc zero)))))) = char b'6' tt
digit (suc (suc (suc (suc (suc (suc (suc zero))))))) = char b'7' tt
digit (suc (suc (suc (suc (suc (suc (suc (suc zero)))))))) = char b'8' tt
digit (suc (suc (suc (suc (suc (suc (suc (suc (suc _))))))))) = char b'9' tt

-- the digits of `n` before `out`
unfoldable digits : ℕ → ℕ → String → String
digits zero n out = out
digits (suc fuel) n out =
    let rest = digits fuel (n / 10) (String.◌∷◌ (digit (n % 10)) out) in
    if ltb n 10 then String.◌∷◌ (digit n) out else rest

-- `str(n)` of a number that is not negative
unfoldable pub decimal : ℕ → String
unfolding digits
decimal n = digits (suc n) n ""

code-digit : (d : ℕ) → d < 10 → code (digit d) ≡ 48 + d
code-digit zero h = refl
code-digit (suc zero) h = refl
code-digit (suc (suc zero)) h = refl
code-digit (suc (suc (suc zero))) h = refl
code-digit (suc (suc (suc (suc zero)))) h = refl
code-digit (suc (suc (suc (suc (suc zero))))) h = refl
code-digit (suc (suc (suc (suc (suc (suc zero)))))) h = refl
code-digit (suc (suc (suc (suc (suc (suc (suc zero))))))) h = refl
code-digit (suc (suc (suc (suc (suc (suc (suc (suc zero)))))))) h = refl
code-digit (suc (suc (suc (suc (suc (suc (suc (suc (suc zero))))))))) h = refl
code-digit (suc (suc (suc (suc (suc (suc (suc (suc (suc (suc d)))))))))) h = absurd (omega arith)

-- the number that the digits in the text give after `acc`
abbrev read : ℕ → String → ℕ
read acc String.[] = acc
read acc (String.◌∷◌ c s) = read (acc * 10 + (code c - 48)) s

read-digit :
    (acc d : ℕ) (out : String)
    → d < 10
    → read acc (String.◌∷◌ (digit d) out) ≡ read (acc * 10 + d) out
read-digit acc d out h = rw (code-digit d h) (ap (λ v. read (acc * 10 + v) out) (omega arith))

read-digits : (fuel n : ℕ) (out : String) → n < fuel → read 0 (digits fuel n out) ≡ read n out
unfolding digits
read-digits zero n out h = absurd (omega arith)
read-digits (suc fuel) n out h = elim (Bool-cases (ltb n 10)) [
  | inl e ↦ rw (e) (read-digit 0 n out (ground arith) ∙ ap (λ v. read v out) (omega arith))
  | inr e ↦ rw (e) (
      read-digits fuel (n / 10) _ (ground arith)
      ∙ read-digit (n / 10) (n % 10) out (omega arith)
      ∙ ap (λ v. read v out) (omega arith))
]

pub decimal_inj : (n m : ℕ) → decimal n ≡ decimal m → n ≡ m
unfolding decimal
decimal_inj n m e =
    sym (read-digits (suc n) n "" (omega arith))
    ∙ ap (read 0) e
    ∙ read-digits (suc m) m "" (omega arith)

digit-lacks_colon :
    (d : ℕ) (out : String)
    → d < 10
    → lacks_colon out ≡ true
    → lacks_colon (String.◌∷◌ (digit d) out) ≡ true
digit-lacks_colon d out h rest = ground (arith, code-digit d h)

lacks_colon-digits :
    (fuel n : ℕ) (out : String) → lacks_colon out ≡ true → lacks_colon (digits fuel n out) ≡ true
unfolding digits
lacks_colon-digits zero n out h = h
lacks_colon-digits (suc fuel) n out h = elim (Bool-cases (ltb n 10)) [
  | inl e ↦ rw (e) (digit-lacks_colon n out (ground arith) h)
  | inr e ↦
      rw (e) (lacks_colon-digits fuel (n / 10) _ (digit-lacks_colon (n % 10) out (omega arith) h))
]

pub decimal-lacks_colon : (n : ℕ) → lacks_colon (decimal n) ≡ true
unfolding decimal
decimal-lacks_colon n = lacks_colon-digits (suc n) n "" refl

pub size-take_chars : (n : ℕ) (s : String) → size (take_chars n s) ≤ n
size-take_chars zero s = omega arith
size-take_chars (suc n) String.[] = omega arith
size-take_chars (suc n) (String.◌∷◌ c s) = omega (arith, size-take_chars n s)

pub size-append : (s t : String) → size (s ++ t) ≡ size s + size t
size-append String.[] t = rw (nil-append) (omega arith)
size-append (String.◌∷◌ c s) t = rw (cons-append) (omega (arith, size-append s t))

size-digits : (fuel n : ℕ) (out : String) → size out ≤ size (digits fuel n out)
unfolding digits
size-digits zero n out = omega arith
size-digits (suc fuel) n out = elim (Bool-cases (ltb n 10)) [
  | inl e ↦ rw (e) (omega arith)
  | inr e ↦ rw (e) (omega (arith, size-digits fuel (n / 10) (String.◌∷◌ (digit (n % 10)) out)))
]

pub size-decimal : (n : ℕ) → 1 ≤ size (decimal n)
unfolding decimal digits
size-decimal n = elim (Bool-cases (ltb n 10)) [
  | inl e ↦ rw (e) (omega arith)
  | inr e ↦ rw (e) (omega (arith, size-digits n (n / 10) (String.◌∷◌ (digit (n % 10)) "")))
]
