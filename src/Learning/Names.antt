-- ===== src/Learning/Names.antt =====
-- The names of learned skills, from src/oncall/skills/evolution.py, are well formed.
use oncall.Learning.Material.{
  learned_skill_name, drop_underscores, is_name_char, or_default, rstrip_underscores, joined,
  is_skill_name, keep_before, normalized,
}
use Prim.Native.String.{◌++◌}
use text.Mathlib.TextLemmas.{cons-append, nil-append}
use Prim.Native.Char.{Char, code, char}
use oncall.Prelude.{
  take_chars, ℕ, String, Bool, all_chars, arith, false, refl, size, suc, true, zero, ◌≡◌, ◌≤◌,
  and_true, is_lower, Bool-cases, inl, inr, nat_beq, size-append, size-take_chars,
}

abbrev IsName : String → Type 0
IsName s = all_chars is_name_char s ≡ true

joined-IsName : (open_run : Bool) (s : String) → IsName (joined open_run s)
joined-IsName open_run String.[] = refl
joined-IsName open_run (String.◌∷◌ c s) =
    ground (arith, joined-IsName true s, joined-IsName false s)

drop_underscores-IsName : (s : String) → IsName s → IsName (drop_underscores s)
drop_underscores-IsName String.[] h = refl
drop_underscores-IsName (String.◌∷◌ c s) h = ground (arith, drop_underscores-IsName s)

keep_before-IsName :
    (c : Char) (t : String) → is_name_char (code c) ≡ true → IsName t → IsName (keep_before c t)
keep_before-IsName c String.[] h h' = elim (Bool-cases (nat_beq (code c) b'_')) [
  | inl e ↦ rw (e) refl
  | inr e ↦ rw (e) (ground arith)
]
keep_before-IsName c (String.◌∷◌ d t) h h' = ground arith

rstrip_underscores-IsName : (s : String) → IsName s → IsName (rstrip_underscores s)
rstrip_underscores-IsName String.[] h = refl
rstrip_underscores-IsName (String.◌∷◌ c s) h =
    (let p = and_true _ _ h in
      keep_before-IsName c (rstrip_underscores s) p.0 (rstrip_underscores-IsName s p.1))

take_chars-IsName : (n : ℕ) (s : String) → IsName s → IsName (take_chars n s)
take_chars-IsName zero s h = refl
take_chars-IsName (suc n) String.[] h = refl
take_chars-IsName (suc n) (String.◌∷◌ c s) h = ground (arith, take_chars-IsName n s)

IsName-append : (s t : String) → IsName s → IsName t → IsName (s ++ t)
IsName-append String.[] t h h' = rw (nil-append) h'
IsName-append (String.◌∷◌ c s) t h h' = rw (cons-append) (ground (arith, IsName-append s t))

or_default-IsName : (s d : String) → IsName s → IsName d → IsName (or_default s d)
or_default-IsName String.[] d h h' = h'
or_default-IsName (String.◌∷◌ c s) d h h' = h

size-or_default : (s d : String) (n : ℕ) → size s ≤ n → size d ≤ n → size (or_default s d) ≤ n
size-or_default String.[] d n h h' = h'
size-or_default (String.◌∷◌ c s) d n h h' = h

is_skill_name-cons :
    (c : Char) (t : String)
    → is_lower (code c) ≡ true
    → IsName t
    → 2 ≤ size t
    → size t ≤ 63
    → is_skill_name (String.◌∷◌ c t) ≡ true
unfolding is_skill_name
is_skill_name-cons c t first rest low high = ground arith

normalized-IsName : (s : String) → IsName (normalized s)
normalized-IsName s =
    (let joined_s = joined false s in
      let dropped = drop_underscores joined_s in
      let stripped = rstrip_underscores dropped in
      or_default-IsName (take_chars 44 stripped) "service"
        (take_chars-IsName 44 stripped (
          rstrip_underscores-IsName dropped
            (drop_underscores-IsName joined_s (joined-IsName false s))))
        refl)

size-normalized : (s : String) → size (normalized s) ≤ 44
size-normalized s = size-or_default _ "service" 44 (size-take_chars 44 _) (omega arith)

-- Whatever the service's name, the skill's name fits the manifest's pattern: a lower case letter,
-- then letters, digits and underscores, of 64 characters at most.
pub learned_skill_name-IsSkillName :
    (lower : String → String) (service : String)
    → is_skill_name (learned_skill_name lower service) ≡ true
unfolding learned_skill_name
learned_skill_name-IsSkillName lower service =
    (let t = normalized (lower service) in
      rw (cons-append (char b'l' tt) "earned_") (
        is_skill_name-cons (char b'l' tt) ("earned_" ++ (t ++ "_recovery")) refl
          (IsName-append "earned_" (t ++ "_recovery") refl
            (IsName-append t "_recovery" (normalized-IsName (lower service)) refl))
          (omega (arith, size-append "earned_" (t ++ "_recovery"), size-append t "_recovery"))
          (omega (
            arith,
            size-normalized (lower service),
            size-append "earned_" (t ++ "_recovery"),
            size-append t "_recovery",
          ))))
