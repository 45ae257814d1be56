-- ===== src/Learning/Material.antt =====
-- The material of a skill candidate: the first functions of src/oncall/skills/evolution.py and the
-- manifest of src/oncall/skills/schemas.py.
use oncall.Learning.{Version}
use Prim.Native.Char.{Char, code, char}
use Prim.Native.String.{◌++◌}
use oncall.Prelude.{
  ℕ, String, Bool, Option, false, first_rest, if◌then◌else◌, is_digit, is_lower, nat_beq, none,
  some, suc, true, ◌||◌, take_chars,
}

-- [^a-z0-9]+ becomes one "_": `open_run` says that the text before ended with the "_" of a run.
abbrev pub joined : Bool → String → String
joined open_run String.[] = String.[]
joined open_run (String.◌∷◌ c s) =
    let same_run = joined true s in
    let after = joined false s in
    if is_lower (code c) || is_digit (code c)
    then String.◌∷◌ c after
    else if open_run
    then same_run
    else String.◌∷◌ (char b'_' tt) same_run

abbrev pub drop_underscores : String → String
drop_underscores String.[] = String.[]
drop_underscores (String.◌∷◌ c s) =
    let rest = drop_underscores s in if nat_beq (code c) b'_' then rest else String.◌∷◌ c s

-- `c` before what is left of the rest
abbrev pub keep_before : Char → String → String
keep_before c String.[] = if nat_beq (code c) b'_' then String.[] else String.◌∷◌ c String.[]
keep_before c (String.◌∷◌ d t) = String.◌∷◌ c (String.◌∷◌ d t)

-- `s.rstrip("_")`
abbrev pub rstrip_underscores : String → String
rstrip_underscores String.[] = String.[]
rstrip_underscores (String.◌∷◌ c s) = keep_before c (rstrip_underscores s)

-- `s or default`
abbrev pub or_default : String → String → String
or_default String.[] d = d
or_default (String.◌∷◌ c s) d = String.◌∷◌ c s

-- `normalized`, of the service's name in lower case
abbrev pub normalized : String → String
normalized service =
    or_default (take_chars 44 (rstrip_underscores (drop_underscores (joined false service))))
      "service"

-- `learned_skill_name`; `lower` is `str.lower`.
unfoldable pub learned_skill_name : (String → String) → String → String
learned_skill_name lower service = "learned_" ++ (normalized (lower service) ++ "_recovery")

-- `next_patch_version`
abbrev pub next_patch_version : Option Version → Version
next_patch_version none = record { major = 1; minor = 0; patch = 0 }
next_patch_version (some v) = record v { patch = suc v.patch }

-- [a-z0-9_]
abbrev pub is_name_char : ℕ → Bool
is_name_char c = is_lower c || (is_digit c || nat_beq c b'_')

-- ^[a-z][a-z0-9_]{2,63}$
unfoldable pub is_skill_name : String → Bool
is_skill_name s = first_rest is_lower is_name_char 2 63 s
