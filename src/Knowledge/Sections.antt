-- ===== src/Knowledge/Sections.antt =====
-- The sections of a Markdown file: `_sections` of src/oncall/rag/chunking.py.
use oncall.Knowledge.Chunking.{splitlines}
use oncall.Prelude.{
  ℕ, Bool, List, Option, String, [], false, if◌then◌else◌, is_space, join, leb, nat_beq, nat_eq,
  none, not, size, some, string_eq, strip, suc, take, ◌&&◌, ◌-◌, ◌==◌, ◌||◌, ◌∷◌, ◌++◌,
}
use Prim.Native.Char.{code}

pub record Section : Type 0 where
  pub path : List String
  pub body : String

abbrev leading_hashes : String → ℕ × String
leading_hashes String.[] = (0, String.[])
leading_hashes (String.◌∷◌ c s) =
    let rest = leading_hashes s in
    if nat_beq (code c) b'#' then (suc rest.0, rest.1) else (0, String.◌∷◌ c s)

abbrev begins_space : String → Bool
begins_space String.[] = false
begins_space (String.◌∷◌ c s) = is_space (code c)

-- `_HEADING.match`: the level and the stripped title. One space alone is taken by the separator.
unfoldable pub heading : String → Option (ℕ × String)
unfolding strip
heading line =
    let level = (leading_hashes line).0 in
    let rest = (leading_hashes line).1 in
    let title = strip rest in
    if leb 1 level
      && (leb level 6 && (begins_space rest && (not (title == "") || leb 2 (size rest))))
    then some (level, title)
    else none

-- The variables of `_sections`.
pub record Reading : Type 0 where
  pub headings : List String
  pub current_path : List String
  pub current_lines : List String
  pub sections : List Section

abbrev pub line_break : String
line_break = "\n"

unfoldable pub flush : Reading → List Section
unfolding strip
flush r =
    let body = strip (join line_break r.current_lines) in
    if body == ""
    then r.sections
    else r.sections ++ record { path = r.current_path; body = body } ∷ []

unfoldable pub read_line : Reading → String → Reading
unfolding heading flush
read_line r line = elim (heading line) [
  | none ↦ record r { current_lines = r.current_lines ++ line ∷ [] }
  | some h ↦
      let headings = take (h.0 - 1) r.headings ++ h.1 ∷ [] in
      record {
        headings = headings;
        current_path = headings;
        current_lines = line ∷ [];
        sections = flush r;
      }
]

unfoldable pub read_lines : Reading → List String → Reading
unfolding read_line
read_lines r [] = r
read_lines r (line ∷ lines) = read_lines (read_line r line) lines

abbrev pub first_reading : String → Reading
first_reading title = record {
  headings = [];
  current_path = title ∷ [];
  current_lines = [];
  sections = [];
}

-- `_sections`
unfoldable pub sections_of : String → String → List Section
unfolding read_lines flush splitlines
sections_of markdown fallback_title =
    flush (read_lines (first_reading fallback_title) (splitlines markdown))
