-- ===== src/Knowledge/Documents.antt =====
-- The chunks of a Markdown file: `chunk_markdown` of src/oncall/rag/chunking.py, with
-- `KnowledgeChunk` of src/oncall/rag/schemas.py. Paths and SHA-256 are parameters.
use oncall.Knowledge.Sections.{Section, sections_of, heading}
use oncall.Knowledge.Chunking.{split_large_section, IndexError, splitlines}
use Prim.Native.Char.{code, char}
use oncall.Prelude.{
  ℕ, Bool, List, Option, Outcome, String, [], any, decimal, first_rest, if◌then◌else◌, is_alnum,
  is_version_char, join, leb, ltb, nat_beq, nat_eq, none, not, ok, raised, size, some, string_eq,
  suc, ◌&&◌, ◌++◌, ◌==◌, ◌>>=◌, ◌∷◌,
}

pub record KnowledgeChunk : Type 0 where
  pub chunk_id : String
  pub project_id : String
  pub document_id : String
  pub document_type : String
  pub service : String
  pub environment : String
  pub title : String
  pub section_path : String
  pub content : String
  pub source_path : String
  pub version : String
  pub review_status : String

pub record ProjectKnowledgeDefaults : Type 0 where
  pub document_type : String
  pub service : String
  pub environment : String
  pub version : String
  pub review_status : String

-- The `ValueError` of the sizes, the `ValidationError` of a chunk, and `IndexError`.
pub data ChunkError : Type 0 where
  bad_sizes invalid_chunk span_index_error : ChunkError

abbrev is_within : ℕ → ℕ → String → Bool
is_within low high s = leb low (size s) && leb (size s) high

-- `KnowledgeChunk(...)` is valid.
unfoldable pub is_chunk : KnowledgeChunk → Bool
is_chunk c =
    nat_beq (size c.chunk_id) 64
    && (first_rest is_alnum is_version_char 0 127 c.project_id
        && (is_within 1 256 c.document_id
            && (is_within 1 64 c.document_type
                && (is_within 0 128 c.service
                    && (is_within 0 64 c.environment
                        && (is_within 1 512 c.title
                            && (is_within 0 2048 c.section_path
                                && (is_within 1 65535 c.content
                                    && (is_within 1 2048 c.source_path
                                        && (is_within 1 64 c.version
                                            && any (λ s. c.review_status == s)
                                                ("approved" ∷ "draft" ∷ "rejected" ∷ [])))))))))))

-- `a or b`
abbrev or_text : Option String → String → String
or_text none d = d
or_text (some s) d = if s == "" then d else s

abbrev or_default : Option String → String → String
or_default none d = d
or_default (some s) d = s

-- `s.replace("-", " ")`
abbrev replace_dashes : String → String
replace_dashes String.[] = String.[]
replace_dashes (String.◌∷◌ c s) =
    String.◌∷◌ (if nat_beq (code c) b'-' then char b' ' tt else c) (replace_dashes s)

-- the title of the first heading
abbrev first_title : List String → Option String
first_title [] = none
first_title (line ∷ lines) = elim (heading line) [ none ↦ first_title lines | some h ↦ some h.1 ]

-- What the chunks of one file share.
pub record Document : Type 0 where
  pub project_id : String
  pub document_id : String
  pub title : String
  pub source_path : String
  pub document_type : String
  pub service : String
  pub environment : String
  pub version : String
  pub review_status : String

abbrev pub is_chunk_size : ℕ → ℕ → Bool
is_chunk_size max_tokens overlap_tokens = ltb 0 max_tokens && ltb overlap_tokens max_tokens

abbrev pub parts_of : Outcome IndexError (List String) → Outcome ChunkError (List String)
parts_of (raised e) = raised span_index_error
parts_of (ok parts) = ok parts

abbrev pub nul : String
nul = String.◌∷◌ (char 0 tt) String.[]

module _ (stem : String → String) (without_suffix : String → String)
    (sha256 : String → String) where
  -- `title`, `document_id` and `values`
  unfoldable pub document_of :
      String → String → String → (String → Option String) → ProjectKnowledgeDefaults → Document
  unfolding splitlines heading
  document_of project_id source_path markdown metadata defaults =
      let fallback = or_text (metadata "title") (replace_dashes (stem source_path)) in
      record {
        project_id = project_id;
        document_id =
            or_text (metadata "document_id")
              (join ":" (project_id ∷ without_suffix source_path ∷ []));
        title =
            or_text (metadata "title") (or_default (first_title (splitlines markdown)) fallback);
        source_path = source_path;
        document_type = or_default (metadata "document_type") defaults.document_type;
        service = or_default (metadata "service") defaults.service;
        environment = or_default (metadata "environment") defaults.environment;
        version = or_default (metadata "version") defaults.version;
        review_status = or_default (metadata "review_status") defaults.review_status;
      }

  -- The digest's text, and the chunk, of part `number` of a section.
  abbrev pub chunk_of : Document → Section → ℕ → String → KnowledgeChunk
  chunk_of d s number content =
      let section_path = join " > " s.path in
      record {
        chunk_id = sha256 (
            join nul (
              d.project_id
              ∷ d.document_id
              ∷ d.document_type
              ∷ d.service
              ∷ d.environment
              ∷ d.title
              ∷ d.version
              ∷ d.review_status
              ∷ d.source_path
              ∷ section_path
              ∷ decimal number
              ∷ content
              ∷ []));
        project_id = d.project_id;
        document_id = d.document_id;
        document_type = d.document_type;
        service = d.service;
        environment = d.environment;
        title = d.title;
        section_path = section_path;
        content = content;
        source_path = d.source_path;
        version = d.version;
        review_status = d.review_status;
      }

  -- `enumerate(parts, number)`
  unfoldable pub chunk_parts :
      Document → Section → ℕ → List String → Outcome ChunkError (List KnowledgeChunk)
  unfolding is_chunk decimal
  chunk_parts d s number [] = ok []
  chunk_parts d s number (content ∷ rest) = do
    chunk ← let c = chunk_of d s number content in if is_chunk c then ok c else raised invalid_chunk
    chunks ← chunk_parts d s (suc number) rest
    ok (chunk ∷ chunks)

  unfoldable pub chunk_sections :
      ℕ → ℕ → Document → List Section → Outcome ChunkError (List KnowledgeChunk)
  unfolding chunk_parts split_large_section
  chunk_sections max_tokens overlap_tokens d [] = ok []
  chunk_sections max_tokens overlap_tokens d (s ∷ rest) = do
    parts ← parts_of (split_large_section s.body max_tokens overlap_tokens)
    chunks ← chunk_parts d s 1 parts
    more ← chunk_sections max_tokens overlap_tokens d rest
    ok (chunks ++ more)

  unfoldable pub chunk_markdown :
      String
      → String
      → String
      → (String → Option String)
      → ProjectKnowledgeDefaults
      → ℕ
      → ℕ
      → Outcome ChunkError (List KnowledgeChunk)
  unfolding document_of chunk_sections sections_of
  chunk_markdown project_id source_path markdown metadata defaults max_tokens overlap_tokens =
      if not (is_chunk_size max_tokens overlap_tokens)
      then raised bad_sizes
      else let d = document_of project_id source_path markdown metadata defaults in
        chunk_sections max_tokens overlap_tokens d (sections_of markdown d.title)
