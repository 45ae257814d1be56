-- ===== src/Tests/Chunking.antt =====
-- The theorems on chunks at concrete inputs.
use oncall.Knowledge.Documents.{
  chunk_markdown, ProjectKnowledgeDefaults, ChunkError, KnowledgeChunk,
}
use oncall.Knowledge.Chunking.{nth, Window, slice, window_text}
use oncall.Knowledge.Windows.{IsTiling, section_windows, section_windows-IsTiling, token-in-window}
use oncall.Knowledge.Tokens.{TokenSpan, token_spans, spans_from}
use oncall.Prelude.{
  String, arith, length, refl, ◌≡◌, List, Outcome, [], map, none, ok, raised, size, some, ℕ, ◌∷◌,
  ◌≤◌,
}

abbrev runbook : String
runbook = "check disk/usage, then 重启 api-1"

tokens : length (token_spans runbook) ≡ 7
unfolding token_spans spans_from
tokens = refl

section_windows-IsTiling_example :
    IsTiling 3 1 (length (token_spans runbook)) 0 (section_windows runbook 3 1)
unfolding token_spans spans_from
section_windows-IsTiling_example = section_windows-IsTiling runbook 3 1 (omega arith) (omega arith)

abbrev fifth : TokenSpan
fifth = record { start = 23; end = 24 }

fifth_token : nth 4 (token_spans runbook) ≡ some fifth
unfolding token_spans spans_from
fifth_token = refl

token-in-window_example :
    (j : ℕ) × (w : Window) × (a : ℕ) × (b : ℕ) × (nth j (section_windows runbook 3 1) ≡ some w)
    × (window_text runbook (token_spans runbook) w ≡ ok (slice runbook a b))
    × (a ≤ fifth.start)
    × (fifth.end ≤ b)
    × (b ≤ size runbook)
unfolding token_spans spans_from
token-in-window_example =
    token-in-window runbook 3 1 4 fifth (omega arith) (omega arith) fifth_token

abbrev defaults : ProjectKnowledgeDefaults
defaults = record {
  document_type = "sop";
  service = "";
  environment = "";
  version = "1.0.0";
  review_status = "draft";
}

abbrev digest : String → String
digest s = "aaaaaaaaaaaaaaaaaaaaaaaaaaaaaaaaaaaaaaaaaaaaaaaaaaaaaaaaaaaaaaaa"

abbrev pages : Outcome ChunkError (List KnowledgeChunk)
pages =
    chunk_markdown (λ p. "disk-full") (λ p. "sop/disk-full") digest "shop" "sop/disk-full.md"
      "# Disk\n\n## Steps\ncheck disk/usage, then \n" (λ k. none) defaults 3 1

abbrev titles : Outcome ChunkError (List KnowledgeChunk) → List (String × String)
titles (raised e) = []
titles (ok cs) = map (λ (c : KnowledgeChunk). (c.section_path, c.content)) cs

-- The first section is its heading alone, the second is cut in two windows that share a token.
two_sections :
    titles pages
    ≡ ("Disk", "# Disk")
      ∷ ("Disk > Steps", "## Steps")
      ∷ ("Disk > Steps", "Steps\ncheck disk/usage")
      ∷ ("Disk > Steps", "disk/usage, then")
      ∷ []
unfolding chunk_markdown
two_sections = refl
