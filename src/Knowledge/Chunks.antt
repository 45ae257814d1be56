-- ===== src/Knowledge/Chunks.antt =====
-- What `chunk_markdown` of src/oncall/rag/chunking.py returns, and when it does.
use oncall.Knowledge.Sections.{sections_of, Section}
use oncall.Knowledge.Documents.{
  Document, chunk_markdown, ChunkError, KnowledgeChunk, ProjectKnowledgeDefaults, bad_sizes,
  chunk_of, chunk_parts, chunk_sections, document_of, invalid_chunk, is_chunk, is_chunk_size,
  parts_of,
}
use native.Mathlib.Decide.{dec_lt}
use oncall.Knowledge.Windows.{
  IsTiling, char_end-ge, char_start-le, nth-of-length, section_windows, section_windows-IsTiling,
}
use oncall.Knowledge.Tokens.{token_spans}
use oncall.Knowledge.Chunking.{Window, pieces, split_large_section, window_text, slice}
use oncall.Prelude.{
  ℕ, >>=-Ran, All, Bool-cases, List, String, [], arith, count, inl, inr, leb, length, ok,
  ok-injective, ran, refl, strip, subst, suc, true, ◌+◌, ◌-◌, ◌<◌, ◌∷◌, ◌≡◌, ◌≤◌, All-append,
  Option, Outcome-cases, ap, false, if◌then◌else◌, nat_eq, raised, string_eq, ◌==◌, ◌∙◌, ◌⊎◌,
}

-- The tokens that a window has.
abbrev IsProper : ℕ → Window → Type 0
IsProper count w = (w.first < w.last) × (w.last ≤ count)

IsTiling-IsProper :
    (max_tokens overlap_tokens count start : ℕ) (ws : List Window)
    → 0 < max_tokens
    → IsTiling max_tokens overlap_tokens count start ws
    → All (IsProper count) ws
IsTiling-IsProper max_tokens overlap_tokens count start [] p t = absurd t
IsTiling-IsProper max_tokens overlap_tokens count start (w ∷ []) p t =
    ((omega (arith, t.0, t.1, t.2), omega (arith, t.1)), tt)
IsTiling-IsProper max_tokens overlap_tokens count start (w ∷ (v ∷ ws)) p t = (
  (omega (arith, t.0, t.1), omega (arith, t.1, t.2)),
  IsTiling-IsProper max_tokens overlap_tokens count (start + max_tokens - overlap_tokens) (v ∷ ws) p
      t.3,
)

window_text-Returns :
    (s : String) (w : Window)
    → IsProper (length (token_spans s)) w
    → (raw : String) × (window_text s (token_spans s) w ≡ ok raw)
unfolding window_text
window_text-Returns s w (some_token, fits) =
    let (t, last) = nth-of-length (w.last - 1) (token_spans s) (omega arith) in
    let (a, start, _) = char_start-le s w.first (w.last - 1) {t = t} last (omega arith) in
    let (b, stop, _, _) = char_end-ge s w.last (w.last - 1) {t = t} last (omega arith) fits in
    (slice s a b, rw (start, stop) refl)

abbrev kept : String → List String → List String
kept chunk rest = if chunk == "" then rest else chunk ∷ rest

pieces-Returns :
    (s : String) (ws : List Window)
    → All (IsProper (length (token_spans s))) ws
    → (parts : List String) × (pieces s (token_spans s) ws ≡ ok parts)
unfolding pieces
pieces-Returns s [] h = ([], refl)
pieces-Returns s (w ∷ ws) (here, there) =
    let (raw, e) = window_text-Returns s w here in
    let (parts, f) = pieces-Returns s ws there in (kept (strip raw) parts, rw (e, f) refl)

-- With sizes that `chunk_markdown` lets through, every text is cut: no token is asked for that is
-- not there.
pub split_large_section-Returns :
    (s : String) (max_tokens overlap_tokens : ℕ)
    → overlap_tokens < max_tokens
    → (parts : List String) × (split_large_section s max_tokens overlap_tokens ≡ ok parts)
unfolding split_large_section
split_large_section-Returns s max_tokens overlap_tokens o =
    elim (Bool-cases (leb (length (token_spans s)) max_tokens)) [
      | inl e ↦ (strip s ∷ [], rw (split_large_section, e) refl)
      | inr e ↦
          let tiling = section_windows-IsTiling s max_tokens overlap_tokens o (ground arith) in
          let (parts, f) = pieces-Returns s (section_windows s max_tokens overlap_tokens) (
            IsTiling-IsProper max_tokens overlap_tokens (length (token_spans s)) 0 _ (omega arith)
              tiling) in
          (parts, rw (split_large_section, e) f)
    ]

-- What a chunk keeps of its file.
abbrev pub IsChunkOf : Document → KnowledgeChunk → Type 0
IsChunkOf d c =
    (c.project_id ≡ d.project_id)
    × (c.document_id ≡ d.document_id)
    × (c.source_path ≡ d.source_path)
    × (c.title ≡ d.title)
    × (c.review_status ≡ d.review_status)
    × (is_chunk c ≡ true)

module _ (stem without_suffix sha256 : String → String) (d : Document) where
  chunk_parts-IsChunkOf :
      (s : Section) (number : ℕ) (parts : List String) (cs : List KnowledgeChunk)
      → chunk_parts stem without_suffix sha256 d s number parts ≡ ok cs
      → All (IsChunkOf d) cs
  unfolding chunk_parts
  chunk_parts-IsChunkOf s number [] cs h = subst (All (IsChunkOf d)) (ok-injective h) tt
  chunk_parts-IsChunkOf s number (p ∷ ps) cs h =
      let c = chunk_of stem without_suffix sha256 d s number p in
      elim (Bool-cases (is_chunk c)) [
        | inl v ↦
            let h' = rw (chunk_parts, v) at h in
            elim (>>=-Ran (chunk_parts stem without_suffix sha256 d s (suc number) ps) _ h') [
              | ran rest h1 h2 ↦ subst (All (IsChunkOf d)) (ok-injective h2) (
                (refl, refl, refl, refl, refl, v),
                chunk_parts-IsChunkOf s (suc number) ps rest h1,
              )
            ]
        | inr v ↦ absurd (let h' = rw (chunk_parts, v) at h in cc)
      ]

  chunk_parts-raised :
      (s : Section) (number : ℕ) (parts : List String) (e : ChunkError)
      → chunk_parts stem without_suffix sha256 d s number parts ≡ raised e
      → e ≡ invalid_chunk
  unfolding chunk_parts
  chunk_parts-raised s number [] e h = absurd (cc)
  chunk_parts-raised s number (p ∷ ps) e h =
      elim (Bool-cases (is_chunk (chunk_of stem without_suffix sha256 d s number p))) [
        | inr v ↦ (let h' = rw (chunk_parts, v) at h in cc)
        | inl v ↦
            let h' = rw (chunk_parts, v) at h in
            elim (Outcome-cases (chunk_parts stem without_suffix sha256 d s (suc number) ps)) [
              | inr (f, c) ↦ chunk_parts-raised s (suc number) ps e (c ∙ (rw c at h'))
              | inl (rest, c) ↦ absurd (let h'' = rw c at h' in cc)
            ]
      ]

  chunk_sections-IsChunkOf :
      (max_tokens overlap_tokens : ℕ) (ss : List Section) (cs : List KnowledgeChunk)
      → chunk_sections stem without_suffix sha256 max_tokens overlap_tokens d ss ≡ ok cs
      → All (IsChunkOf d) cs
  unfolding chunk_sections
  chunk_sections-IsChunkOf max_tokens overlap_tokens [] cs h =
      subst (All (IsChunkOf d)) (ok-injective h) tt
  chunk_sections-IsChunkOf max_tokens overlap_tokens (s ∷ ss) cs h =
      elim (>>=-Ran (parts_of (split_large_section s.body max_tokens overlap_tokens)) _ h) [
        | ran parts h1 k1 ↦
            elim (>>=-Ran (chunk_parts stem without_suffix sha256 d s 1 parts) _ k1) [
              | ran here h2 k2 ↦
                  elim (>>=-Ran
                    (chunk_sections stem without_suffix sha256 max_tokens overlap_tokens d ss) _
                    k2) [
                      | ran there h3 k3 ↦ subst (All (IsChunkOf d)) (ok-injective k3) (
                          All-append (IsChunkOf d) here there
                            (chunk_parts-IsChunkOf s 1 parts here h2)
                            (chunk_sections-IsChunkOf max_tokens overlap_tokens ss there h3))
                    ]
            ]
      ]

  chunk_sections-raised :
      (max_tokens overlap_tokens : ℕ) (ss : List Section) (e : ChunkError)
      → overlap_tokens < max_tokens
      → chunk_sections stem without_suffix sha256 max_tokens overlap_tokens d ss ≡ raised e
      → e ≡ invalid_chunk
  unfolding chunk_sections
  chunk_sections-raised max_tokens overlap_tokens [] e o h = absurd (cc)
  chunk_sections-raised max_tokens overlap_tokens (s ∷ ss) e o h =
      let (parts, cut) = split_large_section-Returns s.body max_tokens overlap_tokens o in
      let h' = rw (chunk_sections, cut) at h in
      elim (Outcome-cases (chunk_parts stem without_suffix sha256 d s 1 parts)) [
        | inr (f, c) ↦ chunk_parts-raised s 1 parts e (c ∙ (rw c at h'))
        | inl (here, c) ↦
            let h'' = rw c at h' in
            elim (Outcome-cases
              (chunk_sections stem without_suffix sha256 max_tokens overlap_tokens d ss)) [
                | inr (f, m) ↦
                    chunk_sections-raised max_tokens overlap_tokens ss e o (m ∙ (rw m at h''))
                | inl (there, m) ↦ absurd (let h3 = rw m at h'' in cc)
              ]
      ]

module _ (stem without_suffix sha256 : String → String) where
  -- `chunk_markdown` returns chunks, all valid and of the given project, file and document with its
  -- title and review status; or it raises, for sizes that are not 0 <= overlap_tokens < max_tokens,
  -- else for a chunk that is not valid. It never runs past a token.
  pub chunk_markdown_lem :
      (project_id source_path markdown : String) (metadata : String → Option String)
      (defaults : ProjectKnowledgeDefaults) (max_tokens overlap_tokens : ℕ)
      → let r =
          chunk_markdown stem without_suffix sha256 project_id source_path markdown metadata
            defaults max_tokens overlap_tokens in
        let d =
          document_of stem without_suffix sha256 project_id source_path markdown metadata
            defaults in
        ((max_tokens ≤ overlap_tokens) × (r ≡ raised bad_sizes))
        ⊎ ((overlap_tokens < max_tokens) × (r ≡ raised invalid_chunk))
        ⊎ ((overlap_tokens < max_tokens)
            × ((cs : List KnowledgeChunk) × (r ≡ ok cs) × All (IsChunkOf d) cs))
  unfolding chunk_markdown
  chunk_markdown_lem project_id source_path markdown metadata defaults max_tokens overlap_tokens =
      let d =
        document_of stem without_suffix sha256 project_id source_path markdown metadata defaults in
      let chunks =
        chunk_sections stem without_suffix sha256 max_tokens overlap_tokens d
          (sections_of markdown d.title) in
      elim (dec_lt overlap_tokens max_tokens) [
        | no h ↦
            let bad : is_chunk_size max_tokens overlap_tokens ≡ false = ground arith in
            inl (omega arith, rw (chunk_markdown, bad) refl)
        | yes h ↦
            let good : is_chunk_size max_tokens overlap_tokens ≡ true = ground arith in
            elim (Outcome-cases chunks) [
              | inr (e, c) ↦ inr (
                  inl (
                    h,
                    rw (chunk_markdown, good)
                        (c
                          ∙ ap (λ x. raised x)
                              (chunk_sections-raised stem without_suffix sha256 d max_tokens
                                overlap_tokens (sections_of markdown d.title) e h c)),
                  ))
              | inl (cs, c) ↦ inr (
                  inr (
                    h,
                    (
                      cs,
                      rw (chunk_markdown, good) c,
                      chunk_sections-IsChunkOf stem without_suffix sha256 d max_tokens
                          overlap_tokens (sections_of markdown d.title) cs c,
                    ),
                  ))
            ]
      ]
