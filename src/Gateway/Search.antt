-- ===== src/Gateway/Search.antt =====
-- A request cannot leave the quotes of the CLS query: `_call_cls_logs` of
-- src/oncall/mcp_gateway/client.py with `QueryLogsRequest` of src/oncall/mcp_gateway/schemas.py.
use oncall.Gateway.{is_valid_query, QueryLogsRequest}
use oncall.Gateway.Logs.{cql, LogsPlatform, name_of, quoted}
use Prim.Native.Char.{code}
use oncall.Prelude.{
  ℕ, Bool, Bool-cases, List, String, [], all, all_chars, and_true, arith, eq_iff, first_rest, inl,
  inr, is_lower, is_slug, is_slug_char, join, leb, length, ltb, map, nat_beq, nat_eq, not, refl,
  size, string_eq, true, ◌&&◌, ◌-◌, ◌==◌, ◌||◌, ◌∷◌, ◌≡◌,
}
use oncall.Json.{Fields}

abbrev pub is_not_quote : ℕ → Bool
is_not_quote c = not (nat_beq c b'"')

all_chars_weaker :
    (p r : ℕ → Bool) (s : String)
    → ((c : ℕ) → p c ≡ true → r c ≡ true)
    → all_chars p s ≡ true
    → all_chars r s ≡ true
all_chars_weaker p r String.[] w h = refl
all_chars_weaker p r (String.◌∷◌ c s) w h =
    let (here, there) = and_true (p (code c)) (all_chars p s) h in
    rw (w (code c) here) (all_chars_weaker p r s w there)

abbrev pub lacks_quote : String → Bool
lacks_quote = all_chars is_not_quote

slug_char_lem : (c : ℕ) → is_slug_char c ≡ true → is_not_quote c ≡ true
slug_char_lem c h = ground arith

scope_name-lacks_quote :
    (high : ℕ) (s : String)
    → first_rest is_lower is_slug_char 1 high s ≡ true
    → lacks_quote s ≡ true
scope_name-lacks_quote high String.[] h = refl
scope_name-lacks_quote high (String.◌∷◌ c s) h =
    let (lower, rest) =
      and_true (is_lower (code c))
        (all_chars is_slug_char s && (leb 1 (size s) && leb (size s) high)) h in
    let (slug, _) =
      and_true (all_chars is_slug_char s) (leb 1 (size s) && leb (size s) high) rest in
    let first : is_not_quote (code c) ≡ true = ground arith in
    rw first (all_chars_weaker is_slug_char is_not_quote s slug_char_lem slug)

abbrev is_level : String → Bool
is_level l = l == "ERROR" || (l == "WARNING" || l == "INFO")

level-lacks_quote : (l : String) → is_level l ≡ true → lacks_quote l ≡ true
level-lacks_quote l h = elim (Bool-cases (l == "ERROR")) [
  | inl e ↦ rw ((eq_iff l "ERROR").0 e) refl
  | inr e ↦ elim (Bool-cases (l == "WARNING")) [
    | inl f ↦ rw ((eq_iff l "WARNING").0 f) refl
    | inr f ↦ (let g : (l == "INFO") ≡ true = ground arith in rw ((eq_iff l "INFO").0 g) refl)
  ]
]

levels-lack_quotes : (ls : List String) → all is_level ls ≡ true → all lacks_quote ls ≡ true
levels-lack_quotes [] h = refl
levels-lack_quotes (l ∷ ls) h =
    let (here, there) = and_true (is_level l) (all is_level ls) h in
    rw (level-lacks_quote l here) (levels-lack_quotes ls there)

-- The query of a valid request is the configured fields compared with quoted values, and no value
-- holds a quote: what a model asks for stays inside the quotes.
pub cql-IsQuoted :
    (os : LogsPlatform) (names : Fields) (q : QueryLogsRequest)
    → is_valid_query q ≡ true
    → (cql os names q
        ≡ join "" (
            name_of os "service" "service" names
            ∷ "="
            ∷ quoted q.service
            ∷ " AND "
            ∷ name_of os "level" "level" names
            ∷ " IN ("
            ∷ join "," (map quoted q.levels)
            ∷ ")"
            ∷ []))
      × (lacks_quote q.service ≡ true)
      × (all lacks_quote q.levels ≡ true)
unfolding cql is_valid_query
cql-IsQuoted os names q h =
    let (_, a) = and_true (is_slug 63 q.project_id) _ h in
    let (_, b) = and_true (first_rest is_lower is_slug_char 1 31 q.environment) _ a in
    let (service, c) = and_true (first_rest is_lower is_slug_char 1 63 q.service) _ b in
    let (_, d) = and_true (ltb q.start_time q.end_time) _ c in
    let (_, e) = and_true (leb (q.end_time - q.start_time) 86400000) _ d in
    let (_, f) = and_true (leb 1 q.limit) _ e in
    let (_, g) = and_true (leb q.limit 100) _ f in
    let (_, levels) = and_true (leb 1 (length q.levels)) (all is_level q.levels) g in
    (refl, scope_name-lacks_quote 63 q.service service, levels-lack_quotes q.levels levels)
