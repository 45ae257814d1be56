-- ===== src/Skills/Ranking.antt =====
-- What the registry holds and what it selects: src/oncall/skills/registry.py.
use oncall.Skills.Registry.{
  load, find_candidate_skills, load_packages, SkillDefinition, AlertFacts, Package,
  SkillRegistryError, is_candidate, is_definition, ranks_before, same_identity,
}
use oncall.Prelude.{
  ℕ, All, All-append, All-sort_by, Bool, Bool-cases, List, Option-cases, Outcome-cases, String, [],
  any, arith, eq_iff, false, inl, inr, length, length-sort_by, ok, ok-injective, raised, refl,
  select, sort_by, strip, subst, suc, sym, take, true, zero, ◌++◌, ◌+◌, ◌∙◌, ◌∷◌, ◌≡◌, ◌≤◌, ◌⊎◌,
  and_true, nat_eq, string_eq, ◌==◌,
}
use oncall.Json.{Value}

-- No two skills of a project have one name.
abbrev pub IsDistinct : List SkillDefinition → Type 0
IsDistinct [] = Unit
IsDistinct (s ∷ rest) =
    (any (same_identity s.project_id s.manifest.name) rest ≡ false) × IsDistinct rest

any-snoc :
    (t s : SkillDefinition) (xs : List SkillDefinition)
    → any (same_identity t.project_id t.manifest.name) xs ≡ false
    → same_identity s.project_id s.manifest.name t ≡ false
    → any (same_identity t.project_id t.manifest.name) (xs ++ s ∷ []) ≡ false
any-snoc t s [] h k = ground (
  arith,
  eq_iff t.project_id s.project_id,
  eq_iff s.project_id t.project_id,
  eq_iff t.manifest.name s.manifest.name,
  eq_iff s.manifest.name t.manifest.name,
)
any-snoc t s (x ∷ xs) h k = ground (arith, any-snoc t s xs)

snoc-IsDistinct :
    (s : SkillDefinition) (xs : List SkillDefinition)
    → IsDistinct xs
    → any (same_identity s.project_id s.manifest.name) xs ≡ false
    → IsDistinct (xs ++ s ∷ [])
snoc-IsDistinct s [] d h = (refl, tt)
snoc-IsDistinct s (x ∷ xs) d h =
    (any-snoc x s xs d.0 (ground arith), snoc-IsDistinct s xs d.1 (ground arith))

length-snoc :
    (xs : List SkillDefinition) (s : SkillDefinition) → length (xs ++ s ∷ []) ≡ suc (length xs)
length-snoc [] s = refl
length-snoc (x ∷ xs) s = omega (arith, length-snoc xs s)

load_packages-IsDistinct :
    (loaded : List SkillDefinition) (ps : List Package) (skills : List SkillDefinition)
    → load_packages loaded ps ≡ ok skills
    → IsDistinct loaded
    → All (λ s. is_definition s ≡ true) loaded
    → IsDistinct skills
      × All (λ s. is_definition s ≡ true) skills
      × (length skills ≡ length loaded + length ps)
unfolding load_packages
load_packages-IsDistinct loaded [] skills h d v =
    subst (λ l. IsDistinct l × All (λ s. is_definition s ≡ true) l × (length l ≡ length loaded + 0))
      (ok-injective h) (d, v, omega arith)
load_packages-IsDistinct loaded (p ∷ ps) skills h d v = elim (Option-cases p.instructions) [
  | inl e ↦ absurd (let h' = rw (load_packages, e) at h in cc)
  | inr (file, e) ↦ elim (Option-cases p.manifest) [
    | inl f ↦ absurd (let h' = rw (load_packages, e, f) at h in cc)
    | inr (manifest, f) ↦
        elim (Bool-cases (any (same_identity p.project_id manifest.name) loaded)) [
          | inl g ↦ absurd (let h' = rw (load_packages, e, f, g) at h in cc)
          | inr g ↦ elim (Option-cases file) [
            | inl t ↦ absurd (let h' = rw (load_packages, e, f, g, t) at h in cc)
            | inr (instructions, t) ↦
                let s : SkillDefinition = record {
                  project_id = p.project_id;
                  manifest = manifest;
                  instructions = strip instructions;
                  source_path = p.path;
                } in
                elim (Bool-cases (is_definition s)) [
                  | inr k ↦ absurd (let h' = rw (load_packages, e, f, g, t, k) at h in cc)
                  | inl k ↦
                      let (a, b, c) =
                        load_packages-IsDistinct (loaded ++ s ∷ []) ps skills
                          (rw (load_packages, e, f, g, t, k) at h) (snoc-IsDistinct s loaded d g)
                          (All-append (λ t. is_definition t ≡ true) loaded (s ∷ []) v (k, tt)) in
                      (a, b, omega (arith, c, length-snoc loaded s))
                ]
          ]
        ]
  ]
]

-- A load that raises leaves the registry as it was; one that returns puts there one valid skill for
-- every package, and no two of them have one project and name.
pub load-IsAtomic :
    (packages : List Package) (skills : List SkillDefinition)
    → ((e : SkillRegistryError) × (load packages skills ≡ (raised e, skills)))
      ⊎ ((loaded : List SkillDefinition) × (load packages skills ≡ (ok loaded, loaded))
          × (IsDistinct loaded)
          × (All (λ s. is_definition s ≡ true) loaded)
          × (length loaded ≡ length packages))
unfolding load
load-IsAtomic packages skills = elim (Outcome-cases (load_packages [] packages)) [
  | inr (e, h) ↦ inl (e, rw (load, h) refl)
  | inl (loaded, h) ↦
      let (a, b, c) = load_packages-IsDistinct [] packages loaded h tt tt in
      inr (loaded, rw (load, h) refl, a, b, omega (arith, c))
]

All-select :
    (p : SkillDefinition → Bool) (xs : List SkillDefinition) → All (λ s. p s ≡ true) (select p xs)
unfolding select
All-select p [] = tt
All-select p (x ∷ xs) = elim (Bool-cases (p x)) [
  | inl e ↦ rw e (e, All-select p xs)
  | inr e ↦ rw e (All-select p xs)
]

All-take :
    (P : SkillDefinition → Type 0) (n : ℕ) (xs : List SkillDefinition)
    → All P xs
    → All P (take n xs)
All-take P zero xs h = tt
All-take P (suc n) [] h = tt
All-take P (suc n) (x ∷ xs) h = (h.0, All-take P n xs h.1)

length-take : (n : ℕ) (xs : List SkillDefinition) → length (take n xs) ≤ n
length-take zero xs = omega arith
length-take (suc n) [] = omega arith
length-take (suc n) (x ∷ xs) = omega (arith, length-take n xs)

empty_take : (xs : List SkillDefinition) → length (take 3 xs) ≡ 0 → length xs ≡ 0
empty_take [] h = refl
empty_take (x ∷ xs) h = absurd (omega arith)

any-select :
    (p : SkillDefinition → Bool) (xs : List SkillDefinition)
    → length (select p xs) ≡ 0
    → any p xs ≡ false
unfolding select
any-select p [] h = refl
any-select p (x ∷ xs) h = ground (arith, any-select p xs)

module _ (fnmatchcase : String → String → Bool) (repr : Value → String) where
  -- At most three skills are selected, and each is of the alert's project, has a pattern that the
  -- alert's name matches, is for the service type and demands only labels that the alert has. If a
  -- loaded skill fits, some skill is selected.
  pub find_candidate_skills-IsFit :
      (alert : AlertFacts) (service_type : String) (skills : List SkillDefinition)
      → let found = find_candidate_skills fnmatchcase repr alert service_type skills in
        All (λ s. is_candidate fnmatchcase repr alert service_type s ≡ true) found
        × (length found ≤ 3)
        × ((length found ≡ 0)
            → any (is_candidate fnmatchcase repr alert service_type) skills ≡ false)
  unfolding find_candidate_skills
  find_candidate_skills-IsFit alert service_type skills =
      let fits = is_candidate fnmatchcase repr alert service_type in
      let sorted = sort_by (ranks_before fnmatchcase repr alert) (select fits skills) in
      (
        All-take (λ s. fits s ≡ true) 3 sorted
            (All-sort_by (λ s. fits s ≡ true) (ranks_before fnmatchcase repr alert)
              (select fits skills) (All-select fits skills)),
        length-take 3 sorted,
        λ (none_found : length (take 3 sorted) ≡ 0). any-select fits skills (
            sym (length-sort_by (ranks_before fnmatchcase repr alert) (select fits skills))
            ∙ empty_take sorted none_found),
      )

  pub candidate_project :
      (alert : AlertFacts) (service_type : String) (s : SkillDefinition)
      → is_candidate fnmatchcase repr alert service_type s ≡ true
      → s.project_id ≡ alert.project_id
  unfolding is_candidate
  candidate_project alert service_type s h =
      let (p, _) = and_true (s.project_id == alert.project_id) _ h in
      (eq_iff s.project_id alert.project_id).0 p
