-- ===== src/Learning/Active.antt =====
-- The active versions of a skill, over the requests of src/oncall/experience/router.py.
use oncall.Learning.Versions.{same_skill, retire, flushed, is_active, publication, stored_version}
use oncall.Learning.Skills.{publish_skill_candidate}
use oncall.Auth.Tokens.{User}
use oncall.Json.{Value}
use oncall.Prelude.{
  String, List, [], Bool, Option, arith, eq_iff, if◌then◌else◌, nat_eq, none, string_eq,
  update_where, ◌&&◌, ◌==◌, ◌∷◌, ◌≡◌, ok, ℕ, ap, sym, ◌∙◌, select,
}
use oncall.Learning.{LearningDb, SkillVersion, SkillCandidate, active}

-- The condition of the bulk update of `publish_skill_candidate`
abbrev pub is_active_of : String → String → SkillVersion → Bool
is_active_of project_id skill_name v = same_skill project_id skill_name v && is_active v.status

-- All the active rows of a project's skill, those that a publication is to retire
unfoldable pub active_versions : String → String → LearningDb → List SkillVersion
unfolding select
active_versions project_id skill_name db =
    select (is_active_of project_id skill_name) db.skill_versions

select-retired :
    (p s p0 s0 : String) (vs : List SkillVersion)
    → select (is_active_of p s) (update_where (is_active_of p0 s0) retire vs)
      ≡ (if p == p0 && s == s0 then [] else select (is_active_of p s) vs)
unfolding select update_where
select-retired p s p0 s0 [] = ground (arith)
select-retired p s p0 s0 (v ∷ vs) = ground (
  arith,
  select-retired p s p0 s0 vs,
  eq_iff v.project_id p,
  eq_iff v.skill_name s,
  eq_iff v.project_id p0,
  eq_iff v.skill_name s0,
  eq_iff p p0,
  eq_iff s s0,
)

flushed-ok :
    (is_valid clashes : Bool) (row : SkillVersion) (db : LearningDb) {v : SkillVersion}
    {db' : LearningDb}
    → flushed is_valid clashes row db ≡ ok (v, db')
    → (v ≡ row) × (db' ≡ db)
flushed-ok is_valid clashes row db h = ground arith

-- The row of the answer, put before the rows of which those of its skill are retired
pub record IsPublished (c : SkillCandidate) (db db' : LearningDb) (v : SkillVersion) : Type 0 where
  rows :
      db'.skill_versions
      ≡ v ∷ update_where (is_active_of c.project_id c.skill_name) retire db.skill_versions
  project : v.project_id ≡ c.project_id
  skill : v.skill_name ≡ c.skill_name
  now_active : v.status ≡ active

module _ (lower normalize : String → String) (py_str canonical_hash : Value → String) where
  pub publish_skill_candidate-IsPublished :
      (c : SkillCandidate) (actor : User) (comment : Option String) (now : ℕ) (db db' : LearningDb)
      (v : SkillVersion)
      → publish_skill_candidate lower normalize py_str canonical_hash c actor comment now db
        ≡ ok (v, db')
      → publication c db ≡ ok none
      → IsPublished c db db' v
  unfolding publish_skill_candidate stored_version
  publish_skill_candidate-IsPublished c actor comment now db db' v h fresh =
      (let h' = rw (publish_skill_candidate, fresh) at h in
        let r = flushed-ok _ _ _ _ h' in
        record {
          rows =
              ap (λ d. d.skill_versions) r.1
              ∙ ap
                  (λ w.
                    w
                    ∷ update_where (is_active_of c.project_id c.skill_name) retire
                        db.skill_versions)
                  (sym r.0);
          project = ap (λ w. w.project_id) r.0;
          skill = ap (λ w. w.skill_name) r.0;
          now_active = ap (λ w. w.status) r.0;
        })

-- The active versions of each project and skill.
abbrev pub View : Type 0
View = String → String → List SkillVersion

-- The abstract specification: the versions that were published, the newest first, each take the
-- place of all the versions that its skill had.
unfoldable pub replay : List SkillVersion → View → View
replay [] view p s = view p s
replay (v ∷ log) view p s =
    if v.project_id == p && v.skill_name == s then v ∷ [] else replay log view p s

pub IsPublished-active :
    (c : SkillCandidate) (db db' : LearningDb) (v : SkillVersion) (p s : String)
    → IsPublished c db db' v
    → active_versions p s db' ≡ replay (v ∷ []) (λ q t. active_versions q t db) p s
unfolding active_versions select replay
IsPublished-active c db db' v p s h =
    rw (h.rows, select-retired p s c.project_id c.skill_name db.skill_versions)
      (ground (
        arith,
        h.project,
        h.skill,
        h.now_active,
        eq_iff v.project_id p,
        eq_iff v.skill_name s,
        eq_iff p c.project_id,
        eq_iff s c.skill_name,
        eq_iff c.project_id p,
        eq_iff c.skill_name s,
      ))
