-- ===== src/Learning/Served.antt =====
-- The requests of src/oncall/experience/router.py refine the view of the active versions.
use oncall.Learning.Versions.{publication, SkillError}
use oncall.Learning.Skills.{create_skill_candidate, reject_skill_candidate, publish_skill_candidate}
use oncall.Learning.Router.{
  added, Request, generate, handle, publish, reject, generate_skill_candidate, publish_skill,
  reject_skill, serve, and_then,
}
use oncall.Auth.Tokens.{User}
use oncall.Learning.Active.{
  replay, active_versions, View, IsPublished-active, publish_skill_candidate-IsPublished,
}
use oncall.Json.{Value}
use oncall.Prelude.{
  ℕ, String, List, [], Option, ap, if◌then◌else◌, nat_eq, ok, refl, some, string_eq, ◌&&◌, ◌++◌,
  ◌==◌, ◌∷◌, ◌≡◌, arith, Outcome-cases, inl, inr, none, Option-cases, find, raised, ok-injective,
  subst, sym, ◌∙◌,
}
use oncall.Learning.{LearningDb, SkillCandidate, SkillVersion}

replay-append :
    (log older : List SkillVersion) (view : View) (p s : String)
    → replay (log ++ older) view p s ≡ replay log (replay older view) p s
unfolding replay
replay-append [] older view p s = refl
replay-append (v ∷ log) older view p s =
    ap (λ r. if v.project_id == p && v.skill_name == s then v ∷ [] else r)
      (replay-append log older view p s)

abbrev view : LearningDb → View
view db p s = active_versions p s db

replay-same :
    (log : List SkillVersion) (w w' : View) (p s : String)
    → w p s ≡ w' p s
    → replay log w p s ≡ replay log w' p s
unfolding replay
replay-same [] w w' p s e = e
replay-same (v ∷ log) w w' p s e =
    ap (λ r. if v.project_id == p && v.skill_name == s then v ∷ [] else r)
      (replay-same log w w' p s e)

-- The active versions after some requests, by what they published and by what was active before
unfoldable pub Refines : String → String → LearningDb → List SkillVersion × LearningDb → Type 0
unfolding active_versions replay
Refines p s db (log, db') = view db' p s ≡ replay log (view db) p s

Refines-and_then :
    (p s : String) (db db1 : LearningDb) (log : List SkillVersion)
    (rest : List SkillVersion × LearningDb)
    → view db1 p s ≡ replay log (view db) p s
    → Refines p s db1 rest
    → Refines p s db (and_then log rest)
unfolding Refines
Refines-and_then p s db db1 log (newer, db2) first later =
    later
    ∙ replay-same newer (view db1) (replay log (view db)) p s first
    ∙ sym (replay-append newer log (view db) p s)

module _ (lower normalize : String → String) (py_str canonical_hash : Value → String) where
  create_skill_candidate-versions :
      (id : ℕ) (db db' : LearningDb) (c : SkillCandidate)
      → create_skill_candidate lower normalize py_str canonical_hash id db ≡ ok (c, db')
      → db'.skill_versions ≡ db.skill_versions
  unfolding create_skill_candidate
  create_skill_candidate-versions id db db' c h = ground arith

  reject_skill_candidate-versions :
      (c : SkillCandidate) (actor : User) (comment : Option String) (now : ℕ) (db db' : LearningDb)
      → reject_skill_candidate c actor comment now db ≡ ok db'
      → db'.skill_versions ≡ db.skill_versions
  unfolding reject_skill_candidate
  reject_skill_candidate-versions c actor comment now db db' h = ground arith

  -- A publication that was made before is answered again, and changes nothing.
  pub publish_skill_candidate-again :
      (c : SkillCandidate) (actor : User) (comment : Option String) (now : ℕ) (db : LearningDb)
      (v : SkillVersion)
      → publication c db ≡ ok (some v)
      → publish_skill_candidate lower normalize py_str canonical_hash c actor comment now db
        ≡ ok (v, db)
  unfolding publish_skill_candidate
  publish_skill_candidate-again c actor comment now db v e = rw (publish_skill_candidate, e) refl

  view-same :
      (db db' : LearningDb) (p s : String)
      → db'.skill_versions ≡ db.skill_versions
      → view db' p s ≡ view db p s
  unfolding active_versions
  view-same db db' p s e = rw (e) refl

  publish_skill_candidate-raised :
      (c : SkillCandidate) (actor : User) (comment : Option String) (now : ℕ) (db : LearningDb)
      (e : SkillError)
      → publication c db ≡ raised e
      → publish_skill_candidate lower normalize py_str canonical_hash c actor comment now db
        ≡ raised e
  unfolding publish_skill_candidate
  publish_skill_candidate-raised c actor comment now db e h = rw (publish_skill_candidate, h) refl

  publish-refines :
      (c : SkillCandidate) (actor : User) (comment : Option String) (now : ℕ) (db db' : LearningDb)
      (v : SkillVersion) (p s : String)
      → publish_skill_candidate lower normalize py_str canonical_hash c actor comment now db
        ≡ ok (v, db')
      → view (added db c (v, db')).1 p s ≡ replay (added db c (v, db')).0 (view db) p s
  unfolding replay
  publish-refines c actor comment now db db' v p s h = elim (Outcome-cases (publication c db)) [
    | inr (x, e) ↦
        absurd (ground (arith, publish_skill_candidate-raised c actor comment now db x e))
    | inl (none, e) ↦
        rw (added, e)
          (IsPublished-active c db db' v p s (
            publish_skill_candidate-IsPublished lower normalize py_str canonical_hash c actor
              comment now db db' v h e))
    | inl (some w, e) ↦
        rw (added, e)
          (view-same db db' p s
            (ground (arith, publish_skill_candidate-again c actor comment now db w e)))
  ]

  handle-refines :
      (r : Request) (db db' : LearningDb) (log : List SkillVersion) (p s : String)
      → handle lower normalize py_str canonical_hash r db ≡ ok (log, db')
      → view db' p s ≡ replay log (view db) p s
  unfolding handle replay
  handle-refines (generate id) db db' log p s h =
      elim (Outcome-cases (create_skill_candidate lower normalize py_str canonical_hash id db)) [
        | inr (x, e) ↦ absurd (ground arith)
        | inl (r, e) ↦
            (let eq = ok-injective (rw (handle, generate_skill_candidate, e) at h) in
              subst (λ a. view a.1 p s ≡ replay a.0 (view db) p s) eq
                (view-same db r.1 p s (create_skill_candidate-versions id db r.1 r.0 e)))
      ]
  handle-refines (publish id actor comment now) db db' log p s h =
      elim (Option-cases (find (λ c. c.id == id) db.skill_candidates)) [
        | inl e ↦ absurd (ground arith)
        | inr (c, e) ↦
            elim (Outcome-cases (
              publish_skill_candidate lower normalize py_str canonical_hash c actor comment now
                db)) [
                  | inr (x, f) ↦ absurd (ground arith)
                  | inl ((v, db1), f) ↦
                      (let eq = ok-injective (rw (handle, publish_skill, e, f) at h) in
                        subst (λ a. view a.1 p s ≡ replay a.0 (view db) p s) eq
                          (publish-refines c actor comment now db db1 v p s f))
                ]
      ]
  handle-refines (reject id actor comment now) db db' log p s h =
      elim (Option-cases (find (λ c. c.id == id) db.skill_candidates)) [
        | inl e ↦ absurd (ground arith)
        | inr (c, e) ↦ elim (Outcome-cases (reject_skill_candidate c actor comment now db)) [
          | inr (x, f) ↦ absurd (ground arith)
          | inl (db1, f) ↦
              (let eq = ok-injective (rw (handle, reject_skill, e, f) at h) in
                subst (λ a. view a.1 p s ≡ replay a.0 (view db) p s) eq
                  (view-same db db1 p s
                    (reject_skill_candidate-versions c actor comment now db db1 f)))
        ]
      ]

  -- Over any sequence of requests, accepted or refused, the version of a skill that was published last is
  -- the only active version that the skill has, and a skill that nothing was published for has the
  -- active versions that it had.
  pub serve-Refines :
      (rs : List Request) (db : LearningDb) (p s : String)
      → Refines p s db (serve lower normalize py_str canonical_hash rs db)
  unfolding serve Refines
  serve-Refines [] db p s = refl
  serve-Refines (r ∷ rs) db p s =
      elim (Outcome-cases (handle lower normalize py_str canonical_hash r db)) [
        | inr (x, e) ↦ rw (Refines, serve, e) (serve-Refines rs db p s)
        | inl ((log, db1), e) ↦
            rw (Refines, serve, e)
              (Refines-and_then p s db db1 log (serve lower normalize py_str canonical_hash rs db1)
                (handle-refines r db db1 log p s e) (serve-Refines rs db1 p s))
      ]
