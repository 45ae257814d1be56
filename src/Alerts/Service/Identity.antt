-- ===== src/Alerts/Service/Identity.antt =====
-- One row for each alert identity, and time never runs back: src/oncall/alerts/service.py.
use oncall.Alerts.Service.Induction.{ingest_induction}
use oncall.Json.{Fields}
use oncall.Prelude.{
  ℕ, Bool-cases, List, Option, String, [], arith, find, inl, inr, nat_eq, none, refl, string_eq,
  update_first, ◌&&◌, ◌==◌, ◌∷◌, ◌≡◌, Bool, ok, some, ◌∙◌, ◌≤◌, true, eq_iff, sym,
}
use oncall.Models.{Db, Alert, AlertStatus}
use oncall.Alerts.Service.{
  AlertEnvelope, refresh, same_identity, Gathered, ingest_normalized_alerts, upsert_alert,
  new_alert,
}
use oncall.Alerts.Service.Counting.{upsert_alert-eq-ok}

abbrev pub has_identity : String → String → String → Alert → Bool
has_identity source project_id fingerprint a =
    a.source == source && (a.project_id == project_id && a.fingerprint == fingerprint)

-- The row that answers the query of `_upsert_alert` for an identity.
abbrev pub row_of : String → String → String → List Alert → Option Alert
row_of source project_id fingerprint = find (has_identity source project_id fingerprint)

-- No two rows share their identity: what the column constraint
-- `uq_alerts_source_project_fingerprint` wants.
abbrev pub IsUnique : List Alert → Type 0
IsUnique [] = Unit
IsUnique (a ∷ rest) = (row_of a.source a.project_id a.fingerprint rest ≡ none) × IsUnique rest

-- A refreshed row keeps the columns of its identity.
row_of-update_first :
    (s p f : String) (e : AlertEnvelope) (t : ℕ) (rows : List Alert)
    → row_of s p f rows ≡ none
    → row_of s p f (update_first (same_identity e) (refresh e t) rows) ≡ none
unfolding find update_first
row_of-update_first s p f e t [] h = refl
row_of-update_first s p f e t (a ∷ rest) h = ground (arith, row_of-update_first s p f e t rest)

update_first-IsUnique :
    (e : AlertEnvelope) (t : ℕ) (rows : List Alert)
    → IsUnique rows
    → IsUnique (update_first (same_identity e) (refresh e t) rows)
unfolding update_first
update_first-IsUnique e t [] h = tt
update_first-IsUnique e t (a ∷ rest) (h, u) = elim (Bool-cases (same_identity e a)) [
  | inl s ↦ rw s (ground arith, u)
  | inr s ↦ rw s (
    row_of-update_first a.source a.project_id a.fingerprint e t rest h,
    update_first-IsUnique e t rest u,
  )
]

upsert_alert-IsUnique :
    (raw : ℕ) (e : AlertEnvelope) (t : ℕ) (db db' : Db) (a : Alert) (known : Bool)
    (previous : Option AlertStatus)
    → upsert_alert raw e t db ≡ ok (a, known, previous, db')
    → IsUnique db.alerts
    → IsUnique db'.alerts
upsert_alert-IsUnique raw e t db db' a known previous h u =
    elim (upsert_alert-eq-ok raw e t db db' a known previous h) [
      | inl n ↦ rw n.2 (n.0, u)
      | inr r ↦ rw r.4 (update_first-IsUnique e t db.alerts u)
    ]

-- A webhook that is accepted leaves one row at most for each identity (source, project,
-- fingerprint), if that was so before.
pub ingest_normalized_alerts-IsUnique :
    (project_id source : String) (payload : Fields) (es : List AlertEnvelope) (t : ℕ)
    (clock : ℕ → ℕ) (db db' : Db) (g : Gathered)
    → ingest_normalized_alerts project_id source payload es t clock db ≡ ok (g, db')
    → IsUnique db.alerts
    → IsUnique db'.alerts
ingest_normalized_alerts-IsUnique = ingest_induction IsUnique upsert_alert-IsUnique

-- A row that was there is still there, for the same facts, was not seen earlier and not counted
-- less often.
pub record IsKept (a b : Alert) : Type 0 where
  pub id : a.id ≡ b.id
  pub environment : a.environment ≡ b.environment
  pub service : a.service ≡ b.service
  pub alert_name : a.alert_name ≡ b.alert_name
  pub seen : a.last_seen ≤ b.last_seen
  pub counted : a.occurrence_count ≤ b.occurrence_count

IsKept-refl : (a : Alert) → IsKept a a
IsKept-refl a = ground arith

abbrev StillThere : List Alert → List Alert → Type 0
StillThere before after =
    (s p f : String) (a : Alert)
    → row_of s p f before ≡ some a
    → (b : Alert) × (row_of s p f after ≡ some b) × IsKept a b

StillThere-refresh : (e : AlertEnvelope) (t : ℕ) (a : Alert) → IsKept a (refresh e t a)
StillThere-refresh e t a = ground arith

StillThere-update_first :
    (e : AlertEnvelope) (t : ℕ) (rows : List Alert)
    → StillThere rows (update_first (same_identity e) (refresh e t) rows)
unfolding find update_first
StillThere-update_first e t [] s p f a h = absurd (cc)
StillThere-update_first e t (x ∷ rest) s p f a h = elim (Bool-cases (same_identity e x)) [
  | inl hit ↦
      rw (hit, update_first)
        (elim (Bool-cases (has_identity s p f x)) [
          | inl m ↦ (refresh e t x, ground arith, ground arith)
          | inr m ↦ (a, ground arith, IsKept-refl a)
        ])
  | inr miss ↦
      rw (miss, update_first)
        (elim (Bool-cases (has_identity s p f x)) [
          | inl m ↦ (x, ground arith, ground arith)
          | inr m ↦
              let (b, found, kept) = StillThere-update_first e t rest s p f a (ground arith) in
              (b, ground arith, kept)
        ])
]

IsKept-trans : (a b c : Alert) → IsKept a b → IsKept b c → IsKept a c
IsKept-trans a b c h k = ground arith

new_has_identity :
    (e : AlertEnvelope) (raw t id : ℕ)
    → has_identity e.source e.project_id e.fingerprint (new_alert e raw t id) ≡ true
new_has_identity e raw t id = ground (
  arith,
  eq_iff e.source e.source,
  eq_iff e.project_id e.project_id,
  eq_iff e.fingerprint e.fingerprint,
)

identity_eq :
    (s p f : String) (a : Alert)
    → has_identity s p f a ≡ true
    → (a.source ≡ s) × (a.project_id ≡ p) × (a.fingerprint ≡ f)
identity_eq s p f a h =
    ground (arith, eq_iff a.source s, eq_iff a.project_id p, eq_iff a.fingerprint f)

StillThere-new :
    (e : AlertEnvelope) (a : Alert) (rows : List Alert)
    → find (same_identity e) rows ≡ none
    → has_identity e.source e.project_id e.fingerprint a ≡ true
    → StillThere rows (a ∷ rows)
unfolding find
StillThere-new e a rows new same s p f b h = elim (Bool-cases (has_identity s p f a)) [
  | inl m ↦
      let (s1, p1, f1) = identity_eq s p f a m in
      let (s2, p2, f2) = identity_eq e.source e.project_id e.fingerprint a same in
      let es : s ≡ e.source = sym s1 ∙ s2 in
      let ep : p ≡ e.project_id = sym p1 ∙ p2 in
      let ef : f ≡ e.fingerprint = sym f1 ∙ f2 in
      let here : row_of e.source e.project_id e.fingerprint rows ≡ some b = rw (es, ep, ef) at h in
      absurd (cc (sym new ∙ here))
  | inr m ↦ (b, ground arith, IsKept-refl b)
]

upsert_alert-StillThere :
    (before : List Alert) (raw : ℕ) (e : AlertEnvelope) (t : ℕ) (db db' : Db) (a : Alert)
    (known : Bool) (previous : Option AlertStatus)
    → upsert_alert raw e t db ≡ ok (a, known, previous, db')
    → StillThere before db.alerts
    → StillThere before db'.alerts
upsert_alert-StillThere before raw e t db db' a known previous h u s p f x q =
    let (y, found, kept) = u s p f x q in
    let (z, found', kept') = one_step s p f y found in (z, found', IsKept-trans x y z kept kept')
  where
    one_step : StillThere db.alerts db'.alerts
    one_step = elim (upsert_alert-eq-ok raw e t db db' a known previous h) [
      | inl n ↦ rw n.2 (
          StillThere-new e (new_alert e raw t db.next_id) db.alerts n.0
            (new_has_identity e raw t db.next_id))
      | inr r ↦ rw r.4 (StillThere-update_first e t db.alerts)
    ]

-- Through a webhook that is accepted every alert row keeps its id and the facts of its identity,
-- is not seen earlier than before and not counted less often.
pub ingest_normalized_alerts-IsKept :
    (project_id source : String) (payload : Fields) (es : List AlertEnvelope) (t : ℕ)
    (clock : ℕ → ℕ) (db db' : Db) (g : Gathered) (s p f : String) (a : Alert)
    → ingest_normalized_alerts project_id source payload es t clock db ≡ ok (g, db')
    → row_of s p f db.alerts ≡ some a
    → (b : Alert) × (row_of s p f db'.alerts ≡ some b) × IsKept a b
ingest_normalized_alerts-IsKept project_id source payload es t clock db db' g s p f a h =
    ingest_induction (StillThere db.alerts) (upsert_alert-StillThere db.alerts) project_id source
      payload es t clock db db' g h (λ s' p' f' x q. (x, q, IsKept-refl x)) s p f a
