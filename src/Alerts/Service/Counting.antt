-- ===== src/Alerts/Service/Counting.antt =====
-- What a webhook does to the alert rows: src/oncall/alerts/service.py.
use oncall.Json.{Fields}
use oncall.Prelude.{
  ℕ, Bool, Bool-cases, List, Option, [], arith, find, inl, inr, none, ok, refl, some, suc,
  update_first, ◌+◌, ◌∷◌, ◌≡◌, Option-cases, false, true, ◌⊎◌, >>=-eq-ok, String, length,
  length-sort_by, ok-of-if_raised, sort_by,
}
use oncall.Models.{Db, Alert, AlertStatus, Incident, append_audit_event}
use oncall.Incidents.Service.{get_or_create_incident, link_alert_to_incident}
use oncall.Alerts.Service.{
  AlertEnvelope, audit_change, own_incident, refresh, same_identity, upsert_alert, new_alert,
  Gathered, ingest_one, same_facts, ingest_all, ingest_normalized_alerts, lock_order,
  nothing_gathered, stage_raw_event,
}

-- All deliveries that the alert rows count.
abbrev pub occurrences : List Alert → ℕ
occurrences [] = 0
occurrences (a ∷ rest) = a.occurrence_count + occurrences rest

occurrences-update_first :
    (e : AlertEnvelope) (t : ℕ) (rows : List Alert) (a : Alert)
    → find (same_identity e) rows ≡ some a
    → occurrences (update_first (same_identity e) (refresh e t) rows) ≡ suc (occurrences rows)
unfolding find update_first
occurrences-update_first e t [] a h = cc
occurrences-update_first e t (b ∷ rest) a h = elim (Bool-cases (same_identity e b)) [
  | inl s ↦ rw s (ground arith)
  | inr s ↦ rw s (ground (arith, occurrences-update_first e t rest a))
]

abbrev pub with_new : ℕ → AlertEnvelope → ℕ → Db → Db
with_new raw e t db = record db {
  next_id = suc db.next_id;
  alerts = new_alert e raw t db.next_id ∷ db.alerts;
}

abbrev pub with_refreshed : AlertEnvelope → ℕ → Db → Db
with_refreshed e t db = record db {
  alerts = update_first (same_identity e) (refresh e t) db.alerts;
}

-- The two ways in which the identity of an envelope is settled.
pub upsert_alert-eq-ok :
    (raw : ℕ) (e : AlertEnvelope) (t : ℕ) (db db' : Db) (a : Alert) (known : Bool)
    (previous : Option AlertStatus)
    → upsert_alert raw e t db ≡ ok (a, known, previous, db')
    → ((find (same_identity e) db.alerts ≡ none)
        × (a ≡ new_alert e raw t db.next_id)
        × (db' ≡ with_new raw e t db)
        × (known ≡ false)
        × (previous ≡ none))
      ⊎ ((b : Alert) × (find (same_identity e) db.alerts ≡ some b)
          × (same_facts e b ≡ true)
          × (a ≡ refresh e t b)
          × (db' ≡ with_refreshed e t db)
          × (known ≡ true)
          × (previous ≡ some b.status))
unfolding upsert_alert
upsert_alert-eq-ok raw e t db db' a known previous h =
    elim (Option-cases (find (same_identity e) db.alerts)) [
      | inl n ↦ inl (let h' = rw (n, upsert_alert) at h in (n, cc, cc, cc, cc))
      | inr (b, s) ↦ inr (
          let h' = rw (s, upsert_alert) at h in
          elim (Bool-cases (same_facts e b)) [
            | inl f ↦ (let h2 = rw f at h' in (b, s, f, cc, cc, cc, cc))
            | inr f ↦ (let h2 = rw f at h' in absurd (cc))
          ])
    ]

pub alerts-own_incident :
    (a : Alert) (now : ℕ) (db : Db) → (own_incident a now db).1.alerts ≡ db.alerts
unfolding own_incident get_or_create_incident link_alert_to_incident append_audit_event
alerts-own_incident a now db = ground arith

pub alerts-audit_change :
    (a : Alert) (previous : Option AlertStatus) (i : Option Incident) (db : Db)
    → (audit_change a previous i db).alerts ≡ db.alerts
unfolding audit_change append_audit_event
alerts-audit_change a none i db = refl
alerts-audit_change a (some s) i db = ground arith

occurrences-upsert_alert :
    (raw : ℕ) (e : AlertEnvelope) (t : ℕ) (db db' : Db) (a : Alert) (known : Bool)
    (previous : Option AlertStatus)
    → upsert_alert raw e t db ≡ ok (a, known, previous, db')
    → occurrences db'.alerts ≡ suc (occurrences db.alerts)
occurrences-upsert_alert raw e t db db' a known previous h =
    elim (upsert_alert-eq-ok raw e t db db' a known previous h) [
      | inl n ↦ rw n.2 (omega arith)
      | inr r ↦ rw r.4 (occurrences-update_first e t db.alerts r.0 r.1)
    ]

-- One round counts one delivery.
occurrences-ingest_one :
    (raw t now : ℕ) (e : AlertEnvelope) (g g' : Gathered) (db db' : Db)
    → ingest_one raw t now e g db ≡ ok (g', db')
    → occurrences db'.alerts ≡ suc (occurrences db.alerts)
unfolding ingest_one
occurrences-ingest_one raw t now e g g' db db' h =
    let ((a, known, previous, db1), up, rest) = >>=-eq-ok (upsert_alert raw e t db) _ h in
    let e1 : audit_change a previous (own_incident a now db1).0 (own_incident a now db1).1 ≡ db' =
      ground arith in
    rw (← e1) (
      rw (alerts-audit_change, alerts-own_incident)
        (occurrences-upsert_alert raw e t db db1 a known previous up))

occurrences-ingest_all :
    (raw t : ℕ) (clock : ℕ → ℕ) (k : ℕ) (es : List AlertEnvelope) (g g' : Gathered) (db db' : Db)
    → ingest_all raw t clock k es g db ≡ ok (g', db')
    → occurrences db'.alerts ≡ occurrences db.alerts + length es
unfolding ingest_all
occurrences-ingest_all raw t clock k [] g g' db db' h =
    let e : db ≡ db' = ground arith in rw e (omega arith)
occurrences-ingest_all raw t clock k (e ∷ es) g g' db db' h =
    let ((g1, db1), one, rest) = >>=-eq-ok (ingest_one raw t (clock k) e g db) _ h in
    omega (
      arith,
      occurrences-ingest_one raw t (clock k) e g g1 db db1 one,
      occurrences-ingest_all raw t clock (suc k) es g1 g' db1 db' rest,
    )

-- A webhook that is accepted is counted exactly: the occurrence counts of all alert rows together
-- grow by the number of envelopes, whether these made rows or met known ones.
pub occurrences-ingest_normalized_alerts :
    (project_id source : String) (payload : Fields) (es : List AlertEnvelope) (t : ℕ)
    (clock : ℕ → ℕ) (db db' : Db) (g : Gathered)
    → ingest_normalized_alerts project_id source payload es t clock db ≡ ok (g, db')
    → occurrences db'.alerts ≡ occurrences db.alerts + length es
unfolding ingest_normalized_alerts
occurrences-ingest_normalized_alerts project_id source payload [] t clock db db' g h = cc
occurrences-ingest_normalized_alerts project_id source payload (e ∷ es) t clock db db' g h = omega (
  arith,
  occurrences-ingest_all db.next_id t clock 0 (sort_by lock_order (e ∷ es)) nothing_gathered g
      (stage_raw_event project_id source payload t db) db' (ok-of-if_raised _ _ _ h).1,
  length-sort_by lock_order (e ∷ es),
)
