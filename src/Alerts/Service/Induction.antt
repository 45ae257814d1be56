-- ===== src/Alerts/Service/Induction.antt =====
-- Induction over the envelopes of a webhook: src/oncall/alerts/service.py.
use oncall.Json.{Fields}
use oncall.Prelude.{
  ℕ, List, Option, String, [], arith, nat_eq, string_eq, ◌∷◌, ◌≡◌, >>=-eq-ok, Bool, ok,
  ok-of-if_raised, sort_by, subst, suc, ◌∙◌,
}
use oncall.Models.{Db, Alert, AlertStatus}
use oncall.Alerts.Service.{
  AlertEnvelope, Gathered, audit_change, ingest_all, ingest_normalized_alerts, ingest_one,
  lock_order, nothing_gathered, own_incident, stage_raw_event, upsert_alert,
}
use oncall.Alerts.Service.Counting.{alerts-audit_change, alerts-own_incident}

-- What every settled identity preserves, a webhook preserves.
module _ (P : List Alert → Type 0)
    (settle : (raw : ℕ) (e : AlertEnvelope) (t : ℕ) (db db' : Db) (a : Alert) (known : Bool)
        (previous : Option AlertStatus)
      → upsert_alert raw e t db ≡ ok (a, known, previous, db')
      → P db.alerts
      → P db'.alerts) where
  ingest_one_induction :
      (raw t now : ℕ) (e : AlertEnvelope) (g g' : Gathered) (db db' : Db)
      → ingest_one raw t now e g db ≡ ok (g', db')
      → P db.alerts
      → P db'.alerts
  unfolding ingest_one
  ingest_one_induction raw t now e g g' db db' h p =
      let ((a, known, previous, db1), up, rest) = >>=-eq-ok (upsert_alert raw e t db) _ h in
      let e1 : audit_change a previous (own_incident a now db1).0 (own_incident a now db1).1 ≡ db' =
        ground arith in
      let kept : db'.alerts ≡ db1.alerts =
        rw (← e1) (alerts-audit_change a previous _ _ ∙ alerts-own_incident a now db1) in
      rw kept (settle raw e t db db1 a known previous up p)

  ingest_all_induction :
      (raw t : ℕ) (clock : ℕ → ℕ) (k : ℕ) (es : List AlertEnvelope) (g g' : Gathered) (db db' : Db)
      → ingest_all raw t clock k es g db ≡ ok (g', db')
      → P db.alerts
      → P db'.alerts
  unfolding ingest_all
  ingest_all_induction raw t clock k [] g g' db db' h p =
      let e : db ≡ db' = ground arith in subst (λ d. P d.alerts) e p
  ingest_all_induction raw t clock k (e ∷ es) g g' db db' h p =
      let ((g1, db1), one, rest) = >>=-eq-ok (ingest_one raw t (clock k) e g db) _ h in
      ingest_all_induction raw t clock (suc k) es g1 g' db1 db' rest
        (ingest_one_induction raw t (clock k) e g g1 db db1 one p)

  pub ingest_induction :
      (project_id source : String) (payload : Fields) (es : List AlertEnvelope) (t : ℕ)
      (clock : ℕ → ℕ) (db db' : Db) (g : Gathered)
      → ingest_normalized_alerts project_id source payload es t clock db ≡ ok (g, db')
      → P db.alerts
      → P db'.alerts
  unfolding ingest_normalized_alerts
  ingest_induction project_id source payload [] t clock db db' g h p = absurd (cc)
  ingest_induction project_id source payload (e ∷ es) t clock db db' g h p =
      ingest_all_induction db.next_id t clock 0 (sort_by lock_order (e ∷ es)) nothing_gathered g
        (stage_raw_event project_id source payload t db) db' (ok-of-if_raised _ _ _ h).1 p
