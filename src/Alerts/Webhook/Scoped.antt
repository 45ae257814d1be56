-- ===== src/Alerts/Webhook/Scoped.antt =====
-- A webhook's own alerts fit what ingestion checks of them: src/oncall/alerts/router.py and
-- src/oncall/alerts/service.py together.
use oncall.Alerts.Adapters.{normalize}
use oncall.Json.{Fields}
use oncall.Alerts.Readers.{Platform}
use oncall.Alerts.Adapters.Scope.{InScope, normalize-InScope}
use oncall.Prelude.{
  ℕ, All, List, Outcome-cases, String, [], any, arith, eq_iff, false, inl, inr, nat_eq, not, ok,
  raised, refl, string_eq, suc, ◌==◌, ◌||◌, ◌∙◌, ◌∷◌, ◌≡◌, ◌⊎◌, ap, sort_by, ◌≢◌,
}
use oncall.Models.{Db}
use oncall.Alerts.Service.{
  AlertEnvelope, Gathered, IngestError, identity_conflict, ingest_all, ingest_normalized_alerts,
  ingest_one, upsert_alert, lock_order, nothing_gathered, stage_raw_event,
}

ingest_one-raised :
    (raw t now : ℕ) (e : AlertEnvelope) (g : Gathered) (db : Db) (err : IngestError)
    → ingest_one raw t now e g db ≡ raised err
    → err ≡ identity_conflict
unfolding ingest_one upsert_alert
ingest_one-raised raw t now e g db err h = ground arith

ingest_all-raised :
    (raw t : ℕ) (clock : ℕ → ℕ) (k : ℕ) (es : List AlertEnvelope) (g : Gathered) (db : Db)
    (err : IngestError)
    → ingest_all raw t clock k es g db ≡ raised err
    → err ≡ identity_conflict
unfolding ingest_all
ingest_all-raised raw t clock k [] g db err h = absurd (cc)
ingest_all-raised raw t clock k (e ∷ es) g db err h =
    elim (Outcome-cases (ingest_one raw t (clock k) e g db)) [
      | inl ((g1, db1), o) ↦
          ingest_all-raised raw t clock (suc k) es g1 db1 err (rw (ingest_all, o) at h)
      | inr (f, o) ↦ ingest_one-raised raw t (clock k) e g db err (o ∙ (rw (ingest_all, o) at h))
    ]

in_scope :
    (source project environment service : String) (es : List AlertEnvelope)
    → All (InScope source project environment service) es
    → any (λ item. not (item.project_id == project) || not (item.source == source)) es ≡ false
in_scope source project environment service [] h = refl
in_scope source project environment service (e ∷ es) (here, there) = ground (
  arith,
  in_scope source project environment service es there,
  eq_iff e.project_id project,
  eq_iff e.source source,
  here.project_field,
  here.source_field,
)

ingest_scoped :
    (source project environment service : String) (p : Fields) (es : List AlertEnvelope) (t : ℕ)
    (db_clock : ℕ → ℕ) (db : Db)
    → All (InScope source project environment service) es
    → es ≢ []
    → ((g : Gathered) × (db' : Db) × (ingest_normalized_alerts project source p es t db_clock db
          ≡ ok (g, db')))
      ⊎ (ingest_normalized_alerts project source p es t db_clock db ≡ raised identity_conflict)
unfolding ingest_normalized_alerts
ingest_scoped source project environment service p [] t db_clock db h ne = absurd (ne refl)
ingest_scoped source project environment service p (e ∷ es) t db_clock db h ne =
    let loop =
      ingest_all db.next_id t db_clock 0 (sort_by lock_order (e ∷ es)) nothing_gathered
        (stage_raw_event project source p t db) in
    let same : ingest_normalized_alerts project source p (e ∷ es) t db_clock db ≡ loop =
      rw (ingest_normalized_alerts, in_scope source project environment service (e ∷ es) h) refl in
    elim (Outcome-cases loop) [
      | inl ((g, db'), o) ↦ inl (g, db', same ∙ o)
      | inr (f, o) ↦ inr (
          same
          ∙ o
          ∙ ap (λ x. raised x)
              (ingest_all-raised db.next_id t db_clock 0 (sort_by lock_order (e ∷ es))
                nothing_gathered (stage_raw_event project source p t db) f o))
    ]

-- Ingestion of a webhook's normalized alerts returns, or one of them names a known identity with
-- other facts: it is never refused as empty or as out of scope.
pub ingest-of-normalize :
    (os : Platform) (source project environment service : String) (clock : ℕ → ℕ) (p : Fields)
    (es : List AlertEnvelope) (t : ℕ) (db_clock : ℕ → ℕ) (db : Db)
    → normalize os source project environment service clock p ≡ ok es
    → ((g : Gathered) × (db' : Db) × (ingest_normalized_alerts project source p es t db_clock db
          ≡ ok (g, db')))
      ⊎ (ingest_normalized_alerts project source p es t db_clock db ≡ raised identity_conflict)
ingest-of-normalize os source project environment service clock p es t db_clock db h =
    let (scoped, some_alert) =
      normalize-InScope os source project environment service clock p es h in
    ingest_scoped source project environment service p es t db_clock db scoped some_alert
