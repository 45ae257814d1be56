-- ===== src/Alerts/Adapters/Scope.antt =====
-- Whatever a payload says, its alerts are the integration's: the envelopes of
-- src/oncall/alerts/adapters/tencent.py and their labels.
use oncall.Alerts.Adapters.Inversion.{
  generic_item-eq-ok, generic_alert-eq-ok, normalize_tencent_monitor-eq-ok,
}
use oncall.Alerts.Readers.{Platform, text_of, get_default}
use oncall.Alerts.Fingerprint.{Subject}
use oncall.Alerts.Adapters.{
  copy_labels, is_envelope, scope_labels, is_scalar, copied_names, dict_or_end, generic_envelope,
  generic_item, generic_items, monitor_envelope, monitor_id_keys, monitor_labels, subject, as_items,
  batch, normalize, normalize_generic_alert,
}
use oncall.Json.{
  get, Fields, get-set_field, set_field, text, Items, Value, cons, end, nil, dict, list,
}
use oncall.Prelude.{
  Bool-cases, List, Option-cases, String, [], any, arith, eq_iff, false, inl, inr, nat_eq, none,
  refl, some, string_eq, true, ◌==◌, ◌∙◌, ◌∷◌, ◌≡◌, >>=-Ran, All, Option, ok, ok-injective, ran,
  subst, suc, sym, ℕ, ◌≢◌,
}
use oncall.Models.{AlertStatus}
use oncall.Alerts.Service.{AlertEnvelope}

-- The envelope and its labels name the integration's source, project, environment and service; the
-- envelope is valid, and a firing one has no end.
pub record InScope (source project_id environment service : String) (e : AlertEnvelope)
    : Type 0 where
  pub source_field : e.source ≡ source
  pub project_field : e.project_id ≡ project_id
  pub environment_field : e.environment ≡ environment
  pub service_field : e.service ≡ service
  pub source_label : get "source" e.labels ≡ some (text source)
  pub project_label : get "project_id" e.labels ≡ some (text project_id)
  pub environment_label : get "environment" e.labels ≡ some (text environment)
  pub service_label : get "service" e.labels ≡ some (text service)
  pub valid : is_envelope e ≡ true
  pub no_end : e.status ≡ AlertStatus.firing → e.ends_at ≡ none

get-copy_labels :
    (key : String) (names : List String) (p labels : Fields)
    → any (λ n. n == key) names ≡ false
    → get key (copy_labels names p labels) ≡ get key labels
unfolding copy_labels
get-copy_labels key [] p labels h = refl
get-copy_labels key (n ∷ names) p labels h = elim (Option-cases (get n p)) [
  | inl e ↦ rw e (get-copy_labels key names p labels (ground arith))
  | inr (v, e) ↦ elim (Bool-cases (is_scalar (some v))) [
    | inl t ↦
        rw (e, t)
          (get-copy_labels key names p (set_field n v labels) (ground arith)
            ∙ ground (arith, get-set_field key n v labels, eq_iff n key))
    | inr t ↦ rw (e, t) (get-copy_labels key names p labels (ground arith))
  ]
]

get-scope_labels :
    (source : String) (s : Subject) (labels : Fields)
    → (get "source" (scope_labels source s labels) ≡ some (text source))
      × (get "project_id" (scope_labels source s labels) ≡ some (text s.project_id))
      × (get "environment" (scope_labels source s labels) ≡ some (text s.environment))
      × (get "service" (scope_labels source s labels) ≡ some (text s.service))
get-scope_labels source s labels = (
  simp get-set_field refl,
  simp get-set_field refl,
  simp get-set_field refl,
  simp get-set_field refl,
)

generic_envelope-InScope :
    (os : Platform) (source project environment service name : String) (status : AlertStatus)
    (t : ℕ) (last : Option ℕ) (p : Fields)
    → is_envelope
        (generic_envelope os source (subject project environment service name) status t last p)
      ≡ true
    → (status ≡ AlertStatus.firing → last ≡ none)
    → InScope source project environment service
        (generic_envelope os source (subject project environment service name) status t last p)
generic_envelope-InScope os source project environment service name status t last p v h =
    let l =
      get-scope_labels source (subject project environment service name)
        (dict_or_end (get "labels" p)) in
    record {
      source_field = refl;
      project_field = refl;
      environment_field = refl;
      service_field = refl;
      source_label = l.0;
      project_label = l.1;
      environment_label = l.2;
      service_label = l.3;
      valid = v;
      no_end = h;
    }

-- The event's identifier and the copied labels leave the label alone.
get-monitor_labels :
    (os : Platform) (key : String) (s : Subject) (p : Fields)
    → any (λ n. n == key) ("source_event_id" ∷ copied_names) ≡ false
    → get key (monitor_labels os s p) ≡ get key (scope_labels "tencent_monitor" s end)
get-monitor_labels os key s p h =
    get-copy_labels key copied_names p _ (ground arith)
    ∙ elim (Option-cases (text_of monitor_id_keys p)) [
      | inl e ↦ rw e refl
      | inr (id, e) ↦ rw e (
          ground (
            arith,
            eq_iff "source_event_id" key,
            get-set_field key "source_event_id" (text id) (scope_labels "tencent_monitor" s end),
          ))
    ]

monitor_envelope-InScope :
    (os : Platform) (project environment service name : String) (status : AlertStatus) (t : ℕ)
    (last : Option ℕ) (p : Fields)
    → is_envelope (monitor_envelope os (subject project environment service name) status t last p)
      ≡ true
    → (status ≡ AlertStatus.firing → last ≡ none)
    → InScope "tencent_monitor" project environment service
        (monitor_envelope os (subject project environment service name) status t last p)
monitor_envelope-InScope os project environment service name status t last p v h =
    let s = subject project environment service name in
    let l = get-scope_labels "tencent_monitor" s end in
    record {
      source_field = refl;
      project_field = refl;
      environment_field = refl;
      service_field = refl;
      source_label = get-monitor_labels os "source" s p refl ∙ l.0;
      project_label = get-monitor_labels os "project_id" s p refl ∙ l.1;
      environment_label = get-monitor_labels os "environment" s p refl ∙ l.2;
      service_label = get-monitor_labels os "service" s p refl ∙ l.3;
      valid = v;
      no_end = h;
    }

module _ (os : Platform) (source project environment service : String) where
  generic_item-InScope :
      (now : ℕ) (v : Value) (e : AlertEnvelope)
      → generic_item os source project environment service now v ≡ ok e
      → InScope source project environment service e
  generic_item-InScope now v e h =
      let (p, h') = generic_item-eq-ok os source project environment service now v e h in
      let (name, status, t, last, _, same, valid, ends) =
        generic_alert-eq-ok os source project environment service now p e h' in
      subst (InScope source project environment service) (sym same) (
        generic_envelope-InScope os source project environment service name status t last p
          (subst (λ d. is_envelope d ≡ true) same valid) ends)

  generic_items-InScope :
      (clock : ℕ → ℕ) (k : ℕ) (vs : Items) (es : List AlertEnvelope)
      → generic_items os source project environment service clock k vs ≡ ok es
      → All (InScope source project environment service) es
  unfolding generic_items
  generic_items-InScope clock k nil es h =
      subst (All (InScope source project environment service)) (ok-injective h) tt
  generic_items-InScope clock k (cons v vs) es h =
      elim (>>=-Ran (generic_item os source project environment service (clock k) v) _ h) [
        | ran e h1 k1 ↦
            elim (>>=-Ran (generic_items os source project environment service clock (suc k) vs) _
              k1) [
                | ran rest h2 k2 ↦
                    subst (All (InScope source project environment service)) (ok-injective k2) (
                      generic_item-InScope (clock k) v e h1,
                      generic_items-InScope clock (suc k) vs rest h2,
                    )
              ]
      ]

  generic_items-ne-nil :
      (clock : ℕ → ℕ) (k : ℕ) (v : Value) (vs : Items) (es : List AlertEnvelope)
      → generic_items os source project environment service clock k (cons v vs) ≡ ok es
      → es ≢ []
  unfolding generic_items
  generic_items-ne-nil clock k v vs es h =
      elim (>>=-Ran (generic_item os source project environment service (clock k) v) _ h) [
        | ran e h1 k1 ↦
            elim (>>=-Ran (generic_items os source project environment service clock (suc k) vs) _
              k1) [ ran rest h2 k2 ↦ subst (λ l. l ≢ []) (ok-injective k2) (cc) ]
      ]

  batch-InScope :
      (clock : ℕ → ℕ) (vs : Items) (es : List AlertEnvelope)
      → batch os source project environment service clock vs ≡ ok es
      → All (InScope source project environment service) es × (es ≢ [])
  unfolding batch
  batch-InScope clock nil es h = absurd (cc)
  batch-InScope clock (cons v vs) es h =
      (generic_items-InScope clock 0 (cons v vs) es h, generic_items-ne-nil clock 0 v vs es h)

-- A normalized delivery has at least one alert, and each is the integration's.
pub normalize-InScope :
    (os : Platform) (source project environment service : String) (clock : ℕ → ℕ) (p : Fields)
    (es : List AlertEnvelope)
    → normalize os source project environment service clock p ≡ ok es
    → All (InScope source project environment service) es × (es ≢ [])
unfolding normalize normalize_generic_alert
normalize-InScope os source project environment service clock p es h =
    elim (Bool-cases (source == "tencent_monitor")) [
      | inr b ↦
          batch-InScope os source project environment service clock
            (as_items (get_default "alerts" (list (cons (dict p) nil)) p)) es
            (rw (b, normalize) at h)
      | inl b ↦
          (let h' = rw (b, normalize) at h in
            let (e, name, status, t, last, one, _, same, valid, ends) =
              normalize_tencent_monitor-eq-ok os project environment service (clock 0) p es h' in
            let m : InScope "tencent_monitor" project environment service e =
              subst (InScope "tencent_monitor" project environment service) (sym same) (
                monitor_envelope-InScope os project environment service name status t last p
                  (subst (λ d. is_envelope d ≡ true) same valid) ends) in
            let m' : InScope source project environment service e =
              subst (λ s. InScope s project environment service e)
                (sym ((eq_iff source "tencent_monitor").0 b)) m in
            subst (λ l. All (InScope source project environment service) l × (l ≢ [])) (sym one)
              ((m', tt), cc))
    ]
