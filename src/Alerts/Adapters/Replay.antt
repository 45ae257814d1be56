-- ===== src/Alerts/Adapters/Replay.antt =====
-- When two deliveries name one alert: `_fingerprint` of src/oncall/alerts/adapters/tencent.py and
-- src/oncall/alerts/fingerprint.py.
use oncall.Alerts.Adapters.Inversion.{normalize_tencent_monitor-eq-ok}
use oncall.Alerts.Adapters.{
  normalize_tencent_monitor, monitor_id_keys, monitor_envelope, monitor_labels, subject,
}
use oncall.Json.{
  Value, Fields, end, field, get-set_field, text, boolean, dict, get, list, null, num, set_field,
  uuid,
}
use oncall.Alerts.Fingerprint.{Subject, distinct, identity_of, stable_fingerprint, stable_labels}
use oncall.Alerts.Readers.{fingerprint_of, text_of, Platform, usable}
use mathlib.Core.Option.{some-injective}
use package.text.Mathlib.TextLemmas.{append_cancel_left}
use oncall.Prelude.{
  ℕ, Bool, List, Option, Option-cases, String, [], false, inl, inr, nat_eq, none, not, refl, some,
  sort_by, string_eq, ◌==◌, ◌∷◌, ◌≡◌, Bool-cases, ap, arith, decimal, eq_iff, size, size-decimal,
  subst, true, ◌∙◌, ◌≤◌, ok, ◌↔◌, sym,
}
use Prim.Native.String.{◌++◌}
use oncall.Alerts.Service.{AlertEnvelope}

-- An event's identifier as a text: none where it is missing or empty.
abbrev truthy : Option String → Bool
truthy none = false
truthy (some e) = not (e == "")

-- What the fingerprint is the digest of.
abbrev pub identity : Option String → Subject → Fields
identity none s = identity_of s end
identity (some e) s = identity_of s (field "source_event_id" (text e) end)

is_empty-of-size : (t : String) → 1 ≤ size t → (t == "") ≡ false
is_empty-of-size t h = elim (Bool-cases (t == "")) [
  | inr e ↦ e
  | inl e ↦ (let e' = (eq_iff t "").0 e in absurd (omega (arith, ap size e')))
]

-- No usable text is empty.
usable-ne-empty : (v : Option Value) (t : String) → usable v ≡ some t → (t == "") ≡ false
usable-ne-empty (some (text s)) t h = ground arith
usable-ne-empty (some (num n)) t h =
    subst (λ u. (u == "") ≡ false) (some-injective _ _ h)
      (is_empty-of-size (decimal n) (size-decimal n))
usable-ne-empty (some (boolean true)) t h =
    subst (λ u. (u == "") ≡ false) (some-injective _ _ h) refl
usable-ne-empty (some (boolean false)) t h =
    subst (λ u. (u == "") ≡ false) (some-injective _ _ h) refl
usable-ne-empty (some null) t h = absurd (cc)
usable-ne-empty (some (uuid n)) t h = absurd (cc)
usable-ne-empty (some (list l)) t h = absurd (cc)
usable-ne-empty (some (dict d)) t h = absurd (cc)
usable-ne-empty none t h = absurd (cc)

text_of-ne-empty :
    (keys : List String) (p : Fields) (t : String) → text_of keys p ≡ some t → (t == "") ≡ false
unfolding text_of
text_of-ne-empty [] p t h = absurd (cc)
text_of-ne-empty (k ∷ keys) p t h = elim (Option-cases (usable (get k p))) [
  | inl e ↦ text_of-ne-empty keys p t (rw (text_of, e) at h)
  | inr (u, e) ↦ usable-ne-empty (get k p) t (e ∙ (rw (text_of, e) at h))
]

stable_labels_one :
    (n : String) (v : Value) (labels : Fields)
    → get n labels ≡ some v
    → stable_labels (n ∷ []) labels ≡ field n v end
unfolding stable_labels
stable_labels_one n v labels h = rw (stable_labels, h) refl

fingerprint_of-some :
    (os : Platform) (t : String) (s : Subject) (labels : Fields)
    → (t == "") ≡ false
    → fingerprint_of os (some t) s labels ≡ "sha256:" ++ os.sha256 (os.dumps (identity (some t) s))
unfolding fingerprint_of stable_fingerprint sort_by distinct
fingerprint_of-some os t s labels h = rw (h) (
    ap (λ l. "sha256:" ++ os.sha256 (os.dumps (identity_of s l)))
      (stable_labels_one "source_event_id" (text t) (set_field "source_event_id" (text t) labels)
        (get-set_field "source_event_id" "source_event_id" (text t) labels)))

-- The digest is of the event's identifier, the scope and the name, whatever else is delivered.
pub fingerprint_of-identity :
    (os : Platform) (keys : List String) (p : Fields) (s : Subject) (labels : Fields)
    → fingerprint_of os (text_of keys p) s labels
      ≡ "sha256:" ++ os.sha256 (os.dumps (identity (text_of keys p) s))
unfolding fingerprint_of stable_fingerprint stable_labels sort_by distinct
fingerprint_of-identity os keys p s labels = elim (Option-cases (text_of keys p)) [
  | inl e ↦ rw e refl
  | inr (t, e) ↦ rw e (fingerprint_of-some os t s labels (text_of-ne-empty keys p t e))
]

identity_inj :
    (a b : Option String) (s u : Subject)
    → identity a s ≡ identity b u
    → (a ≡ b)
      × (s.project_id ≡ u.project_id)
      × (s.environment ≡ u.environment)
      × (s.service ≡ u.service)
      × (s.alert_name ≡ u.alert_name)
identity_inj none none s u h = (refl, cc, cc, cc, cc)
identity_inj (some a) (some b) s u h = (cc, cc, cc, cc, cc)
identity_inj none (some b) s u h = absurd (cc)
identity_inj (some a) none s u h = absurd (cc)

-- What a callback's fingerprint is the digest of.
abbrev pub callback_identity : String → String → String → Fields → AlertEnvelope → Fields
callback_identity project environment service p e =
    identity (text_of monitor_id_keys p) (subject project environment service e.alert_name)

fingerprint-of-callback :
    (os : Platform) (project environment service : String) (now : ℕ) (p : Fields)
    (e : AlertEnvelope)
    → normalize_tencent_monitor os project environment service now p ≡ ok (e ∷ [])
    → e.fingerprint
      ≡ "sha256:" ++ os.sha256 (os.dumps (callback_identity project environment service p e))
fingerprint-of-callback os project environment service now p e h =
    let (d, name, status, t, last, one, _, same, _, _) =
      normalize_tencent_monitor-eq-ok os project environment service now p (e ∷ []) h in
    let s = subject project environment service name in
    let e-same : e ≡ monitor_envelope os s status t last p = (cc) ∙ same in
    ap (λ (x : AlertEnvelope). x.fingerprint) e-same
    ∙ fingerprint_of-identity os monitor_id_keys p s (monitor_labels os s p)
    ∙ ap
        (λ (x : AlertEnvelope).
          "sha256:" ++ os.sha256 (os.dumps (callback_identity project environment service p x)))
        (sym e-same)

module _ (os : Platform) (loads : String → Option Fields) where
  -- Two callbacks of Tencent Cloud Monitor are given one fingerprint exactly when they agree on the
  -- event's identifier, the alert's name and the integration's scope, whatever their labels, times,
  -- severity and status are; where JSON can be read back and SHA-256 does not collide on the two.
  pub same_fingerprint_iff :
      (project project' environment environment' service service' : String) (now now' : ℕ)
      (p q : Fields) (e f : AlertEnvelope)
      → normalize_tencent_monitor os project environment service now p ≡ ok (e ∷ [])
      → normalize_tencent_monitor os project' environment' service' now' q ≡ ok (f ∷ [])
      → loads (os.dumps (callback_identity project environment service p e))
        ≡ some (callback_identity project environment service p e)
      → loads (os.dumps (callback_identity project' environment' service' q f))
        ≡ some (callback_identity project' environment' service' q f)
      → (os.sha256 (os.dumps (callback_identity project environment service p e))
            ≡ os.sha256 (os.dumps (callback_identity project' environment' service' q f))
          → os.dumps (callback_identity project environment service p e)
            ≡ os.dumps (callback_identity project' environment' service' q f))
      → (e.fingerprint ≡ f.fingerprint) ↔ (
          (text_of monitor_id_keys p ≡ text_of monitor_id_keys q)
          × (project ≡ project')
          × (environment ≡ environment')
          × (service ≡ service')
          × (e.alert_name ≡ f.alert_name))
  same_fingerprint_iff project project' environment environment' service service' now now' p q e f h
        h' json json' digest =
      let a = callback_identity project environment service p e in
      let b = callback_identity project' environment' service' q f in
      let u = fingerprint-of-callback os project environment service now p e h in
      let v = fingerprint-of-callback os project' environment' service' now' q f h' in
      (
        λ same.
            let sha =
              append_cancel_left "sha256:" (os.sha256 (os.dumps a)) (os.sha256 (os.dumps b))
                (sym u ∙ same ∙ v) in
            identity_inj (text_of monitor_id_keys p) (text_of monitor_id_keys q)
              (subject project environment service e.alert_name)
              (subject project' environment' service' f.alert_name)
              (some-injective _ _ (sym json ∙ ap loads (digest sha) ∙ json')),
        λ (same : (text_of monitor_id_keys p ≡ text_of monitor_id_keys q)
              × (project ≡ project')
              × (environment ≡ environment')
              × (service ≡ service')
              × (e.alert_name ≡ f.alert_name)).
            let (i, pr, en, se, na) = same in u ∙ (cc) ∙ sym v,
      )
