-- ===== src/Alerts/Adapters/Inversion.antt =====
-- What a normalization that returned has read: src/oncall/alerts/adapters/tencent.py.
use oncall.Json.{Value, Fields, as_dict, null, num, text}
use oncall.Alerts.Readers.{Platform, invalid_payload, text_of, get_default, status_of, time_of}
use oncall.Alerts.Adapters.{
  required, envelope, ended, generic_envelope, generic_item, generic_name_keys, is_envelope,
  subject, generic_alert, monitor_envelope, monitor_name_keys, normalize_tencent_monitor, started,
}
use oncall.Prelude.{
  ℕ, Option, String, ap, none, ok, ok-injective, ok-of-if_else_raised, some, sym, true, ◌≡◌, List,
  Option-cases, [], inl, inr, subst, ◌∷◌, >>=-Ran, ran,
}
use oncall.Models.{AlertStatus}
use oncall.Alerts.Service.{AlertEnvelope}

envelope-eq-ok : (d e : AlertEnvelope) → envelope d ≡ ok e → (is_envelope d ≡ true) × (d ≡ e)
envelope-eq-ok d e h =
    let (valid, same) = ok-of-if_else_raised (is_envelope d) invalid_payload (ok d) h in
    (valid, ok-injective same)

ended-firing :
    (os : Platform) (status : AlertStatus) (v : Value) (t : Option ℕ)
    → ended os status v ≡ ok t
    → status ≡ AlertStatus.firing
    → t ≡ none
ended-firing os AlertStatus.firing v t h s = sym (ok-injective h)
ended-firing os AlertStatus.resolved v t h s = cc

required-eq-ok : (o : Option String) {s : String} → required o ≡ ok s → o ≡ some s
required-eq-ok none h = cc
required-eq-ok (some t) h = ap some (ok-injective h)

-- An object that was read has a name, and its envelope is valid.
pub generic_alert-eq-ok :
    (os : Platform) (source project environment service : String) (now : ℕ) (p : Fields)
    (e : AlertEnvelope)
    → generic_alert os source project environment service now p ≡ ok e
    → (name : String) × (status : AlertStatus) × (t : ℕ) × (last : Option ℕ) × (text_of
          generic_name_keys p
        ≡ some name)
      × (e ≡ generic_envelope os source (subject project environment service name) status t last p)
      × (is_envelope e ≡ true)
      × (status ≡ AlertStatus.firing → last ≡ none)
unfolding generic_alert
generic_alert-eq-ok os source project environment service now p e h =
    elim (>>=-Ran (required (text_of generic_name_keys p)) _ h) [
      | ran name h1 k1 ↦ elim (>>=-Ran (status_of (get_default "status" (text "firing") p)) _ k1) [
        | ran status h2 k2 ↦
            elim (>>=-Ran
              (time_of os (get_default "starts_at" (get_default "startsAt" null p) p) (some now)) _
              k2) [
                | ran first h3 k3 ↦
                    elim (>>=-Ran
                      (ended os status (get_default "ends_at" (get_default "endsAt" null p) p)) _
                      k3) [
                        | ran last h4 k4 ↦ elim (>>=-Ran (started first) _ k4) [
                          | ran t h5 k5 ↦
                              (let (valid, same) = envelope-eq-ok _ e k5 in
                                (
                                  name,
                                  status,
                                  t,
                                  last,
                                  required-eq-ok _ h1,
                                  sym same,
                                  subst (λ d. is_envelope d ≡ true) same valid,
                                  ended-firing os status
                                      (get_default "ends_at" (get_default "endsAt" null p) p) last
                                      h4,
                                ))
                        ]
                      ]
              ]
      ]
    ]

-- An item that was read is an object.
pub generic_item-eq-ok :
    (os : Platform) (source project environment service : String) (now : ℕ) (v : Value)
    (e : AlertEnvelope)
    → generic_item os source project environment service now v ≡ ok e
    → (p : Fields) × (generic_alert os source project environment service now p ≡ ok e)
unfolding generic_item
generic_item-eq-ok os source project environment service now v e h =
    elim (Option-cases (as_dict (some v))) [
      | inl c ↦ absurd (cc)
      | inr (p, c) ↦ (p, rw (c, generic_item) at h)
    ]

-- A callback of Tencent Cloud Monitor is one alert with a name.
pub normalize_tencent_monitor-eq-ok :
    (os : Platform) (project environment service : String) (now : ℕ) (p : Fields)
    (es : List AlertEnvelope)
    → normalize_tencent_monitor os project environment service now p ≡ ok es
    → (e : AlertEnvelope) × (name : String) × (status : AlertStatus) × (t : ℕ) × (last : Option ℕ)
      × (es ≡ e ∷ [])
      × (text_of monitor_name_keys p ≡ some name)
      × (e ≡ monitor_envelope os (subject project environment service name) status t last p)
      × (is_envelope e ≡ true)
      × (status ≡ AlertStatus.firing → last ≡ none)
unfolding normalize_tencent_monitor
normalize_tencent_monitor-eq-ok os project environment service now p es h =
    elim (>>=-Ran (required (text_of monitor_name_keys p)) _ h) [
      | ran name h1 k1 ↦
          elim (>>=-Ran (status_of (get_default "alarmStatus" (get_default "status" (num 1) p) p)) _
            k1) [
              | ran status h2 k2 ↦
                  elim (>>=-Ran
                    (time_of os (get_default "firstOccurTime" (get_default "startsAt" null p) p)
                      (some now))
                    _ k2) [
                      | ran first h3 k3 ↦
                          elim (>>=-Ran
                            (ended os status
                              (get_default "recoverTime" (get_default "endsAt" null p) p))
                            _ k3) [
                              | ran last h4 k4 ↦ elim (>>=-Ran (started first) _ k4) [
                                | ran t h5 k5 ↦
                                    elim (>>=-Ran
                                      (envelope (
                                        monitor_envelope os
                                          (subject project environment service name) status t last
                                          p))
                                      _ k5) [
                                        | ran e h6 k6 ↦
                                            (let (valid, same) = envelope-eq-ok _ e h6 in
                                              (
                                                e,
                                                name,
                                                status,
                                                t,
                                                last,
                                                sym (ok-injective k6),
                                                required-eq-ok _ h1,
                                                sym same,
                                                subst (λ d. is_envelope d ≡ true) same valid,
                                                ended-firing os status
                                                    (get_default "recoverTime"
                                                      (get_default "endsAt" null p) p)
                                                    last h4,
                                              ))
                                      ]
                              ]
                            ]
                    ]
            ]
    ]
