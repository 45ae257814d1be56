-- ===== src/Gateway/Entries.antt =====
-- What a log query returns, and when one log entry makes it fail: `_call_cls_logs` of
-- src/oncall/mcp_gateway/client.py.
use oncall.Gateway.{QueryLogsRequest}
use oncall.Gateway.Logs.{
  LogsPlatform, LogEntry, LogsError, LogsResult, count_items, entries_of, entry_of, first_items,
  is_entry, logs_result, invalid_entry,
}
use oncall.Gateway.Logs.{records_of}
use oncall.Prelude.{
  ℕ, List, Option, all, false, length, none, ok, raised, some, suc, true, zero, ◌↔◌, ◌≡◌, ◌≤◌,
  >>=-Ran, Bool, Option-cases, Outcome-cases, ap, arith, inl, inr, ok-injective,
  ok-of-if_else_raised, ran, refl, subst, sym, ◌&&◌, ◌∙◌,
}
use oncall.Json.{Fields, Items, Value, cons, dict, nil, as_dict}

abbrev pub nth_item : ℕ → Items → Option Value
nth_item k nil = none
nth_item zero (cons v vs) = some v
nth_item (suc k) (cons v vs) = nth_item k vs

and_false : (a : Bool) → (a && false) ≡ false
and_false true = refl
and_false false = refl

-- What holds of a result for the records of an answer.
abbrev pub IsResult : QueryLogsRequest → Items → LogsResult → Type 0
IsResult q records r =
    (r.project_id ≡ q.project_id)
    × (r.environment ≡ q.environment)
    × (r.service ≡ q.service)
    × (length r.entries ≤ 100)
    × (all is_entry r.entries ≡ true)
    × (r.returned_bytes ≤ 20480)
    × ((r.truncated ≡ false) ↔ (length r.entries ≡ count_items records))

module _ (os : LogsPlatform) (names : Fields) where
  length-entries_of :
      (n : ℕ) (vs : Items) (es : List LogEntry)
      → entries_of os names (first_items n vs) ≡ ok es
      → (length es ≤ n) × (length es ≤ count_items vs)
  unfolding entries_of
  length-entries_of zero vs es h =
      subst (λ (l : List LogEntry). (length l ≤ 0) × (length l ≤ count_items vs)) (ok-injective h)
        (omega arith, omega arith)
  length-entries_of (suc n) nil es h =
      subst (λ (l : List LogEntry). (length l ≤ suc n) × (length l ≤ 0)) (ok-injective h)
        (omega arith, omega arith)
  length-entries_of (suc n) (cons v vs) es h = elim (Option-cases (as_dict (some v))) [
    | inl e ↦
        let r = length-entries_of n vs es (rw (entries_of, e) at h) in
        (omega (arith, r.0), omega (arith, r.1))
    | inr (fields, e) ↦
        let h' = rw (entries_of, e) at h in
        elim (>>=-Ran (entry_of os names fields) _ h') [
          | ran first h1 k1 ↦ elim (>>=-Ran (entries_of os names (first_items n vs)) _ k1) [
            | ran rest h2 k2 ↦
                let r = length-entries_of n vs rest h2 in
                subst
                  (λ (l : List LogEntry). (length l ≤ suc n) × (length l ≤ suc (count_items vs)))
                  (ok-injective k2) (omega (arith, r.0), omega (arith, r.1))
          ]
        ]
  ]

  -- An entry that is not valid among those that were read.
  all-entries_of :
      (k : ℕ) (vs : Items) (es : List LogEntry) (fields : Fields) (bad : LogEntry)
      → entries_of os names vs ≡ ok es
      → nth_item k vs ≡ some (dict fields)
      → entry_of os names fields ≡ ok bad
      → is_entry bad ≡ false
      → all is_entry es ≡ false
  unfolding entries_of
  all-entries_of k nil es fields bad h at_k read invalid = absurd (cc)
  all-entries_of zero (cons v vs) es fields bad h at_k read invalid =
      let here : as_dict (some v) ≡ some fields = ap as_dict at_k in
      let h' = rw (entries_of, here) at h in
      elim (>>=-Ran (entry_of os names fields) _ h') [
        | ran first h1 k1 ↦ elim (>>=-Ran (entries_of os names vs) _ k1) [
          | ran rest h2 k2 ↦
              let same : first ≡ bad = ok-injective (sym h1 ∙ read) in
              subst (λ l. all is_entry l ≡ false) (ok-injective k2)
                (rw (ap is_entry same ∙ invalid) refl)
        ]
      ]
  all-entries_of (suc k) (cons v vs) es fields bad h at_k read invalid =
      elim (Option-cases (as_dict (some v))) [
        | inl e ↦ all-entries_of k vs es fields bad (rw (entries_of, e) at h) at_k read invalid
        | inr (other, e) ↦
            let h' = rw (entries_of, e) at h in
            elim (>>=-Ran (entry_of os names other) _ h') [
              | ran first h1 k1 ↦ elim (>>=-Ran (entries_of os names vs) _ k1) [
                | ran rest h2 k2 ↦
                    subst (λ l. all is_entry l ≡ false) (ok-injective k2)
                      (rw (all-entries_of k vs rest fields bad h2 at_k read invalid)
                        (and_false (is_entry first)))
              ]
            ]
      ]

  -- A result names the request's project, environment and service; it has at most 100 entries, all
  -- valid, reports at most 20,480 bytes, and is not truncated exactly when there is an entry for
  -- every record of the answer.
  pub logs_result-IsResult :
      (json_size : List LogEntry → ℕ) (q : QueryLogsRequest) (raw : Value) (r : LogsResult)
      → logs_result os names json_size q raw ≡ ok r
      → (records : Items) × (records_of raw ≡ ok records) × (IsResult q records r)
  unfolding logs_result
  logs_result-IsResult json_size q raw r h = elim (>>=-Ran (records_of raw) _ h) [
    | ran records h1 k1 ↦ elim (>>=-Ran (entries_of os names (first_items 100 records)) _ k1) [
      | ran es h2 k2 ↦
          let (valid, same) = ok-of-if_else_raised (all is_entry es) invalid_entry _ k2 in
          let (few, all_read) = length-entries_of 100 records es h2 in
          (
            records,
            h1,
            subst (IsResult q records) (ok-injective same)
                (refl, refl, refl, few, valid, ground arith, (ground arith, ground arith)),
          )
    ]
  ]

  -- One record of the first hundred whose entry is not valid makes the whole query raise, whatever
  -- the other records hold.
  pub logs_result-one_bad :
      (json_size : List LogEntry → ℕ) (q : QueryLogsRequest) (raw : Value) (records : Items) (k : ℕ)
      (fields : Fields) (bad : LogEntry)
      → records_of raw ≡ ok records
      → nth_item k (first_items 100 records) ≡ some (dict fields)
      → entry_of os names fields ≡ ok bad
      → is_entry bad ≡ false
      → (e : LogsError) × (logs_result os names json_size q raw ≡ raised e)
  unfolding logs_result
  logs_result-one_bad json_size q raw records k fields bad h at_k read invalid =
      elim (Outcome-cases (entries_of os names (first_items 100 records))) [
        | inr (e, f) ↦ (e, rw (h, f) refl)
        | inl (es, f) ↦ (
          invalid_entry,
          rw (h, f, all-entries_of k (first_items 100 records) es fields bad f at_k read invalid)
              refl,
        )
      ]
