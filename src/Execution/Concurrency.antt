-- ===== src/Execution/Concurrency.antt =====
-- Any number of workers that run `execute_approved_plan` of src/oncall/execution/service.py on one
-- database: each transaction is one step, and other work may come between them.
use oncall.Prelude.{
  ℕ, Bool, List, String, [], arith, count, find, none, ok, true, ◌++◌, ◌+◌, ◌∷◌, ◌≡◌, ◌≤◌,
  count-of-find, count-update_first, eq_iff, false, nat_eq, refl, some, string_eq, ◌==◌, ◌⊎◌,
  Bool-cases, inl, inr,
}
use oncall.Json.{Value}
use oncall.Models.{Db, Execution, IdempotencyKey, ActionPlan, Approval, Incident}
use oncall.Execution.Service.{
  Claim, ExecutionResult, Reply, claimed, existing_result, idempotency_key, key_beq, returned,
}
use oncall.Execution.Begin.{begin_execution, check_policy, claim_execution, follow_decision}
use oncall.Execution.Finish.{finish_execution, reply_error, reply_response, reply_status}
use oncall.Execution.Claims.{begin_execution-IsAuthorized, IsClaim}

-- `pending` are the claims whose workers have not sent their request yet, `sent` the keys of the
-- requests that reached the Recovery MCP.
pub record System : Type 0 where
  pub db : Db
  pub pending : List Claim
  pub sent : List IdempotencyKey

abbrev pub for_key : IdempotencyKey → Execution → Bool
for_key key x = key_beq x.idempotency_key key

abbrev pub claim_for : IdempotencyKey → Claim → Bool
claim_for key c = key_beq c.key key

-- One step of the system.
pub data Step (py_str : Value → String) (s t : System) : Type 0 where
  claim :
      (incident_id plan_id now : ℕ) (c : Claim) (db : Db)
      → begin_execution py_str incident_id plan_id now s.db ≡ ok (claimed c, db)
      → t ≡ record s { db = db; pending = c ∷ s.pending }
      → Step py_str s t
  answer :
      (incident_id plan_id now : ℕ) (r : ExecutionResult) (db : Db)
      → begin_execution py_str incident_id plan_id now s.db ≡ ok (returned r, db)
      → t ≡ record s { db = db }
      → Step py_str s t
  send :
      (before after : List Claim) (c : Claim)
      → s.pending ≡ before ++ (c ∷ after)
      → t ≡ record s { pending = before ++ after; sent = c.key ∷ s.sent }
      → Step py_str s t
  -- the worker stops before its request, by a refused request or a crash
  stop :
      (before after : List Claim) (c : Claim)
      → s.pending ≡ before ++ (c ∷ after)
      → t ≡ record s { pending = before ++ after }
      → Step py_str s t
  finish :
      (execution_id now : ℕ) (reply : Reply)
      → t ≡ record s { db = (finish_execution execution_id reply now s.db).1 }
      → Step py_str s t
  -- any other transaction: no other part of the program writes to the table of executions
  other : (db : Db) → db.executions ≡ s.db.executions → t ≡ record s { db = db } → Step py_str s t

pub data Reach (py_str : Value → String) (s : System) : System → Type 0 where
  here : Reach py_str s s
  next : {t u : System} → Reach py_str s t → Step py_str t u → Reach py_str s u

-- Requests sent and claims pending are covered by the rows of their key, of which there is one.
pub record IsSafe (key : IdempotencyKey) (s : System) : Type 0 where
  pub covered :
      count (claim_for key) s.pending + count (λ k. key_beq k key) s.sent
      ≤ count (for_key key) s.db.executions
  pub one : count (for_key key) s.db.executions ≤ 1

count-split :
    (key : IdempotencyKey) (before after : List Claim) (c : Claim)
    → count (claim_for key) (before ++ (c ∷ after))
      ≡ count (claim_for key) (c ∷ []) + count (claim_for key) (before ++ after)
unfolding count
count-split key [] after c = ground arith
count-split key (b ∷ before) after c = ground (arith, count-split key before after c)

executions-finish_execution :
    (key : IdempotencyKey) (id now : ℕ) (reply : Reply) (db : Db)
    → count (for_key key) (finish_execution id reply now db).1.executions
      ≡ count (for_key key) db.executions
unfolding finish_execution
executions-finish_execution key id now reply db = ground (
  arith,
  count-update_first (for_key key) (λ x. x.id == id)
      (λ x. record x {
        status = reply_status reply;
        response = reply_response reply;
        error = reply_error reply;
        completed_at = some now;
      })
      db.executions (λ x. refl),
)

executions-answer :
    (py_str : Value → String) (incident_id plan_id now : ℕ) (r : ExecutionResult) (db db' : Db)
    → begin_execution py_str incident_id plan_id now db ≡ ok (returned r, db')
    → db' ≡ db
unfolding begin_execution check_policy follow_decision claim_execution
executions-answer py_str incident_id plan_id now r db db' h = ground arith

-- Where no row answers for a key, none counts for it.
key_beq_trans :
    (a k key : IdempotencyKey) → key_beq k key ≡ true → key_beq a key ≡ true → key_beq a k ≡ true
key_beq_trans a k key h e = ground (
  arith,
  eq_iff k.plan_hash key.plan_hash,
  eq_iff a.plan_hash key.plan_hash,
  eq_iff a.plan_hash k.plan_hash,
)

find-of-existing_result :
    (k : IdempotencyKey) (db : Db)
    → existing_result db k ≡ none
    → find (for_key k) db.executions ≡ none
unfolding existing_result
find-of-existing_result k db h = ground arith

count-of-existing_result :
    (key k : IdempotencyKey) (db : Db)
    → existing_result db k ≡ none
    → key_beq k key ≡ true
    → count (for_key key) db.executions ≡ 0
count-of-existing_result key k db h e =
    count-of-find (for_key key) (for_key k) db.executions
      (λ x. key_beq_trans x.idempotency_key k key e) (find-of-existing_result k db h)

-- A claim adds one row for its key, and there was none.
executions-claim :
    (key : IdempotencyKey) (incident : Incident) (plan : ActionPlan) (approval : Approval)
    (c : Claim) (now : ℕ) (db db' : Db)
    → IsClaim incident plan approval c now db db'
    → (count (for_key key) db'.executions
        ≡ count (claim_for key) (c ∷ []) + count (for_key key) db.executions)
      × (count (claim_for key) (c ∷ []) + count (for_key key) db.executions ≤ 1
          ⊎ key_beq c.key key ≡ false)
unfolding count
executions-claim key incident plan approval c now db db' h =
    rw (h.inserted, h.key_of)
      (elim (Bool-cases (key_beq (idempotency_key plan approval) key)) [
        | inl e ↦
            let none_yet =
              count-of-existing_result key (idempotency_key plan approval) db h.first e in
            rw e (omega arith, inl (omega arith))
        | inr e ↦ rw e (omega arith, inr refl)
      ])

Step-IsSafe :
    (py_str : Value → String) (key : IdempotencyKey) {s t : System}
    → Step py_str s t
    → IsSafe key s
    → IsSafe key t
unfolding count
Step-IsSafe py_str key {s} {t} (claim i p now c db b e) h =
    let a = begin_execution-IsAuthorized py_str i p now s.db db c b in
    let (grown, one) = executions-claim key a.incident a.plan a.approval c now s.db db a.claim in
    rw e (record { covered = ground arith; one = ground arith })
Step-IsSafe py_str key {s} {t} (answer i p now r db b e) h =
    rw (e, executions-answer py_str i p now r s.db db b) h
Step-IsSafe py_str key {s} {t} (send before after c q e) h =
    rw e (record {
      covered = ground (arith, count-split key before after c, h.covered, q);
      one = h.one;
    })
Step-IsSafe py_str key {s} {t} (stop before after c q e) h =
    rw e (record {
      covered = ground (arith, count-split key before after c, h.covered, q);
      one = h.one;
    })
Step-IsSafe py_str key {s} {t} (finish id now reply e) h =
    rw e (ground (arith, executions-finish_execution key id now reply s.db, h.covered, h.one))
Step-IsSafe py_str key {s} {t} (other db q e) h =
    rw e (record { covered = rw q h.covered; one = rw q h.one })

Reach-IsSafe :
    (py_str : Value → String) (key : IdempotencyKey) {s t : System}
    → IsSafe key s
    → Reach py_str s t
    → IsSafe key t
Reach-IsSafe py_str key h here = h
Reach-IsSafe py_str key h (next r st) = Step-IsSafe py_str key st (Reach-IsSafe py_str key h r)

abbrev pub start : Db → System
start db = record { db = db; pending = []; sent = [] }

start-IsSafe :
    (key : IdempotencyKey) (db : Db) → count (for_key key) db.executions ≤ 1 → IsSafe key (start db)
unfolding count
start-IsSafe key db h = record { covered = omega arith; one = h }

-- Whatever the interleaving of workers, crashes, replies and other transactions, the Recovery MCP
-- gets one request at most for each idempotency key, from a database with one row at most for it.
pub sent_once :
    (py_str : Value → String) (key : IdempotencyKey) (db : Db) (s : System)
    → count (for_key key) db.executions ≤ 1
    → Reach py_str (start db) s
    → count (λ k. key_beq k key) s.sent ≤ 1
sent_once py_str key db s h r =
    let safe = Reach-IsSafe py_str key (start-IsSafe key db h) r in
    omega (arith, safe.covered, safe.one)
