-- ===== src/Recovery/Signed.antt =====
-- What a signed proof authorises: src/mcp_servers/recovery/server.py against the signature of
-- src/oncall/execution/service.py.
use oncall.Recovery.Server.{verify_approval_proof, NonceKey, distance, is_live, seconds}
use oncall.Execution.Service.{Claim}
use oncall.Recovery.Proof.{
  is_valid_release, proof_payload, RollbackReleaseRequest, rollback_of, dumped, signed_request,
  create_approval_proof,
}
use oncall.Models.{Rollback}
use Prim.Native.Char.{code}
use oncall.Prelude.{
  ℕ, String, List, Bool, all_chars, and_true, arith, first_rest, is_hex64, is_not_colon, is_slug,
  is_version, lacks_colon, refl, true, ◌∷◌, ◌≡◌, decimal-lacks_colon, decimal_inj, first_part_inj,
  is_alnum, is_hex_char, is_slug_char, is_slug_first, is_version_char, last_part_inj, any, eq_iff,
  false, ok, ◌+◌, ◌↔◌, ◌≤◌, ap, subst, sym, ◌∙◌,
}

-- A text of characters other than the colon.
all_chars-lacks_colon :
    (p : ℕ → Bool) (s : String)
    → ((c : ℕ) → p c ≡ true → is_not_colon c ≡ true)
    → all_chars p s ≡ true
    → lacks_colon s ≡ true
all_chars-lacks_colon p String.[] plain h = refl
all_chars-lacks_colon p (String.◌∷◌ c s) plain h =
    ground (arith, plain (code c), all_chars-lacks_colon p s plain)

first_rest-lacks_colon :
    (first rest : ℕ → Bool) (low high : ℕ) (s : String)
    → ((c : ℕ) → first c ≡ true → is_not_colon c ≡ true)
    → ((c : ℕ) → rest c ≡ true → is_not_colon c ≡ true)
    → first_rest first rest low high s ≡ true
    → lacks_colon s ≡ true
first_rest-lacks_colon first rest low high String.[] f r h = absurd (cc)
first_rest-lacks_colon first rest low high (String.◌∷◌ c s) f r h =
    ground (arith, f (code c), all_chars-lacks_colon rest s r)

is_slug-lacks_colon : (high : ℕ) (s : String) → is_slug high s ≡ true → lacks_colon s ≡ true
unfolding is_slug
is_slug-lacks_colon high s =
    first_rest-lacks_colon is_slug_first is_slug_char 1 high s (λ c h. ground arith)
      (λ c h. ground arith)

is_version-lacks_colon : (s : String) → is_version s ≡ true → lacks_colon s ≡ true
unfolding is_version
is_version-lacks_colon s =
    first_rest-lacks_colon is_alnum is_version_char 0 63 s (λ c h. ground arith)
      (λ c h. ground arith)

is_hex64-lacks_colon : (s : String) → is_hex64 s ≡ true → lacks_colon s ≡ true
unfolding is_hex64
is_hex64-lacks_colon s h =
    all_chars-lacks_colon is_hex_char s (λ c h. ground arith) (and_true _ _ h).0

-- The documented form of `str(uuid)`: different identifiers have different texts, without a colon.
pub record IsUuidText (str_uuid : ℕ → String) : Type 0 where
  pub plain : (n : ℕ) → lacks_colon (str_uuid n) ≡ true
  pub distinct : (n m : ℕ) → str_uuid n ≡ str_uuid m → n ≡ m

-- The parts of a payload that stand before the nonce.
abbrev ArePlain : Rollback → String → Type 0
ArePlain r plan_hash =
    (lacks_colon r.project_id ≡ true)
    × (lacks_colon r.environment ≡ true)
    × (lacks_colon r.service ≡ true)
    × (lacks_colon r.current_version ≡ true)
    × (lacks_colon r.target_version ≡ true)
    × (lacks_colon plan_hash ≡ true)

is_valid_release-ArePlain :
    (r : RollbackReleaseRequest)
    → is_valid_release r ≡ true
    → ArePlain (rollback_of r) r.action_plan_hash
unfolding is_valid_release
is_valid_release-ArePlain r h = ground (
  arith,
  is_slug-lacks_colon 63 r.project_id,
  is_slug-lacks_colon 63 r.environment,
  is_slug-lacks_colon 127 r.service,
  is_version-lacks_colon r.current_version,
  is_version-lacks_colon r.target_version,
  is_hex64-lacks_colon r.action_plan_hash,
)

payload_inj :
    (str_uuid : ℕ → String) (uuid_text : IsUuidText str_uuid) (r r' : RollbackReleaseRequest)
    → ArePlain (rollback_of r) r.action_plan_hash
    → ArePlain (rollback_of r') r'.action_plan_hash
    → proof_payload str_uuid r ≡ proof_payload str_uuid r'
    → r ≡ record r' { approval_proof = r.approval_proof }
unfolding proof_payload
payload_inj str_uuid uuid_text r r' p p' e =
    let a = first_part_inj _ _ _ _ p.0 p'.0 e in
    let b = first_part_inj _ _ _ _ p.1 p'.1 a.1 in
    let c = first_part_inj _ _ _ _ p.2 p'.2 b.1 in
    let d = first_part_inj _ _ _ _ p.3 p'.3 c.1 in
    let f = first_part_inj _ _ _ _ p.4 p'.4 d.1 in
    let g = first_part_inj _ _ _ _ p.5 p'.5 f.1 in
    let h = first_part_inj _ _ _ _ (uuid_text.plain _) (uuid_text.plain _) g.1 in
    let k = last_part_inj _ _ _ _ (decimal-lacks_colon _) (decimal-lacks_colon _) h.1 in
    ground
      (arith, a.0, b.0, c.0, d.0, f.0, g.0, uuid_text.distinct _ _ h.0, k.0, decimal_inj _ _ k.1)

module _ (str_uuid : ℕ → String) (hmac : String → String → String) (secret : String) where
  -- A fresh proof, signed with the secret, and a nonce that the store lets be claimed.
  abbrev pub IsAccepted : Bool → ℕ → RollbackReleaseRequest → List NonceKey → Type 0
  IsAccepted reachable now r keys =
      (distance (seconds now) r.issued_at ≤ 300)
      × (hmac secret (proof_payload str_uuid r) ≡ r.approval_proof)
      × (reachable ≡ true)
      × (any (is_live r.nonce now) keys ≡ false)

  -- `verify_approval_proof` returns exactly if the proof is at most 300 seconds old or ahead, is the
  -- HMAC of the request's facts, the store answers, and no live key has the nonce; the nonce is
  -- then claimed for 600 seconds.
  pub verify_approval_proof_iff :
      (reachable : Bool) (now : ℕ) (r : RollbackReleaseRequest) (keys keys' : List NonceKey)
      → (verify_approval_proof str_uuid hmac secret reachable now r keys ≡ ok keys') ↔ (
          IsAccepted reachable now r keys
          × (keys' ≡ record { nonce = r.nonce; expires_at = now + 600000000 } ∷ keys))
  unfolding verify_approval_proof
  verify_approval_proof_iff reachable now r keys keys' =
      ground (arith, eq_iff (hmac secret (proof_payload str_uuid r)) r.approval_proof)

  -- The HMAC does not give two payloads one value.
  abbrev pub TellsApart : String → String → Type 0
  TellsApart a b = hmac secret a ≡ hmac secret b → a ≡ b

  one_request :
      IsUuidText str_uuid
      → (q r : RollbackReleaseRequest) → q.approval_proof ≡ hmac secret (proof_payload str_uuid q)
      → TellsApart (proof_payload str_uuid r) (proof_payload str_uuid q)
      → is_valid_release q ≡ true
      → is_valid_release r ≡ true
      → r.approval_proof ≡ q.approval_proof
      → hmac secret (proof_payload str_uuid r) ≡ r.approval_proof
      → r ≡ q
  one_request uuid_text q r signed apart valid valid' same matches =
      let e =
        payload_inj str_uuid uuid_text r q (is_valid_release-ArePlain r valid')
          (is_valid_release-ArePlain q valid) (apart (matches ∙ same ∙ signed)) in
      e ∙ ap (λ p. record q { approval_proof = p }) same

  signed_request-signed :
      (claim : Claim) (nonce : String) (issued_at : ℕ)
      → (dumped (signed_request str_uuid hmac secret claim nonce issued_at)).approval_proof
        ≡ hmac secret (
            proof_payload str_uuid
              (dumped (signed_request str_uuid hmac secret claim nonce issued_at)))
  unfolding dumped signed_request proof_payload create_approval_proof
  signed_request-signed claim nonce issued_at = refl

  -- The proof that the executor signs for a claim, at a nonce and a time, is accepted with no other
  -- request: a well-formed request that carries it and is accepted has the plan, the hash, the
  -- approval, the nonce and the time of that claim, where the texts of UUIDs are distinct and
  -- the HMAC does not give the payloads of the two requests one value.
  pub verify_approval_proof-IsSigned :
      IsUuidText str_uuid
      → (claim : Claim) (nonce : String) (issued_at : ℕ) (r q : RollbackReleaseRequest)
      → q ≡ dumped (signed_request str_uuid hmac secret claim nonce issued_at)
      → TellsApart (proof_payload str_uuid r) (proof_payload str_uuid q)
      → is_valid_release q ≡ true
      → is_valid_release r ≡ true
      → r.approval_proof ≡ q.approval_proof
      → (reachable : Bool) (now : ℕ) (keys keys' : List NonceKey)
      → verify_approval_proof str_uuid hmac secret reachable now r keys ≡ ok keys'
      → r ≡ q
  verify_approval_proof-IsSigned uuid_text claim nonce issued_at r q sent apart valid valid' same
        reachable now keys keys' h =
      one_request uuid_text q r
        (subst (λ m. m.approval_proof ≡ hmac secret (proof_payload str_uuid m)) (sym sent)
          (signed_request-signed claim nonce issued_at))
        apart valid valid' same ((verify_approval_proof_iff reachable now r keys keys').0 h).0.1

  -- What the executor signs, the server accepts: the request that the executor sends for a claim is
  -- accepted by a server with the secret, at a time within 300 seconds of the signature, where
  -- the nonce store answers and no live key has the nonce.
  pub verify_approval_proof-signed :
      (claim : Claim) (nonce : String) (issued_at now : ℕ) (keys : List NonceKey)
      → distance (seconds now) issued_at ≤ 300
      → any (is_live nonce now) keys ≡ false
      → verify_approval_proof str_uuid hmac secret true now
          (dumped (signed_request str_uuid hmac secret claim nonce issued_at))
          keys
        ≡ ok (record { nonce = nonce; expires_at = now + 600000000 } ∷ keys)
  unfolding dumped signed_request create_approval_proof
  verify_approval_proof-signed claim nonce issued_at now keys fresh unclaimed =
      (verify_approval_proof_iff true now _ keys _).1
        ((fresh, sym (signed_request-signed claim nonce issued_at), refl, unclaimed), refl)
