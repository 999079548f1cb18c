-- ===== src/Client/Calls.antt =====
-- What a call of `rpc` comes to.
use transmission_ui.Prelude.{
  Bool-cases, Text, codes, text_eq, text_eq_refl, text_eq_iff, ◌≡◌, refl, ◌≢◌, ◌↔◌, ◌⊎◌, inl, inr,
  true, Option, none, some, [], ◌∷◌, arith,
}
use transmission_ui.Json.{Json}
use transmission_ui.Client.{
  ErrorMember, absent, message_only, error_object, other, Body, Payload, not_json, null_json,
  scalar, object, Response, returned, result_of, body_outcome, payload_outcome, is_ok, outcome,
}

-- A well-formed answer to a request with an id.
abbrev pub Answers : Response → Json → Type 0
Answers r v =
    (is_ok r.status ≡ true)
    × (r.status ≢ 204)
    × ((b : Body) × (r.payload ≡ object b)
        × (b.jsonrpc ≡ some (codes "2.0"))
        × (b.result ≡ some v)
        × ((b.error ≡ absent) ⊎ (b.error ≡ message_only [])))

result_of-returned :
    (version : Option Text) (result : Option Json) (v : Json)
    → result_of version result ≡ returned v
    → (version ≡ some (codes "2.0")) × (result ≡ some v)
unfolding result_of
result_of-returned none result v h = ground arith
result_of-returned (some s) none v h = ground arith
result_of-returned (some s) (some x) v h = elim (Bool-cases (text_eq s (codes "2.0"))) [
  | inl same ↦ ground (arith, text_eq_iff s (codes "2.0"))
  | inr different ↦ ground arith
]

body_outcome-returned :
    (version : Option Text) (result : Option Json) (e : ErrorMember) (v : Json)
    → body_outcome (record { jsonrpc = version; result = result; error = e }) ≡ returned v
    → (version ≡ some (codes "2.0")) × (result ≡ some v) × ((e ≡ absent) ⊎ (e ≡ message_only []))
unfolding body_outcome
body_outcome-returned version result absent v h =
    let (p, q) = result_of-returned version result v h in (p, q, inl refl)
body_outcome-returned version result (message_only []) v h =
    let (p, q) = result_of-returned version result v h in (p, q, inr refl)
body_outcome-returned version result (message_only (c ∷ t)) v h = ground arith
body_outcome-returned version result (error_object code m t) v h = ground arith
body_outcome-returned version result other v h = ground arith

payload_outcome-returned :
    (p : Payload) (v : Json)
    → payload_outcome p ≡ returned v
    → (b : Body) × (p ≡ object b) × (body_outcome b ≡ returned v)
unfolding payload_outcome
payload_outcome-returned (object b) v h = (b, refl, h)
payload_outcome-returned not_json v h = ground arith
payload_outcome-returned null_json v h = ground arith
payload_outcome-returned scalar v h = ground arith

-- A response other than a success with a body gives no value.
outcome-payload :
    (r : Response) (v : Json)
    → outcome r ≡ returned v
    → (is_ok r.status ≡ true) × (r.status ≢ 204) × (payload_outcome r.payload ≡ returned v)
unfolding outcome
outcome-payload r v h = ground arith

Answers-outcome : (r : Response) (v : Json) → Answers r v → outcome r ≡ returned v
unfolding outcome payload_outcome body_outcome result_of
Answers-outcome r v (ok, full, (b, p, version, result, error)) = elim error [
  | inl e ↦ rw (p) (ground (arith, e, version, result, text_eq_refl (codes "2.0")))
  | inr e ↦ rw (p) (ground (arith, e, version, result, text_eq_refl (codes "2.0")))
]

-- `rpc` takes a response for a result exactly if its status is a success other than 204 and its body an
-- object that says JSON-RPC 2.0, has a result and reports no error; it gives that result.
pub outcome-returned : (r : Response) (v : Json) → (outcome r ≡ returned v) ↔ Answers r v
outcome-returned r v = (
  λ h.
      let (ok, full, given) = outcome-payload r v h in
      let (b, p, g) = payload_outcome-returned r.payload v given in
      let (version, result, error) = body_outcome-returned b.jsonrpc b.result b.error v g in
      (ok, full, (b, p, version, result, error)),
  Answers-outcome r v,
)
