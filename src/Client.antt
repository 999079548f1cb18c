-- ===== src/Client.antt =====
-- ui/src/rpc/client.ts: one JSON-RPC call over POST, with the 409 handshake of the session id. `fetch`
-- is a parameter: while a call waits, others may change the client and the rest of the world.
pub mod Calls
pub mod Handshake
mod Tests
use transmission_ui.Prelude.{
  ltb, leb, ◌==◌, if◌then◌else◌, or_else, Text, codes, text_eq, is_empty, ℕ, ◌+◌, Bool, not, ◌&&◌,
  ◌||◌, Option, none, some, List, [], ◌++◌, arith,
}
use transmission_ui.Prelude.Decimal.{is_digit, show, read_from, read_from-show, show-ne-empty}
use transmission_ui.Prelude.Int.{ℤ, pos, negsuc, is_negative, is_zero, neg, sub_ℕ}
use transmission_ui.Json.{Json}

-- The module variables `sessionId` and `id`.
pub record Client : Type 0 where
  pub session_id : Option Text
  pub id : ℕ

pub record Request : Type 0 where
  pub id : ℕ
  pub method : Text
  pub params : Json
  pub session : Option Text

-- The member `error` of an answer: `absent` also stands for null, 0 and false.
pub data ErrorMember : Type 0 where
  absent : ErrorMember
  message_only : Text → ErrorMember
  error_object : (code : ℤ) (message : Text) (error_string : Option Text) → ErrorMember
  other : ErrorMember

pub record Body : Type 0 where
  pub jsonrpc : Option Text
  pub result : Option Json
  pub error : ErrorMember

-- What `res.json()` gives: it rejects, or null, another value without properties, or an object.
pub data Payload : Type 0 where
  not_json null_json scalar : Payload
  object : Body → Payload

pub record Response : Type 0 where
  pub status : ℕ
  pub session : Option Text
  pub payload : Payload

-- What a call comes to: the result, an `RpcError` with its message, or an error of JavaScript's own.
pub data Outcome : Type 0 where
  returned : Json → Outcome
  raised : Text → Outcome
  syntax_error type_error : Outcome

-- `if (s)`: the empty string counts as none.
abbrev pub filled : Option Text → Option Text
filled none = none
filled (some s) = if is_empty s then none else some s

abbrev http_status : ℕ → Text
http_status n = codes "HTTP " ++ show n

unfoldable pub http_error_message : Response → Text
http_error_message r = elim r.payload [
  | object b ↦ elim (Body.error b) [
    | message_only t ↦
        if is_empty t
        then http_status r.status
        else t ++ codes " (" ++ http_status r.status ++ codes ")"
    | absent ↦ http_status r.status
    | error_object code message error_string ↦ http_status r.status
    | other ↦ http_status r.status
  ]
  | not_json ↦ http_status r.status
  | null_json ↦ http_status r.status
  | scalar ↦ http_status r.status
]

-- The members of an answer that is no error.
unfoldable pub result_of : Option Text → Option Json → Outcome
result_of none v = raised (codes "malformed response")
result_of (some version) none = raised (codes "malformed response")
result_of (some version) (some v) =
    if text_eq version (codes "2.0") then returned v else raised (codes "malformed response")

-- An empty string is no error; the message of a value without one is empty.
unfoldable pub body_outcome : Body → Outcome
unfolding result_of
body_outcome b = elim b.error [
  | absent ↦ result_of b.jsonrpc b.result
  | message_only t ↦ if is_empty t then result_of b.jsonrpc b.result else raised []
  | error_object code message error_string ↦ raised (or_else (filled error_string) message)
  | other ↦ raised []
]

unfoldable pub payload_outcome : Payload → Outcome
unfolding body_outcome
payload_outcome not_json = syntax_error
payload_outcome null_json = type_error
payload_outcome scalar = raised (codes "malformed response")
payload_outcome (object b) = body_outcome b

abbrev pub is_ok : ℕ → Bool
is_ok status = leb 200 status && ltb status 300

-- What a response means that starts no second attempt.
unfoldable pub outcome : Response → Outcome
unfolding http_error_message payload_outcome
outcome r =
    if r.status == 409
    then raised (codes "session id handshake failed")
    else if (r.status == 401) || (r.status == 403)
    then raised (codes "unauthorized")
    else if r.status == 204
    then raised (codes "empty response")
    else if not (is_ok r.status)
    then raised (http_error_message r)
    else payload_outcome r.payload

-- The session id that a 409 answer tells.
unfoldable pub told : Response → Option Text
told r = if r.status == 409 then filled r.session else none

module _ {W : Type 0} (fetch : Request → Client × W → Response × (Client × W)) where
  -- `++id` and the headers, then `fetch`.
  unfoldable pub send : Text → Json → Client × W → Response × (Client × W)
  send method params (c, w) =
      fetch
        (record { id = c.id + 1; method = method; params = params; session = filled c.session_id })
        (record c { id = c.id + 1 }, w)

  -- `rpc(method, params, false)`
  unfoldable pub rpc_again : Text → Json → Client × W → Outcome × (Client × W)
  unfolding send outcome
  rpc_again method params s = let (r, after) = send method params s in (outcome r, after)

  -- `rpc(method, params)`
  unfoldable pub rpc : Text → Json → Client × W → Outcome × (Client × W)
  unfolding send outcome rpc_again told
  rpc method params s =
      let (r, (c, w)) = send method params s in
      elim (told r) [
        | none ↦ (outcome r, (c, w))
        | some sid ↦ rpc_again method params (record c { session_id = some sid }, w)
      ]
