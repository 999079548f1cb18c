-- ===== src/Client/Tests.antt =====
-- Runs of ui/src/rpc/client.ts on concrete answers.
use transmission_ui.Prelude.{
  if◌then◌else◌, Bool-cases, Text, codes, text_eq, text_eq_refl, text_eq_iff, ℕ, ◌+◌, ◌≡◌, refl,
  ◌≢◌, ◌↔◌, inl, inr, true, Option, none, some, arith,
}
use transmission_ui.Json.{null, bool}
use transmission_ui.Client.{
  Client, Request, absent, not_json, object, Response, returned, outcome, rpc,
}
use transmission_ui.Client.Calls.{Answers, outcome-returned}
use transmission_ui.Client.Handshake.{IsServed, rpc-IsServed}

abbrev good : Response
good = record {
  status = 200;
  session = none;
  payload =
      object (record { jsonrpc = some (codes "2.0"); result = some (bool true); error = absent });
}

abbrev conflict : Response
conflict = record { status = 409; session = some (codes "s1"); payload = not_json }

abbrev answer_to : Option Text → Response
answer_to none = conflict
answer_to (some s) = if text_eq s (codes "s1") then good else conflict

-- A daemon whose session id is s1, and a count of the requests it has had.
abbrev daemon : Request → Client × ℕ → Response × (Client × ℕ)
daemon q (c, n) = (answer_to q.session, (c, n + 1))

accepts :
    (q : Request) (v : Client × ℕ) → q.session ≡ some (codes "s1") → (daemon q v).0.status ≢ 409
accepts q v h = rw h (ground (arith, text_eq_refl (codes "s1")))

answer_to_other :
    (o : Option Text)
    → o ≢ some (codes "s1")
    → ((answer_to o).status ≡ 409) × ((answer_to o).session ≡ some (codes "s1"))
answer_to_other none h = (refl, refl)
answer_to_other (some s) h = elim (Bool-cases (text_eq s (codes "s1"))) [
  | inl same ↦ absurd (h (ground (arith, text_eq_iff s (codes "s1"))))
  | inr differs ↦ ground arith
]

refuses :
    (q : Request) (v : Client × ℕ)
    → q.session ≢ some (codes "s1")
    → ((daemon q v).0.status ≡ 409) × ((daemon q v).0.session ≡ some (codes "s1"))
refuses q v h = answer_to_other q.session h

abbrev fresh : Client × ℕ
fresh = (record { session_id = none; id = 0 }, 0)

-- The first call costs two requests, and the client knows the id afterwards.
first_call :
    rpc daemon (codes "torrent_get") null fresh
    ≡ (returned (bool true), (record { session_id = some (codes "s1"); id = 2 }, 2))
unfolding rpc text_eq
first_call = refl

rpc-IsServed_example :
    IsServed daemon
      (codes "torrent_get")
      null
      (codes "s1")
      (rpc daemon (codes "torrent_get") null fresh)
unfolding text_eq
rpc-IsServed_example =
    rpc-IsServed daemon (codes "s1") (codes "torrent_get") null fresh refl accepts refuses

outcome-returned_example : (outcome good ≡ returned (bool true)) ↔ Answers good (bool true)
outcome-returned_example = outcome-returned good (bool true)
