-- ===== src/Client/Handshake.antt =====
-- The 409 handshake of `rpc`.
use transmission_ui.Prelude.{
  Bool-cases, Text, text_eq, text_eq_iff, is_empty, ◌+◌, ◌≡◌, refl, sym, subst, ◌≢◌, inl, inr, Bool,
  true, false, Option, none, some, arith,
}
use transmission_ui.Json.{Json}
use transmission_ui.Client.{
  Client, Request, Response, Outcome, filled, outcome, told, send, rpc_again, rpc,
}

-- Whether a header is the daemon's session id.
abbrev says : Option Text → Text → Bool
says none sid = false
says (some s) sid = text_eq s sid

says-true : (o : Option Text) (sid : Text) → says o sid ≡ true → o ≡ some sid
says-true none sid h = ground arith
says-true (some s) sid h = ground (arith, text_eq_iff s sid)

says-false : (o : Option Text) (sid : Text) → says o sid ≡ false → o ≢ some sid
says-false none sid h = ground arith
says-false (some s) sid h = ground (arith, text_eq_iff s sid)

told-conflict :
    (r : Response) (sid : Text)
    → r.status ≡ 409
    → r.session ≡ some sid
    → is_empty sid ≡ false
    → told r ≡ some sid
unfolding told
told-conflict r sid h k filled = rw (h, k) (ground arith)

told-other : (r : Response) → r.status ≢ 409 → told r ≡ none
unfolding told
told-other r h = ground arith

module _ {W : Type 0} (fetch : Request → Client × W → Response × (Client × W)) where
  -- The call ends with what the daemon answered to one request of its own that bears a session id.
  abbrev pub IsServed : Text → Json → Text → Outcome × (Client × W) → Type 0
  IsServed method params sid e =
      (q : Request) × ((s : Client × W) × (q.session ≡ some sid)
        × (q.method ≡ method)
        × (q.params ≡ params)
        × (e ≡ (outcome (fetch q s).0, (fetch q s).1)))

  rpc-known :
      (method : Text) (params : Json) (c : Client) (w : W)
      → told (send fetch method params (c, w)).0 ≡ none
      → rpc fetch method params (c, w)
        ≡ (outcome (send fetch method params (c, w)).0, (send fetch method params (c, w)).1)
  unfolding rpc
  rpc-known method params c w h = rw (h, rpc) refl

  rpc-told :
      (method : Text) (params : Json) (c : Client) (w : W) (sid : Text)
      → told (send fetch method params (c, w)).0 ≡ some sid
      → (v : Client × W) × (v.0.session_id ≡ some sid)
        × (rpc fetch method params (c, w) ≡ rpc_again fetch method params v)
  unfolding rpc
  rpc-told method params c w sid h =
      let after = (send fetch method params (c, w)).1 in
      ((record (after.0) { session_id = some sid }, after.1), refl, rw (h, rpc) refl)

  rpc_again-IsServed :
      (method : Text) (params : Json) (sid : Text) (s : Client × W)
      → filled s.0.session_id ≡ some sid
      → IsServed method params sid (rpc_again fetch method params s)
  unfolding rpc_again send
  rpc_again-IsServed method params sid (c, w) h = (
    record { id = c.id + 1; method = method; params = params; session = filled c.session_id },
    ((record c { id = c.id + 1 }, w), h, refl, refl, refl),
  )

  -- Against a daemon that answers 409 with its session id to each request without that id, and another
  -- status to each request with it, a call of `rpc` ends with the daemon's answer to a request of that
  -- call which bears the id, whatever the client knew before and whatever other calls do meanwhile.
  pub rpc-IsServed :
      (sid : Text) (method : Text) (params : Json) (s : Client × W)
      → is_empty sid ≡ false
      → ((q : Request) (v : Client × W) → q.session ≡ some sid → (fetch q v).0.status ≢ 409)
      → ((q : Request) (v : Client × W)
          → q.session ≢ some sid
          → ((fetch q v).0.status ≡ 409) × ((fetch q v).0.session ≡ some sid))
      → IsServed method params sid (rpc fetch method params s)
  unfolding send
  rpc-IsServed sid method params (c, w) full accepts refuses =
      let q : Request = record {
        id = c.id + 1;
        method = method;
        params = params;
        session = filled c.session_id;
      } in
      let v : Client × W = (record c { id = c.id + 1 }, w) in
      elim (Bool-cases (says (filled c.session_id) sid)) [
        | inl knows ↦
            let same = says-true (filled c.session_id) sid knows in
            (
              q,
              (
                v,
                same,
                refl,
                refl,
                rpc-known method params c w (told-other (fetch q v).0 (accepts q v same)),
              ),
            )
        | inr differs ↦
            let (conflict, header) = refuses q v (says-false (filled c.session_id) sid differs) in
            let (u, known, e) =
              rpc-told method params c w sid
                (told-conflict (fetch q v).0 sid conflict header full) in
            let fresh : filled u.0.session_id ≡ some sid = rw (known, full) refl in
            subst (IsServed method params sid) (sym e)
              (rpc_again-IsServed method params sid u fresh)
      ]
