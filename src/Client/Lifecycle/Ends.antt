-- ===== src/Client/Lifecycle/Ends.antt =====
-- `end` is called by `main` and again by the destructor.
use mathlib.Core.Option.{some-injective}
use cpp_tchat.Prelude.{
  subst, ◌+◌, ◌≡◌, refl, true, false, some, ℕ, List, [], arith, Ensures-ok, Result, Ensures,
  Ensures-bind, if-both,
}
use cpp_tchat.Client.Connection.{is_negative, close_connection}
use cpp_tchat.Client.State.{Client, disconnect}
use cpp_tchat.Client.Session.{Start, initialize}
use cpp_tchat.Client.Events.{Env, KEvent, run}
use cpp_tchat.Client.Sockets.{
  opens, closes, fails, makes, frees, total, IsBalanced, IsIdle, drop_connection-IsBalanced,
}
use cpp_tchat.Client.Sockets.Events.{run-IsBalanced}
use cpp_tchat.Client.Sockets.Start.{Balances, initialize-IsBalanced}
use cpp_tchat.Client.Lifecycle.{ClientApp, init_client_ssl_context, end, main}

-- Nothing that the application has opened is left.
pub record IsReleased (app : ClientApp) : Type 0 where
  pub ssl_ctx : app.ssl_ctx ≡ false
  pub kq : app.client.has_kq ≡ false
  pub running : app.client.running ≡ false
  pub ssl : app.client.connection.ssl ≡ false
  pub fd : is_negative app.client.connection.fd ≡ true

pub end-IsReleased : (app : ClientApp) → IsReleased (end app)
unfolding end disconnect close_connection
end-IsReleased app = ground arith

-- A second `end` gives nothing back.
pub end-end :
    (app : ClientApp)
    → ((end (end app)).client.calls ≡ (end app).client.calls)
      × ((end (end app)).freed ≡ (end app).freed)
unfolding end disconnect close_connection
end-end app = ground arith

end-IsBalanced : (app : ClientApp) → IsBalanced app.client → IsBalanced (end app).client
unfolding end total
end-IsBalanced app h = drop_connection-IsBalanced _ (
    if-both IsBalanced app.client.has_kq _ _ (record { sockets = h.sockets; tls = h.tls })
      (record { sockets = h.sockets; tls = h.tls }))

-- What is left when `main` returns.
pub record EndsClean (app app' : ClientApp) : Type 0 where
  pub released : IsReleased app'
  pub context : app'.freed ≡ app.freed + 1
  pub sockets :
      (g : ℕ)
      → total (opens g) app'.client.calls
        ≡ total (closes g) app'.client.calls + total (fails g) app'.client.calls
  pub tls : total makes app'.client.calls ≡ total frees app'.client.calls

-- The application as it is made.
pub record IsNew (app : ClientApp) : Type 0 where
  pub calls : app.client.calls ≡ []
  pub idle : IsIdle app.client

new-IsBalanced : (app : ClientApp) → IsNew app → IsBalanced app.client
unfolding total
new-IsBalanced app h = record {
  sockets = λ g. rw h.calls (ground (arith, h.idle.fd));
  tls = rw (h.calls, h.idle.ssl) refl;
}

clean :
    (app app' : ClientApp)
    → IsReleased app'
    → IsBalanced app'.client
    → app'.freed ≡ app.freed + 1
    → EndsClean app app'
clean app app' released balanced freed = record {
  released = released;
  context = freed;
  sockets = λ g. ground (arith, released.fd, balanced.sockets g);
  tls = ground (arith, released.ssl, balanced.tls);
}

once :
    (app : ClientApp) (s : Client)
    → IsBalanced s
    → EndsClean app (end (record app { client = s; ssl_ctx = true }))
once app s h = clean app _ (end-IsReleased _) (end-IsBalanced _ h) (unfold end in refl)

twice :
    (app : ClientApp) (s : Client)
    → IsBalanced s
    → EndsClean app (end (end (record app { client = s; ssl_ctx = true })))
twice app s h =
    clean app _ (end-IsReleased _) (end-IsBalanced _ (end-IsBalanced _ h)) (unfold end in refl)

-- Whatever the address, the server, the user and the network do: if `main` returns, then of the sockets
-- that it has opened, each descriptor has been closed as often as it was opened, less the times that its
-- `connect` or `SSL_connect` failed, when the code never closes it; as many TLS objects have been freed
-- as were made; the connection holds no socket and no TLS object, there is no event queue, and the SSL context has been freed exactly once,
-- though `end` runs twice after a chat. The application is new, with no call behind it and no
-- connection.
pub main-EndsClean :
    (start : Start) (batches : List (List (Env × KEvent))) (app : ClientApp) (r : Result ClientApp)
    → IsNew app
    → main true start batches app ≡ some r
    → Ensures (EndsClean app) r
unfolding main init_client_ssl_context
main-EndsClean start batches app r new h = subst (Ensures (EndsClean app)) (some-injective _ _ h) (
    Ensures-bind (EndsClean app) (initialize start app.client) _ λ (goes_on, s) e.
      let kept =
        Ensures-ok Balances (initialize start app.client)
          (initialize-IsBalanced start app.client new.idle (new-IsBalanced app new)) e in
      if-both (Ensures (EndsClean app)) goes_on _ _
        (Ensures-bind (EndsClean app) (run batches s) _ λ s' done.
          twice app s' (Ensures-ok IsBalanced (run batches s) (run-IsBalanced batches s kept) done))
        (once app s kept))
