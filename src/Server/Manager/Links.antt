-- ===== src/Server/Manager/Links.antt =====
-- The pointers from sessions to connections, through every operation of the manager.
use cpp_tchat.Prelude.{
  ℕ, ◌+◌, ◌-◌, ◌≤◌, ◌≡◌, Option, none, some, [], ◌∷◌, Bytes, arith, ◌==◌, if◌then◌else◌,
}
use cpp_tchat.Prelude.Map.{Map, find, assign, erase, update, fd_key, name_key}
use cpp_tchat.Server.Connection.{ClientConnection, ClientSession, ClientManager}
use cpp_tchat.Server.Io.{is_awaiting_auth}
use cpp_tchat.Server.Manager.{points_to, detached, detach}

-- How many sessions point to the connection.
unfoldable pub links : ℕ → Map Bytes ClientSession → ℕ
links fd [] = 0
links fd ((name, s) ∷ m) = (if points_to fd s then 1 else 0) + links fd m

-- One for a connection that is past its handshake, and none for no connection.
abbrev pub seats : Option ClientConnection → ℕ
seats none = 0
seats (some c) = if is_awaiting_auth c.status then 0 else 1

-- Each session pointer leads to a connection that is in the map and past its handshake, and no two
-- sessions point to one connection.
pub record IsLinked (m : ClientManager) : Type 0 where
  pub at : (fd : ℕ) → links fd m.sessions ≤ seats (find fd m.connections)

pub links-detach :
    (now fd g : ℕ) (m : Map Bytes ClientSession)
    → links g (detach now fd m) ≡ (if g == fd then links g m - 1 else links g m)
unfolding links detach detached
links-detach now fd g [] = ground arith
links-detach now fd g ((name, s) ∷ m) = ground (arith, links-detach now fd g m)

pub links-assign :
    (g : ℕ) (name : Bytes) (s : ClientSession) (m : Map Bytes ClientSession)
    → links g (assign name s m) ≤ (if points_to g s then 1 else 0) + links g m
unfolding links assign
links-assign g name s [] = omega arith
links-assign g name s ((other, t) ∷ m) = ground (arith, links-assign g name s m)

pub links-erase :
    (g : ℕ) (name : Bytes) (m : Map Bytes ClientSession) → links g (erase name m) ≤ links g m
unfolding links erase
links-erase g name [] = omega arith
links-erase g name ((other, t) ∷ m) = ground (arith, links-erase g name m)

pub links-update :
    (g fd : ℕ) (name : Bytes) (f : ClientSession → ClientSession) (m : Map Bytes ClientSession)
    → ((s : ClientSession) → (f s).connection ≡ some fd)
    → links g (update name f m) ≤ (if fd == g then 1 else 0) + links g m
unfolding links update
links-update g fd name f [] h = omega arith
links-update g fd name f ((other, t) ∷ m) h = ground (arith, links-update g fd name f m h, h t)
