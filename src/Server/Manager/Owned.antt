-- ===== src/Server/Manager/Owned.antt =====
-- The descriptors that `accept` has given, through every operation of the manager: which of them are
-- open, by the calls that were made.
use cpp_tchat.Prelude.{
  ℕ, ◌≡◌, refl, Bool, true, false, not, ◌&&◌, Option, none, some, List, [], ◌∷◌, arith,
  Option-cases, Bool-cases, inl, inr, ◌==◌, if◌then◌else◌,
}
use cpp_tchat.Prelude.Map.{find, assign, fd_key, name_key, find-assign, find-erase}
use cpp_tchat.Server.Connection.{
  ClientConnection, ClientManager, new_connection, Call, set_blocking, close,
}
use cpp_tchat.Server.Manager.{disconnect, accept_client, accept_fd, AcceptAnswers}

-- `accept_client` makes every descriptor that `accept` returns blocking, first of all.
unfoldable pub opened : ℕ → List Call → Bool
opened fd [] = false
opened fd (set_blocking g ∷ calls) = let rest = opened fd calls in if g == fd then true else rest
opened fd (close g ∷ calls) = let rest = opened fd calls in if g == fd then false else rest
opened fd (_ ∷ calls) = opened fd calls

-- `accept` has returned no descriptor that was open.
unfoldable pub accepts_fresh : List Call → Bool
accepts_fresh [] = true
accepts_fresh (set_blocking g ∷ calls) = not (opened g calls) && accepts_fresh calls
accepts_fresh (_ ∷ calls) = accepts_fresh calls

-- Each `close` was of an open descriptor.
unfoldable pub closes_open : List Call → Bool
closes_open [] = true
closes_open (close g ∷ calls) = opened g calls && closes_open calls
closes_open (_ ∷ calls) = closes_open calls

abbrev pub is_present : Option ClientConnection → Bool
is_present none = false
is_present (some c) = true

-- No descriptor was closed twice, and the open ones are those in the map.
pub record IsOwned (m : ClientManager) : Type 0 where
  pub once : closes_open m.calls ≡ true
  pub at : (fd : ℕ) → is_present (find fd m.connections) ≡ opened fd m.calls

-- From one state to a later one, as long as `accept` returns no open descriptor.
pub record Owns (m n : ClientManager) : Type 0 where
  pub before : accepts_fresh n.calls ≡ true → accepts_fresh m.calls ≡ true
  pub keeps : IsOwned m → accepts_fresh n.calls ≡ true → IsOwned n

pub Owns-trans : {a b c : ClientManager} → Owns a b → Owns b c → Owns a c
Owns-trans h k = record {
  before = λ e. h.before (k.before e);
  keeps = λ owned e. k.keeps (h.keeps owned (k.before e)) e;
}

-- The connections under the same keys, and no call.
pub present-Owns :
    (m n : ClientManager)
    → n.calls ≡ m.calls
    → ((fd : ℕ) → is_present (find fd n.connections) ≡ is_present (find fd m.connections))
    → Owns m n
present-Owns m n same keys = record {
  before = λ e. rw same at e;
  keeps =
      λ h e. record { once = rw same h.once; at = λ fd. ground (arith, h.at fd, keys fd, same) };
}

pub disconnect-Owns : (now : ℕ) (p : Option ℕ) (m : ClientManager) → Owns m (disconnect now p m).1
unfolding disconnect opened accepts_fresh closes_open
disconnect-Owns now none m = present-Owns m m refl (λ fd. refl)
disconnect-Owns now (some fd) m = elim (Option-cases (find fd m.connections)) [
  | inl gone ↦ rw (gone, disconnect) (present-Owns m m refl (λ fd. refl))
  | inr (c, e) ↦
      rw (e, disconnect)
        (elim (Bool-cases c.ssl) [
          | inl tls ↦ rw tls (record {
            before = λ e. e;
            keeps = λ h _. record {
              once = ground (arith, h.once, h.at fd, e);
              at = λ g. ground (arith, h.at g, find-erase g fd m.connections);
            };
          })
          | inr bare ↦ rw bare (record {
            before = λ e. e;
            keeps = λ h _. record {
              once = ground (arith, h.once, h.at fd, e);
              at = λ g. ground (arith, h.at g, find-erase g fd m.connections);
            };
          })
        ])
]

accept_fd-Owns :
    (a : AcceptAnswers) (now fd : ℕ) (m : ClientManager) → Owns m (accept_fd a now fd m).1
unfolding accept_fd opened accepts_fresh closes_open
accept_fd-Owns a now fd m = record {
  before = λ e. ground (arith, e);
  keeps = λ h e. record {
    once = ground (arith, h.once, h.at fd, e);
    at = λ g. ground (
      arith,
      e,
      h.at g,
      h.at fd,
      find-assign g fd (new_connection fd now) m.connections,
      find-erase g fd (assign fd (new_connection fd now) m.connections),
    );
  };
}

pub accept_client-Owns :
    (a : AcceptAnswers) (now : ℕ) (m : ClientManager) → Owns m (accept_client a now m).1
unfolding accept_client
accept_client-Owns a now m = elim (Bool-cases a.ssl_ctx) [
  | inl ctx ↦ rw ctx (elim (Option-cases a.client_fd) [
    | inl e ↦ rw e (present-Owns m m refl (λ fd. refl))
    | inr (fd, e) ↦ rw e (accept_fd-Owns a now fd m)
  ])
  | inr ctx ↦ rw ctx (present-Owns m m refl (λ fd. refl))
]
