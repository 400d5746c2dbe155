-- ===== src/Gateway/Outbox.antt =====
-- What the handlers leave to be sent.
use r_type_server.Prelude.{
  ℕ, ◌≡◌, refl, Bool, true, List, [], ◌∷◌, ◌++◌, Option, none, some, arith, ◌==◌, if◌then◌else◌,
}
use r_type_server.Prelude.Dict.{nat_eq, get, lookup-insert}
use r_type_server.Wire.{Bytes}
use r_type_server.Gateway.State.{Gateway, PollFd}
use r_type_server.Gateway.Helpers.{set_pollout, send_to}

-- The handles of the descriptors, in their order.
unfoldable pub handles : List PollFd → List ℕ
handles [] = []
handles (fd ∷ fds) = fd.handle ∷ handles fds

pub handles-set_pollout : (h : ℕ) (fds : List PollFd) → handles (set_pollout h fds) ≡ handles fds
unfolding set_pollout handles
handles-set_pollout h [] = refl
handles-set_pollout h (fd ∷ fds) = ground (arith, handles-set_pollout h fds)

-- Whether the descriptor of a handle waits for a chance to write.
unfoldable pub pollout_of : ℕ → List PollFd → Option Bool
pollout_of h [] = none
pollout_of h (fd ∷ fds) = if fd.handle == h then some fd.pollout else pollout_of h fds

abbrev pub waiting : Option Bool → Option Bool
waiting none = none
waiting (some b) = some true

pub pollout_of-set_pollout :
    (h j : ℕ) (fds : List PollFd)
    → pollout_of j (set_pollout h fds)
      ≡ (if h == j then waiting (pollout_of h fds) else pollout_of j fds)
unfolding pollout_of set_pollout
pollout_of-set_pollout h j [] = ground arith
pollout_of-set_pollout h j (fd ∷ fds) = ground (arith, pollout_of-set_pollout h j fds)

-- What is queued for a handle.
unfoldable pub outbox : ℕ → Gateway → List Bytes
unfolding get
outbox h gw = get h [] gw.send_spans

-- A message goes to the end of its peer's queue, after what is there; no other queue changes; and a
-- descriptor of the peer waits for a chance to write.
pub outbox-send_to :
    (h j : ℕ) (msg : Bytes) (gw : Gateway)
    → (outbox j (send_to h msg gw) ≡ (if h == j then outbox h gw ++ msg ∷ [] else outbox j gw))
      × (pollout_of j (send_to h msg gw).fds
          ≡ (if h == j then waiting (pollout_of h gw.fds) else pollout_of j gw.fds))
unfolding outbox send_to
outbox-send_to h j msg gw = (
  ground (arith, lookup-insert h j (get h [] gw.send_spans ++ msg ∷ []) gw.send_spans),
  pollout_of-set_pollout h j gw.fds,
)
