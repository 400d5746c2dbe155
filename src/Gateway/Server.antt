-- ===== src/Gateway/Server.antt =====
-- The life of the gateway: `initServer` of server/src/Gateway/Server.cpp, `_startServer`,
-- `_cleanupServer` and the loop of server/src/Gateway/Implementation.cpp as a step relation. The
-- quit flag, the clock and `poll` belong to the environment, which chooses the steps.
use r_type_server.Prelude.{
  ℕ, ◌≡◌, Bool, true, false, List, [], ◌∷◌, ◌++◌, Option, none, some, if◌then◌else◌, get_elem?, ◌<◌,
  not, ◌||◌,
}
use r_type_server.Prelude.Dict.{endpoint_eq}
use r_type_server.Gateway.State.{Gateway, PollFd}
use r_type_server.Gateway.Net.{handle_loop, Io, turn, send_occupancy_requests}

pub data Started : Type 0 where
  started : Gateway → Started
  failed : Gateway → Started

unfoldable pub init_server : Gateway → Started
init_server gw = if gw.is_init then failed gw else started (record gw { is_init = true })

abbrev pub listener : ℕ → PollFd
listener h = record {
  handle = h;
  pollin = true;
  pollout = false;
  rev_error = false;
  rev_in = false;
  rev_out = false;
}

-- `listening` is the socket that `listen` made, or none where it threw.
unfoldable pub start_server : Option ℕ → Gateway → Started
start_server listening gw = if not gw.is_init || gw.is_running then failed gw else elim listening [
  | none ↦ failed (record gw { is_running = true })
  | some h ↦ started (record gw { is_running = true; sock = h; fds = gw.fds ++ listener h ∷ [] })
]

unfoldable pub cleanup_server : Gateway → Gateway
cleanup_server gw = record gw {
  send_spans = [];
  recv_spans = [];
  sockets = [];
  fds = [];
  nfds = 0;
  next_id = 0;
  is_running = false;
}

-- `poll` writes the `revents` of each descriptor.
pub data Polled : List PollFd → List PollFd → Type 0 where
  end : Polled [] []
  fd :
      {fds fds' : List PollFd} (p : PollFd) (e r w : Bool)
      → Polled fds fds'
      → Polled (p ∷ fds) (record p { rev_error = e; rev_in = r; rev_out = w } ∷ fds')

-- One step of `_serverLoop`: a poll, a turn at some descriptor, or the keepalives.
pub data Step (gw : Gateway) : Gateway → Type 0 where
  polled : (fds : List PollFd) → Polled gw.fds fds → Step gw (record gw { fds = fds })
  turned :
      (i : ℕ) (p : PollFd) (io : Io) (gw' : Gateway) (j : ℕ)
      → i < gw.nfds
      → get_elem? gw.fds i ≡ some p
      → handle_loop i p io gw ≡ turn gw' j
      → Step gw gw'
  requested : Step gw (send_occupancy_requests gw)

pub data Reach (gw : Gateway) : Gateway → Type 0 where
  here : Reach gw gw
  next : {gw' gw'' : Gateway} → Reach gw gw' → Step gw' gw'' → Reach gw gw''
