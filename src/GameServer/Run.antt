-- ===== src/GameServer/Run.antt =====
-- The loop of the game server, `_serverLoop` of server/src/GameServer/Implementation.cpp, as a step relation.
-- The quit flag, the clock of the ticks and `poll` belong to the environment, which chooses the steps.
use r_type_server.Prelude.{
  Bool, not, ◌&&◌, ◌==◌, if◌then◌else◌, true, false, ℕ, ◌≡◌, ◌<◌, false, List, [], ◌∷◌, Option,
  none, some, get_elem?,
}
use r_type_server.Gateway.State.{Address, PollFd}
use r_type_server.Gateway.Server.{Polled}
use r_type_server.GameServer.State.{GameServer, Game}
use r_type_server.GameServer.Sessions.{served}
use r_type_server.GameServer.Loop.{cleanup_server, send_game_snapshots, game_loop_tick}
use r_type_server.GameServer.Server.{
  init_server, failed, lost, started, failed, lost, World, handle_loop, turn,
}

-- The fields of a `GameServer` when it is made.
abbrev pub fresh : Address → Address → GameServer
fresh base external = record {
  fds = [];
  nfds = 1;
  sock = 0;
  sockets = [];
  tcp_handle = 0;
  is_running = false;
  next_id = 0;
  base_endpoint = base;
  external_endpoint = external;
  send_spans = [];
  recv_packets = [];
  tcp_recv_spans = [];
  tcp_send_spans = [];
  parse_errors = [];
  client_ids = [];
  endpoint_to_handle = [];
  endpoint_to_client = [];
  client_endpoints = [];
  client_sequence_nums = [];
  last_received_seq = [];
  sack_bits = [];
  client_states = [];
  auth_states = [];
  latency_metrics = [];
  ep_sequence_nums = [];
  ep_last_received_seq = [];
  ep_sack_bits = [];
  ep_client_states = [];
  ep_auth_states = [];
  client_to_game = [];
  next_game_id = 1;
  game_instances = [];
}

-- Whether a turn at the descriptor receives and parses datagrams.
unfoldable pub hears : PollFd → GameServer → Bool
hears p gs = not p.rev_error && (p.handle == gs.sock && p.rev_in)

-- One step: a poll, a turn at some descriptor with what the network and the clocks gave in it, or a tick
-- of the games with its snapshots. The turns that receive datagrams are told by the index.
pub data Step (gs : GameServer) : Option World → GameServer → Type 0 where
  polled : (fds : List PollFd) → Polled gs.fds fds → Step gs none (record gs { fds = fds })
  turned :
      (i : ℕ) (p : PollFd) (world : World) (gs' : GameServer) (j : ℕ)
      → i < gs.nfds
      → get_elem? gs.fds i ≡ some p
      → handle_loop i p world gs ≡ turn gs' j
      → Step gs (if hears p gs then some world else none) gs'
  ticked :
      (tick : Game → Game) (gs' : GameServer)
      → send_game_snapshots (game_loop_tick tick gs) ≡ served gs'
      → Step gs none gs'

abbrev pub noted : Option World → List World → List World
noted none worlds = worlds
noted (some world) worlds = world ∷ worlds

-- The loop up to some step, with what was given in the turns that received datagrams, the last first.
pub data Reach (gs : GameServer) : List World → GameServer → Type 0 where
  here : Reach gs [] gs
  next :
      {worlds : List World} {given : Option World} {gs' gs'' : GameServer}
      → Reach gs worlds gs'
      → Step gs' given gs''
      → Reach gs (noted given worlds) gs''

-- `StartServer`, from its call to its return. It does nothing to a server that runs; an `Exception` ends it where
-- it is, without the cleanup.
pub data Life (gs : GameServer) : GameServer → Type 0 where
  running : gs.is_running ≡ true → Life gs gs
  not_started :
      (listening connected : Option ℕ) (gs' : GameServer)
      → gs.is_running ≡ false
      → init_server listening connected gs ≡ failed gs'
      → Life gs gs'
  stopped :
      (listening connected : Option ℕ) (first last : GameServer) (worlds : List World)
      → gs.is_running ≡ false
      → init_server listening connected gs ≡ started first
      → Reach first worlds last
      → Life gs (cleanup_server last)
  gateway_lost :
      (listening connected : Option ℕ) (first last gs' : GameServer) (worlds : List World) (i : ℕ)
      (p : PollFd) (world : World)
      → gs.is_running ≡ false
      → init_server listening connected gs ≡ started first
      → Reach first worlds last
      → i < last.nfds
      → get_elem? last.fds i ≡ some p
      → handle_loop i p world last ≡ lost gs'
      → Life gs gs'
