-- ===== src/GameServer/State.antt =====
-- The fields of `GameServer` in server/include/RTypeSrv/GameServer.hpp that its operations use. Those
-- that only log or that nothing reads (`_fragment_buffers`, `_player_states`, `_ncores`, …) are left out.
use r_type_server.Prelude.{ℕ, ◌*◌, ◌^◌, ◌-◌, Bool, List, Option, none}
use r_type_server.Prelude.Dict.{Dict}
use r_type_server.Wire.{Bytes}
use r_type_server.Gateway.State.{Address, PollFd, Socket}

abbrev pub max_parse_errors : ℕ
max_parse_errors = 3

abbrev pub max_auth_attempts : ℕ
max_auth_attempts = 3

abbrev pub max_buffer_size : ℕ
max_buffer_size = 64 * 1024

-- In seconds, and in the nanoseconds of the steady clock.
abbrev pub auth_timeout : ℕ
auth_timeout = 5

abbrev pub nanoseconds : ℕ
nanoseconds = 1000000000

pub data AuthState : Type 0 where
  nothing challenged authenticated : AuthState

-- The field `challenge` is written nowhere.
pub record ClientState : Type 0 where
  pub auth_state : AuthState
  pub session_key : Bytes

pub record AuthChallenge : Type 0 where
  pub timestamp : ℕ
  pub attempts : ℕ

-- Microseconds; `max_rtt` is none while it has its first value, the least of its type. `last_ping` is
-- a time of the steady clock, 0 where there is none.
pub record LatencyMetrics : Type 0 where
  pub min_rtt : ℕ
  pub max_rtt : Option ℕ
  pub avg_rtt : ℕ
  pub samples : ℕ
  pub last_ping : ℕ

abbrev pub no_metrics : LatencyMetrics
no_metrics = record {
  min_rtt = 2 ^ 63 - 1;
  max_rtt = none;
  avg_rtt = 0;
  samples = 0;
  last_ping = 0;
}

pub data PlayerAction : Type 0 where
  move_up move_down move_left move_right stop : PlayerAction

-- What the server touches of a game's `r::Application`: the two event queues and the two resources of
-- the snapshots, each none where the application does not have it. The game engine is a submodule.
pub record Game : Type 0 where
  pub slot_events : Option (List ℕ)
  pub input_events : Option (List (ℕ × PlayerAction))
  pub snapshot : Option Bytes
  pub snapshot_sequence : Option ℕ

-- `_client_*` are by the handle of a client, `_ep_*` by its endpoint.
pub record GameServer : Type 0 where
  pub fds : List PollFd
  pub nfds : ℕ
  pub sock : ℕ
  pub sockets : Dict ℕ Socket
  pub tcp_handle : ℕ
  pub is_running : Bool
  pub next_id : ℕ
  pub base_endpoint : Address
  pub external_endpoint : Address
  pub send_spans : Dict Address (List Bytes)
  pub recv_packets : Dict Address (List Bytes)
  pub tcp_recv_spans : Dict ℕ Bytes
  pub tcp_send_spans : Dict ℕ (List Bytes)
  pub parse_errors : Dict ℕ ℕ
  pub client_ids : Dict ℕ ℕ
  pub endpoint_to_handle : Dict Address ℕ
  pub endpoint_to_client : Dict Address ℕ
  pub client_endpoints : Dict ℕ Address
  pub client_sequence_nums : Dict ℕ ℕ
  pub last_received_seq : Dict ℕ ℕ
  pub sack_bits : Dict ℕ ℕ
  pub client_states : Dict ℕ ClientState
  pub auth_states : Dict ℕ AuthChallenge
  pub latency_metrics : Dict ℕ LatencyMetrics
  pub ep_sequence_nums : Dict Address ℕ
  pub ep_last_received_seq : Dict Address ℕ
  pub ep_sack_bits : Dict Address ℕ
  pub ep_client_states : Dict Address ClientState
  pub ep_auth_states : Dict Address AuthChallenge
  pub client_to_game : Dict ℕ ℕ
  pub next_game_id : ℕ
  pub game_instances : Dict ℕ Game
