-- ===== src/Gateway/State.antt =====
-- The fields of `Gateway` in server/include/RTypeSrv/Gateway.hpp.
use r_type_server.Prelude.{ℕ, ◌*◌, Bool, false, List, []}
use r_type_server.Prelude.Dict.{Dict}
use r_type_server.Wire.{Bytes}

-- `MAX_PARSE_ERRORS`, `MAX_BUFFER_SIZE`, `HEADER_MAGIC`, `MINIMUM_VERSION`, `MAXIMUM_VERSION`
abbrev pub max_parse_errors : ℕ
max_parse_errors = 3

abbrev pub max_buffer_size : ℕ
max_buffer_size = 64 * 1024

abbrev pub header_magic : ℕ
header_magic = 0x4257

abbrev pub minimum_version : ℕ
minimum_version = 1

abbrev pub maximum_version : ℕ
maximum_version = 1

-- `IP`: the 16 bytes of an address, and a port.
abbrev pub Address : Type 0
Address = List ℕ × ℕ

-- `pollfd`: the interest in reading and writing, and what `poll` reported. `rev_error` is any of
-- POLLERR, POLLHUP and POLLNVAL.
pub record PollFd : Type 0 where
  pub handle : ℕ
  pub pollin : Bool
  pub pollout : Bool
  pub rev_error : Bool
  pub rev_in : Bool
  pub rev_out : Bool

pub record Socket : Type 0 where
  pub handle : ℕ
  pub endpoint : Address

pub record Gateway : Type 0 where
  pub fds : List PollFd
  pub is_init : Bool
  pub nfds : ℕ
  pub sock : ℕ
  pub sockets : Dict ℕ Socket
  pub send_spans : Dict ℕ (List Bytes)
  pub recv_spans : Dict ℕ Bytes
  pub next_id : ℕ
  pub is_running : Bool
  pub game_to_gs : Dict ℕ Address
  pub gs_registry : Dict Address ℕ
  pub parse_errors : Dict ℕ ℕ
  pub pending_creates : Dict ℕ (ℕ × ℕ)
  pub occupancy_cache : Dict Address ℕ
  pub gs_addr_to_handle : Dict Address ℕ

-- The values of the members before `initServer`.
abbrev pub fresh : Gateway
fresh = record {
  fds = [];
  is_init = false;
  nfds = 1;
  sock = 0;
  sockets = [];
  send_spans = [];
  recv_spans = [];
  next_id = 0;
  is_running = false;
  game_to_gs = [];
  gs_registry = [];
  parse_errors = [];
  pending_creates = [];
  occupancy_cache = [];
  gs_addr_to_handle = [];
}
