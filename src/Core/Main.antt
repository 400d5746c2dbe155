-- ===== src/Core/Main.antt =====
-- The start of the program: core/src/main.cpp, StartServer.cpp and SetSigHandlers.cpp. What a thread
-- does is the server that it runs.
use r_type_server.Prelude.{
  ◌-◌, ◌&&◌, ℕ, zero, suc, ◌+◌, ◌%◌, ◌^◌, Bool, true, List, [], ◌∷◌, ◌++◌, Option, none, some, ◌==◌,
  leb, if◌then◌else◌,
}
use r_type_server.Prelude.Dict.{list_beq}
use r_type_server.Gateway.State.{Address}
use r_type_server.Text.{Text, text}
use r_type_server.Core.Config.{Config, Result, ok, invalid, get_config}

-- A server in a thread of its own: the arguments of `initServer`, and those of the constructor of
-- `GameServer`.
pub data Start : Type 0 where
  gateway : Address → Start
  game_server : Address → ℕ → Address → Address → Start

-- What the system has for the threads: room for so many thread objects at the `reserve` of `makeAllThreads`
-- and at that of `startUdpServers`, and so many threads that it can start.
pub record Host : Type 0 where
  pub for_all : ℕ
  pub for_servers : ℕ
  pub threads : ℕ

-- `max_size` of a vector of threads, which have eight bytes.
abbrev pub max_size : ℕ
max_size = 2 ^ 60 - 1

-- `reserve` throws `length_error` above `max_size`, and `bad_alloc` without the room.
abbrev pub can_reserve : ℕ → ℕ → Bool
can_reserve room n = leb n max_size && leb n room

-- The servers that are started, in their order: all of them, or those before an exception leaves a noexcept
-- function.
pub data Threads : Type 0 where
  all_started : List Start → Threads
  cut_short : List Start → Threads

abbrev pub and_then : Threads → Threads → Threads
and_then (all_started l) (all_started l') = all_started (l ++ l')
and_then (all_started l) (cut_short l') = cut_short (l ++ l')
and_then (cut_short l) t = cut_short l

-- A thread, where the system can start one.
abbrev pub start_tcp_server : ℕ → Address → Threads
start_tcp_server threads endpoint =
    if threads == 0 then cut_short [] else all_started (gateway endpoint ∷ [])

-- `++endpoint.port`, a uint16_t.
abbrev pub next_port : Address → Address
next_port (ip, port) = (ip, (port + 1) % 2 ^ 16)

-- The loop, with n rounds left and so many threads.
unfoldable pub udp_loop : ℕ → ℕ → ℕ → Address → Address → Address → Threads
udp_loop zero left ncores tcp base external = all_started []
udp_loop (suc n) zero ncores tcp base external = cut_short []
udp_loop (suc n) (suc left) ncores tcp base external =
    and_then (all_started (game_server base ncores tcp external ∷ []))
      (udp_loop n left ncores tcp (next_port base) (next_port external))

unfoldable pub start_udp_servers : ℕ → ℕ → Address → ℕ → Address → Address → Threads
unfolding udp_loop
start_udp_servers room left base ncores tcp external =
    if can_reserve room ncores then udp_loop ncores left ncores tcp base external else cut_short []

-- The sum that is reserved is a size_t.
unfoldable pub make_all_threads : Host → Config → Threads
unfolding start_udp_servers
make_all_threads host cfg =
    let wanted =
      ((if cfg.tcp_only then 0 else cfg.n_cores) + (if cfg.udp_only then 0 else 1)) % 2 ^ 64 in
    if can_reserve host.for_all wanted
    then and_then
        (if cfg.udp_only then all_started [] else start_tcp_server host.threads cfg.tcp_endpoint)
        (if cfg.tcp_only
          then all_started []
          else start_udp_servers host.for_servers
              (if cfg.udp_only then host.threads else host.threads - 1) cfg.udp_endpoint cfg.n_cores
              cfg.tcp_endpoint cfg.external_udp_endpoint)
    else cut_short []

-- `parseArgs` of the arguments after the program's name: 0, 1 or 84, and the path.
unfoldable pub parse_args : List Text → Text → ℕ × Text
parse_args [] cfg_file = (0, cfg_file)
parse_args (arg ∷ []) cfg_file = (if list_beq arg (text "-h") then 1 else 84, cfg_file)
parse_args (arg ∷ value ∷ args) cfg_file =
    let rest = parse_args args value in
    if list_beq arg (text "-h")
    then (1, cfg_file)
    else if list_beq arg (text "-c")
    then rest
    else (84, cfg_file)

-- How `main` goes, with the servers that ran: an exit code, or an exception that leaves a noexcept function.
pub data Run : Type 0 where
  exits : ℕ → List Start → Run
  terminated : List Start → Run
  undefined : Run

abbrev pub outcome : Threads → Run
outcome (all_started l) = exits 0 l
outcome (cut_short l) = terminated l

-- `beside_binary` is the path of `r-type_server.cfg` beside the binary, none where `canonical` throws;
-- `files` gives the contents of the files that can be opened. With no argument `parse_args` gives 0.
unfoldable pub main : Host → Option Text → (Text → Option Text) → Address → List Text → Run
unfolding parse_args get_config make_all_threads
main host none files blank args = terminated []
main host (some beside_binary) files blank args =
    let (ret, cfg_file) = parse_args args beside_binary in
    if ret == 0
    then elim (files cfg_file) [
      | none ↦ exits 84 []
      | some file ↦ elim (get_config blank file) [
        | ok cfg ↦ outcome (make_all_threads host cfg)
        | invalid ↦ exits 84 []
        | Result.undefined ↦ Run.undefined
      ]
    ]
    else exits (if ret == 84 then 84 else 0) []

-- `sig_count` and `quitServer`.
pub record Signals : Type 0 where
  pub sig_count : ℕ
  pub quit_server : Bool

abbrev pub max_sig_count : ℕ
max_sig_count = 3

-- `handle_signals`; none is `abort`.
unfoldable pub handle_signals : Signals → Option Signals
handle_signals s =
    if leb max_sig_count (s.sig_count + 1)
    then none
    else some (record { sig_count = s.sig_count + 1; quit_server = true })
