-- ===== src/Core/Starts.antt =====
-- Which servers the program starts.
use r_type_server.Prelude.{
  ◌-◌, ◌&&◌, ◌≤◌, not, ltb, true, false, ℕ, zero, suc, ◌+◌, ◌%◌, ◌^◌, ◌<◌, ◌≡◌, ◌≢◌, refl, ap, ◌∙◌,
  List, [], ◌∷◌, ◌++◌, Option, none, some, arith, ◌==◌, map, if◌then◌else◌,
}
use mathlib.Core.Path.{ap₂}
use r_type_server.Gateway.State.{Address}
use r_type_server.Text.{Text}
use r_type_server.Core.Config.{Config, Result, ok, invalid, get_config}
use r_type_server.Core.Main.{
  Start, next_port, gateway, game_server, udp_loop, start_udp_servers, make_all_threads, Host,
  max_size, can_reserve, all_started, cut_short, and_then, terminated, outcome, parse_args, main,
  Run, exits,
}
use r_type_server.Core.ValidValues.{IsEndpoint}
use r_type_server.Core.Validated.{IsValid, get_config-IsValid}

-- The game server that is the i-th: its two ports are i further on.
abbrev pub server_at : ℕ → Address → ℕ → Address → Address → Start
server_at i (ip, port) ncores tcp (ext_ip, ext_port) =
    game_server (ip, (port + i) % 2 ^ 16) ncores tcp (ext_ip, (ext_port + i) % 2 ^ 16)

-- n numbers from k on.
pub range : ℕ → ℕ → List ℕ
range k zero = []
range k (suc n) = k ∷ range (k + 1) n

abbrev shifted : ℕ → Address → Address
shifted k (ip, port) = (ip, (port + k) % 2 ^ 16)

udp_loop-range :
    (n left k ncores : ℕ) (tcp base external : Address)
    → n ≤ left
    → udp_loop n left ncores tcp (shifted k base) (shifted k external)
      ≡ all_started (map (λ i. server_at i base ncores tcp external) (range k n))
unfolding udp_loop range
udp_loop-range zero left k ncores tcp base external le = refl
udp_loop-range (suc n) zero k ncores tcp base external le = absurd (omega arith)
udp_loop-range (suc n) (suc left) k ncores tcp base external le =
    ap (and_then (all_started (server_at k base ncores tcp external ∷ []))) (
      ap₂ (udp_loop n left ncores tcp) (next base) (next external)
      ∙ udp_loop-range n left (k + 1) ncores tcp base external (omega arith))
  where
    next : (a : Address) → next_port (shifted k a) ≡ shifted (k + 1) a
    next (ip, port) = ap (λ p. (ip, p)) (omega arith)

-- The system has room for all the threads, and can start them.
pub record Enough (host : Host) (cfg : Config) : Type 0 where
  pub few : cfg.n_cores + 1 ≤ max_size
  pub for_all : cfg.n_cores + 1 ≤ host.for_all
  pub for_servers : cfg.n_cores ≤ host.for_servers
  pub threads : cfg.n_cores + 1 ≤ host.threads

-- What is left of the threads after the gateway is started.
abbrev left_for_servers : Host → Config → ℕ
left_for_servers host cfg = if cfg.udp_only then host.threads else host.threads - 1

start_udp_servers-servers :
    (host : Host) (cfg : Config)
    → IsValid cfg
    → Enough host cfg
    → start_udp_servers host.for_servers
        (left_for_servers host cfg)
        cfg.udp_endpoint
        cfg.n_cores
        cfg.tcp_endpoint
        cfg.external_udp_endpoint
      ≡ all_started (
          map
            (λ i.
              server_at i cfg.udp_endpoint cfg.n_cores cfg.tcp_endpoint cfg.external_udp_endpoint)
            (range 0 cfg.n_cores))
unfolding start_udp_servers
start_udp_servers-servers host cfg v enough = rw room (
    ap₂ (udp_loop cfg.n_cores (left_for_servers host cfg) cfg.n_cores cfg.tcp_endpoint)
      (unshifted v.ranges.udp.2) (unshifted v.ranges.external.2)
    ∙ udp_loop-range cfg.n_cores (left_for_servers host cfg) 0 cfg.n_cores cfg.tcp_endpoint
        cfg.udp_endpoint cfg.external_udp_endpoint (ground (arith, enough.threads)))
  where
    room : can_reserve host.for_servers cfg.n_cores ≡ true
    room = ground (arith, enough.few, enough.for_servers)

    unshifted : {a : Address} → a.1 < 2 ^ 16 → a ≡ shifted 0 a
    unshifted {a} lt = ap (λ p. (a.0, p)) (omega arith)

-- The servers of a valid configuration, where the system has enough for their threads, in the order of their
-- start: the gateway, unless there are only game servers; then, unless there is only the gateway, as many game
-- servers as cores, the i-th on the UDP ports that are i after the configured ones, modulo 2 ^ 16, and all with
-- the gateway's endpoint.
pub make_all_threads-servers :
    (host : Host) (cfg : Config)
    → IsValid cfg
    → Enough host cfg
    → make_all_threads host cfg
      ≡ all_started (
          (if cfg.udp_only then [] else gateway cfg.tcp_endpoint ∷ [])
          ++ (if cfg.tcp_only
              then []
              else map
                  (λ i.
                    server_at i cfg.udp_endpoint cfg.n_cores cfg.tcp_endpoint
                      cfg.external_udp_endpoint)
                  (range 0 cfg.n_cores)))
unfolding make_all_threads
make_all_threads-servers host cfg v enough =
    ground (
      arith,
      start_udp_servers-servers host cfg v enough,
      enough.few,
      enough.for_all,
      enough.threads,
    )

-- With more cores than a vector has room for threads, and with game servers, the program is terminated: no game
-- server is started, and the gateway only if the number of cores is 2 ^ 64 - 1, so that the sum that is reserved
-- first wraps around, the gateway is wanted, and the system can start a thread.
pub make_all_threads-cut_short :
    (host : Host) (cfg : Config)
    → IsValid cfg
    → max_size < cfg.n_cores
    → cfg.tcp_only ≡ false
    → make_all_threads host cfg
      ≡ cut_short (
          if not cfg.udp_only && (cfg.n_cores == 2 ^ 64 - 1 && ltb 0 host.threads)
          then gateway cfg.tcp_endpoint ∷ []
          else [])
unfolding make_all_threads start_udp_servers
make_all_threads-cut_short host cfg v many servers = ground (arith, v.ranges.cores.1, many, servers)

-- The servers that ran.
abbrev pub ran : Run → List Start
ran (exits code l) = l
ran (terminated l) = l
ran Run.undefined = []

-- Where the path of the binary can be found, and an endpoint has 16 bytes and a 16-bit port when it is made:
-- if the program starts a server, then its arguments are right, the file that they name, or else the one
-- beside the binary, holds a valid configuration, and what the program starts and how it ends is what the
-- threads of this configuration come to.
pub main-IsValid :
    (host : Host) (beside_binary : Text) (files : Text → Option Text) (blank : Address)
    (args : List Text)
    → IsEndpoint blank
    → ran (main host (some beside_binary) files blank args) ≢ []
    → (file : Text) × (cfg : Config) × ((parse_args args beside_binary).0 ≡ 0)
      × (files (parse_args args beside_binary).1 ≡ some file)
      × (get_config blank file ≡ ok cfg)
      × IsValid cfg
      × (main host (some beside_binary) files blank args ≡ outcome (make_all_threads host cfg))
unfolding main
main-IsValid host beside_binary files blank args b ne =
    after_args (parse_args args beside_binary).0 refl (files (parse_args args beside_binary).1) refl
      ne
  where
    Found : Run → Type 0
    Found r =
        (file : Text) × (cfg : Config) × ((parse_args args beside_binary).0 ≡ 0)
        × (files (parse_args args beside_binary).1 ≡ some file)
        × (get_config blank file ≡ ok cfg)
        × IsValid cfg
        × (r ≡ outcome (make_all_threads host cfg))

    configured : Result Config → Run
    configured r = elim r as (λ _. Run) [
      | ok cfg ↦ outcome (make_all_threads host cfg)
      | invalid ↦ exits 84 []
      | Result.undefined ↦ Run.undefined
    ]

    after_config :
        (file : Text) (r : Result Config)
        → get_config blank file ≡ r
        → (parse_args args beside_binary).0 ≡ 0
        → files (parse_args args beside_binary).1 ≡ some file
        → ran (configured r) ≢ []
        → Found (configured r)
    after_config file (ok cfg) er ea ef ne =
        (file, cfg, ea, ef, er, get_config-IsValid blank file cfg b er, refl)
    after_config file invalid er ea ef ne = absurd (ne refl)
    after_config file Result.undefined er ea ef ne = absurd (ne refl)

    opened_run : Option Text → Run
    opened_run opened = elim opened as (λ _. Run) [
      | none ↦ exits 84 []
      | some file ↦ configured (get_config blank file)
    ]

    after_args :
        (ret : ℕ)
        → (parse_args args beside_binary).0 ≡ ret
        → (opened : Option Text) → files (parse_args args beside_binary).1 ≡ opened
        → ran (if ret == 0 then opened_run opened else exits (if ret == 84 then 84 else 0) []) ≢ []
        → Found (if ret == 0 then opened_run opened else exits (if ret == 84 then 84 else 0) [])
    after_args zero ea none ef ne = absurd (ne refl)
    after_args zero ea (some file) ef ne = after_config file (get_config blank file) refl ea ef ne
    after_args (suc ret) ea opened ef ne = absurd (ne (ground arith))
