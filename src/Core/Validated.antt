-- ===== src/Core/Validated.antt =====
-- What the servers may rely on in a configuration that `getConfig` returns.
use r_type_server.Prelude.{
  ℕ, ◌^◌, ◌<◌, ◌≡◌, ◌≢◌, refl, Bool, true, false, ◌&&◌, ◌||◌, arith, if◌then◌else◌, ◌==◌,
}
use r_type_server.Wire.{Bytes}
use r_type_server.Gateway.State.{Address}
use r_type_server.GameServer.Loop.{all_zero}
use r_type_server.Text.{Text, lines_of}
use r_type_server.Core.Config.{
  Config, Result, ok, invalid, undefined, initial, build_ip_v4, read_lines, check_endpoint,
  validate_config, get_config, default_tcp_port, default_udp_port,
}
use r_type_server.Core.Outcomes.{OkIs}
use r_type_server.Core.ValidValues.{IsEndpoint}
use r_type_server.Core.Valid.{InRange, in_range, read_lines-InRange}

-- An address that is not all zero, and a port that is not 0.
abbrev pub IsUsable : Address → Type 0
IsUsable (ip, port) = (all_zero ip ≡ false) × (0 < port)

pub record IsValid (cfg : Config) : Type 0 where
  pub ranges : InRange cfg
  pub exclusive : cfg.tcp_only && cfg.udp_only ≡ false
  pub tcp_usable : cfg.tcp_only || cfg.udp_only ≡ true → IsUsable cfg.tcp_endpoint
  pub udp_usable :
      cfg.udp_only ≡ true
      → IsUsable cfg.udp_endpoint
        × IsUsable cfg.external_udp_endpoint
        × (cfg.tcp_endpoint.1 ≢ cfg.udp_endpoint.1)

check_endpoint-IsEndpoint :
    (ip : Bytes) (port : ℕ) (e : Address)
    → IsEndpoint (ip, port)
    → IsEndpoint e
    → IsEndpoint (check_endpoint ip port e)
unfolding check_endpoint
check_endpoint-IsEndpoint ip port e d v = ground arith

check_endpoint-IsUsable :
    (ip : Bytes) (port : ℕ) (e : Address)
    → IsUsable (ip, port)
    → IsUsable (check_endpoint ip port e)
unfolding check_endpoint
check_endpoint-IsUsable ip port e d = ground arith

any-IsUsable :
    (port : ℕ)
    → 0 < port
    → port < 2 ^ 16
    → IsUsable (build_ip_v4 0 0 0 0, port) × IsEndpoint (build_ip_v4 0 0 0 0, port)
unfolding build_ip_v4
any-IsUsable port pos lt = ((refl, pos), omega arith)

validate_config-IsValid : (cfg : Config) → InRange cfg → OkIs IsValid (validate_config cfg)
unfolding validate_config
validate_config-IsValid cfg v = at_flags cfg.tcp_only cfg.udp_only refl refl
  where
    any : Bytes
    any = build_ip_v4 0 0 0 0

    tcp : Address
    tcp = check_endpoint any default_tcp_port cfg.tcp_endpoint

    udp : Address
    udp = check_endpoint any default_udp_port cfg.udp_endpoint

    external : Address
    external = check_endpoint udp.0 udp.1 cfg.external_udp_endpoint

    default_tcp : IsUsable (any, default_tcp_port) × IsEndpoint (any, default_tcp_port)
    default_tcp = any-IsUsable default_tcp_port (omega arith) (omega arith)

    default_udp : IsUsable (any, default_udp_port) × IsEndpoint (any, default_udp_port)
    default_udp = any-IsUsable default_udp_port (omega arith) (omega arith)

    tcp_usable : IsUsable tcp
    tcp_usable = check_endpoint-IsUsable any default_tcp_port cfg.tcp_endpoint default_tcp.0

    tcp_in_range : IsEndpoint tcp
    tcp_in_range =
        check_endpoint-IsEndpoint any default_tcp_port cfg.tcp_endpoint default_tcp.1 v.tcp

    udp_usable : IsUsable udp
    udp_usable = check_endpoint-IsUsable any default_udp_port cfg.udp_endpoint default_udp.0

    udp_in_range : IsEndpoint udp
    udp_in_range =
        check_endpoint-IsEndpoint any default_udp_port cfg.udp_endpoint default_udp.1 v.udp

    external_usable : IsUsable external
    external_usable = check_endpoint-IsUsable udp.0 udp.1 cfg.external_udp_endpoint udp_usable

    external_in_range : IsEndpoint external
    external_in_range =
        check_endpoint-IsEndpoint udp.0 udp.1 cfg.external_udp_endpoint udp_in_range v.external

    only_tcp : Config
    only_tcp = record cfg { tcp_endpoint = tcp }

    only_udp : Config
    only_udp = record cfg {
      tcp_endpoint = tcp;
      udp_endpoint = udp;
      external_udp_endpoint = external;
    }

    at_ports :
        (same : Bool)
        → (tcp.1 == udp.1) ≡ same
        → cfg.tcp_only ≡ false
        → OkIs IsValid (if same then invalid else ok only_udp)
    at_ports true e et = tt
    at_ports false e et = record {
      ranges = in_range tcp_in_range udp_in_range external_in_range v.cores;
      exclusive = ground arith;
      tcp_usable = λ _. tcp_usable;
      udp_usable = λ _. (udp_usable, external_usable, ground arith);
    }

    at_flags :
        (t u : Bool)
        → cfg.tcp_only ≡ t
        → cfg.udp_only ≡ u
        → OkIs IsValid (
            if t && u
            then invalid
            else if t
            then ok only_tcp
            else if u
            then if tcp.1 == udp.1 then invalid else ok only_udp
            else ok cfg)
    at_flags true true et eu = tt
    at_flags true false et eu = record {
      ranges = in_range tcp_in_range v.udp v.external v.cores;
      exclusive = ground arith;
      tcp_usable = λ _. tcp_usable;
      udp_usable = λ e. absurd (cc);
    }
    at_flags false true et eu = at_ports (tcp.1 == udp.1) refl et
    at_flags false false et eu = record {
      ranges = v;
      exclusive = ground arith;
      tcp_usable = λ e. absurd (ground arith);
      udp_usable = λ e. absurd (cc);
    }

-- Where an endpoint has 16 bytes and a 16-bit port when it is made, a configuration that is read from a file
-- is usable. Its addresses have 16 bytes and its ports 16 bits; the number of cores is at least 1 and fits
-- in 64 bits; not both servers are left out. The gateway alone, or the game servers
-- alone, have a TCP endpoint that is not zero; the game servers alone have UDP endpoints that are not zero,
-- with another port than TCP's.
pub get_config-IsValid :
    (blank : Address) (file : Text) (cfg : Config)
    → IsEndpoint blank
    → get_config blank file ≡ ok cfg
    → IsValid cfg
unfolding get_config
get_config-IsValid blank file cfg b e =
    after_lines (read_lines (lines_of file) (initial blank))
      (read_lines-InRange (lines_of file) (initial blank) (in_range b b b (omega arith))) e
  where
    of_ok : (r : Result Config) → OkIs IsValid r → r ≡ ok cfg → IsValid cfg
    of_ok (ok cfg') w e = ground arith
    of_ok invalid w e = cc
    of_ok undefined w e = cc

    after_lines :
        (r : Result Config)
        → OkIs InRange r
        → elim r as (λ _. Result Config) [
          | ok cfg' ↦ validate_config cfg'
          | invalid ↦ invalid
          | undefined ↦ undefined
        ]
          ≡ ok cfg
        → IsValid cfg
    after_lines (ok cfg') v e = of_ok (validate_config cfg') (validate_config-IsValid cfg' v) e
    after_lines invalid v e = cc
    after_lines undefined v e = cc
