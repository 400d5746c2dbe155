-- ===== src/Core/Examples.antt =====
-- A configuration file of two game servers, and the program with it.
use r_type_server.Prelude.{
  ◌≡◌, ◌≢◌, List, refl, [], ◌∷◌, ◌++◌, Option, some, true, false, map, arith,
}
use r_type_server.Wire.{Bytes}
use r_type_server.Gateway.State.{Address}
use r_type_server.Text.{Text, text, scan_size}
use r_type_server.Utils.IpToStr.{ip_to_str}
use r_type_server.Core.Config.{Config, ok, get_config, get_ip, build_ip_v4}
use r_type_server.Core.Main.{
  main, make_all_threads, parse_args, Host, all_started, outcome, start_udp_servers, udp_loop,
}
use r_type_server.Core.ValidValues.{IsEndpoint}
use r_type_server.Core.Validated.{IsValid, get_config-IsValid}
use r_type_server.Core.Starts.{
  server_at, range, Enough, ran, make_all_threads-servers, main-IsValid,
}
use r_type_server.Core.Endpoints.{mapped, compatible, get_ip-ip_to_str}

abbrev blank : Address
blank = (0 ∷ 0 ∷ 0 ∷ 0 ∷ 0 ∷ 0 ∷ 0 ∷ 0 ∷ 0 ∷ 0 ∷ 0 ∷ 0 ∷ 0 ∷ 0 ∷ 0 ∷ 0 ∷ [], 0)

blank-IsEndpoint : IsEndpoint blank
blank-IsEndpoint = (
  refl,
  (
    omega arith,
    (
      omega arith,
      (
        omega arith,
        (
          omega arith,
          (
            omega arith,
            (
              omega arith,
              (
                omega arith,
                (
                  omega arith,
                  (
                    omega arith,
                    (
                      omega arith,
                      (
                        omega arith,
                        (
                          omega arith,
                          (omega arith, (omega arith, (omega arith, (omega arith, tt)))),
                        ),
                      ),
                    ),
                  ),
                ),
              ),
            ),
          ),
        ),
      ),
    ),
  ),
  omega arith,
)

abbrev two_servers : Text
two_servers = text "# two game servers" ++ (10 ∷ text "udp_only = 1" ++ (10 ∷ text " n_cores=2 "))

-- 0.0.0.0
abbrev any : Bytes
any = build_ip_v4 0 0 0 0

abbrev two_servers_config : Config
two_servers_config = record {
  tcp_only = false;
  udp_only = true;
  tcp_endpoint = (any, 3000);
  udp_endpoint = (any, 4000);
  external_udp_endpoint = (any, 4000);
  n_cores = 2;
}

two_servers_read : get_config blank two_servers ≡ ok two_servers_config
unfolding get_config build_ip_v4 scan_size
two_servers_read = refl

get_config-IsValid_example : IsValid two_servers_config
get_config-IsValid_example =
    get_config-IsValid blank two_servers two_servers_config blank-IsEndpoint two_servers_read

-- Room for ten threads, and ten threads.
abbrev ten : Host
ten = record { for_all = 10; for_servers = 10; threads = 10 }

ten-Enough : Enough ten two_servers_config
ten-Enough = record {
  few = omega arith;
  for_all = omega arith;
  for_servers = omega arith;
  threads = omega arith;
}

make_all_threads-servers_example :
    make_all_threads ten two_servers_config
    ≡ all_started ([] ++ map (λ i. server_at i (any, 4000) 2 (any, 3000) (any, 4000)) (range 0 2))
make_all_threads-servers_example =
    make_all_threads-servers ten two_servers_config get_config-IsValid_example ten-Enough

get_ip-ip_to_str_example :
    (get_ip (ip_to_str (mapped 192 168 0 1)) ≡ ok (mapped 192 168 0 1))
    × (get_ip (ip_to_str (compatible 192 168 0 1)) ≡ ok (mapped 192 168 0 1))
get_ip-ip_to_str_example =
    get_ip-ip_to_str 192 168 0 1 (omega arith) (omega arith) (omega arith) (omega arith)
      (omega arith)

abbrev one_file : Text → Option Text
one_file path = some two_servers

abbrev two_arguments : List Text
two_arguments = text "-c" ∷ text "two.cfg" ∷ []

two_servers_started :
    ran (main ten (some (text "r-type_server.cfg")) one_file blank two_arguments) ≢ []
unfolding main parse_args get_config build_ip_v4 scan_size make_all_threads start_udp_servers
    udp_loop
two_servers_started = λ e. absurd (ground (arith, e))

main-IsValid_example :
    (file : Text) × (cfg : Config) × ((parse_args two_arguments (text "r-type_server.cfg")).0 ≡ 0)
    × (one_file (parse_args two_arguments (text "r-type_server.cfg")).1 ≡ some file)
    × (get_config blank file ≡ ok cfg)
    × IsValid cfg
    × (main ten (some (text "r-type_server.cfg")) one_file blank two_arguments
        ≡ outcome (make_all_threads ten cfg))
main-IsValid_example =
    main-IsValid ten (text "r-type_server.cfg") one_file blank two_arguments blank-IsEndpoint
      two_servers_started
