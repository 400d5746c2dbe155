-- ===== src/Core/Config.antt =====
-- The configuration file, line by line: core/src/GetConfig.cpp.
use r_type_server.Prelude.{
  ℕ, Bool, true, false, ◌&&◌, ◌||◌, List, [], ◌∷◌, Option, none, some, ◌==◌, if◌then◌else◌,
}
use r_type_server.Prelude.Dict.{list_beq}
use r_type_server.Wire.{Bytes}
use r_type_server.Gateway.State.{Address}
use r_type_server.GameServer.Loop.{all_zero}
use r_type_server.Text.{Text, text, lines_of}
pub use r_type_server.Core.Values.{
  Config, Result, ok, invalid, undefined, default_tcp_port, default_udp_port, initial, fst_part,
  last_part,
}
unfoldable pub use r_type_server.Core.Values.{
  build_ip_v4, build_ip_v6, scan_ip_v4, scan_more, scan_ip_v6, get_ip, get_port, get_n_cores,
}

abbrev pub is_blank : ℕ → Bool
is_blank c = c == 32 || c == 9

-- `erase(0, find_first_not_of(" \t"))` and `erase(find_last_not_of(" \t") + 1)`; where nothing else is
-- there, `npos` and `npos + 1` erase all.
unfoldable pub trim_left : Text → Text
trim_left [] = []
trim_left (c ∷ s) = let rest = trim_left s in if is_blank c then rest else c ∷ s

unfoldable pub keep_before : Bool → ℕ → Text → Text
keep_before true c [] = []
keep_before false c [] = c ∷ []
keep_before blank c (c' ∷ s) = c ∷ c' ∷ s

unfoldable pub trim_right : Text → Text
unfolding keep_before
trim_right [] = []
trim_right (c ∷ s) = keep_before (is_blank c) c (trim_right s)

-- `substr` before and after the first '='; none where there is none.
unfoldable pub split_at_equals : Text → Option (Text × Text)
split_at_equals [] = none
split_at_equals (c ∷ s) =
    let rest = split_at_equals s in
    if c == b'='
    then some ([], s)
    else elim rest [ none ↦ none | some (key, val) ↦ some (c ∷ key, val) ]

unfoldable pub trim : Text → Text
unfolding trim_left trim_right
trim s = trim_right (trim_left s)

-- `line[0] == '#' || line.empty() || !line.contains('=')`
unfoldable pub is_skipped : Text → Bool
unfolding split_at_equals
is_skipped [] = true
is_skipped (c ∷ s) = c == b'#' || elim (split_at_equals (c ∷ s)) [ none ↦ true | some _ ↦ false ]

abbrev pub is_true : Text → Bool
is_true val = list_beq val (text "true") || list_beq val (text "1")

abbrev pub map_ok : {A B : Type 0} → (A → B) → Result A → Result B
map_ok f (ok a) = ok (f a)
map_ok f invalid = invalid
map_ok f undefined = undefined

pub data Key : Type 0 where
  tcp_only udp_only tcp_host tcp_port udp_host udp_port : Key
  udp_external_host udp_external_port n_cores : Key

-- The chain of `else if` on the key.
unfoldable pub key_of : Text → Option Key
key_of key =
    if list_beq key (text "tcp_only")
    then some Key.tcp_only
    else if list_beq key (text "udp_only")
    then some Key.udp_only
    else if list_beq key (text "tcp_host")
    then some tcp_host
    else if list_beq key (text "tcp_port")
    then some tcp_port
    else if list_beq key (text "udp_host")
    then some udp_host
    else if list_beq key (text "udp_port")
    then some udp_port
    else if list_beq key (text "udp_external_host")
    then some udp_external_host
    else if list_beq key (text "udp_external_port")
    then some udp_external_port
    else if list_beq key (text "n_cores")
    then some Key.n_cores
    else none

-- The body of each.
unfoldable pub set_value : Key → Text → Config → Result Config
unfolding get_ip get_port get_n_cores
set_value Key.tcp_only val cfg = ok (record cfg { tcp_only = is_true val })
set_value Key.udp_only val cfg = ok (record cfg { udp_only = is_true val })
set_value tcp_host val cfg =
    map_ok (λ ip. record cfg { tcp_endpoint = (ip, cfg.tcp_endpoint.1) }) (get_ip val)
set_value tcp_port val cfg =
    map_ok (λ p. record cfg { tcp_endpoint = (cfg.tcp_endpoint.0, p) }) (get_port val)
set_value udp_host val cfg =
    map_ok (λ ip. record cfg { udp_endpoint = (ip, cfg.udp_endpoint.1) }) (get_ip val)
set_value udp_port val cfg =
    map_ok (λ p. record cfg { udp_endpoint = (cfg.udp_endpoint.0, p) }) (get_port val)
set_value udp_external_host val cfg =
    map_ok (λ ip. record cfg { external_udp_endpoint = (ip, cfg.external_udp_endpoint.1) })
      (get_ip val)
set_value udp_external_port val cfg =
    map_ok (λ p. record cfg { external_udp_endpoint = (cfg.external_udp_endpoint.0, p) })
      (get_port val)
set_value Key.n_cores val cfg = map_ok (λ n. record cfg { n_cores = n }) (get_n_cores val)

-- A key that is none of them changes nothing.
unfoldable pub set_key : Text → Text → Config → Result Config
unfolding key_of set_value
set_key key val cfg = elim (key_of key) [ none ↦ ok cfg | some k ↦ set_value k val cfg ]

unfoldable pub read_line : Text → Config → Result Config
unfolding is_skipped split_at_equals trim set_key
read_line line cfg = if is_skipped line then ok cfg else elim (split_at_equals line) [
  | none ↦ invalid
  | some (key, val) ↦ set_key (trim key) (trim val) cfg
]

unfoldable pub read_lines : List Text → Config → Result Config
unfolding read_line
read_lines [] cfg = ok cfg
read_lines (line ∷ lines) cfg = elim (read_line line cfg) [
  | ok cfg' ↦ read_lines lines cfg'
  | invalid ↦ invalid
  | undefined ↦ undefined
]

-- `checkEndpoint`
unfoldable pub check_endpoint : Bytes → ℕ → Address → Address
check_endpoint default_ip default_port (ip, port) =
    (if all_zero ip then default_ip else ip, if port == 0 then default_port else port)

-- `validateConfig`
unfoldable pub validate_config : Config → Result Config
unfolding check_endpoint build_ip_v4
validate_config cfg =
    let any = build_ip_v4 0 0 0 0 in
    let tcp = check_endpoint any default_tcp_port cfg.tcp_endpoint in
    let udp = check_endpoint any default_udp_port cfg.udp_endpoint in
    if cfg.tcp_only && cfg.udp_only
    then invalid
    else if cfg.tcp_only
    then ok (record cfg { tcp_endpoint = tcp })
    else if cfg.udp_only
    then if tcp.1 == udp.1
      then invalid
      else ok (record cfg {
        tcp_endpoint = tcp;
        udp_endpoint = udp;
        external_udp_endpoint = check_endpoint udp.0 udp.1 cfg.external_udp_endpoint;
      })
    else ok cfg

-- `getConfig` of a file that is open; `blank` is an endpoint as the network library makes it.
unfoldable pub get_config : Address → Text → Result Config
unfolding read_lines validate_config lines_of
get_config blank file = elim (read_lines (lines_of file) (initial blank)) [
  | ok cfg ↦ validate_config cfg
  | invalid ↦ invalid
  | undefined ↦ undefined
]
