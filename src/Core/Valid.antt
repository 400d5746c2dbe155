-- ===== src/Core/Valid.antt =====
-- What holds of every configuration that is read.
use r_type_server.Prelude.{
  ◌^◌, ◌<◌, Option, none, some, Bool, true, false, List, [], ◌∷◌, if◌then◌else◌,
}
use r_type_server.Text.{Text}
use r_type_server.Core.Config.{
  Config, Key, tcp_host, tcp_port, udp_host, udp_port, udp_external_host, udp_external_port, key_of,
  set_value, Result, ok, invalid, undefined, set_key, read_line, read_lines, is_skipped,
  split_at_equals, trim,
}
use r_type_server.Core.Outcomes.{OnOk, on_ok, OkIs, OnOk-OkIs, map_ok-OnOk}
use r_type_server.Core.ValidValues.{
  IsEndpoint, IsCount, get_ip-IsIp, get_port-lt, get_n_cores-IsCount,
}

pub record InRange (cfg : Config) : Type 0 where
  pub tcp : IsEndpoint cfg.tcp_endpoint
  pub udp : IsEndpoint cfg.udp_endpoint
  pub external : IsEndpoint cfg.external_udp_endpoint
  pub cores : (0 < cfg.n_cores) × (cfg.n_cores < 2 ^ 64)

pub in_range :
    {cfg : Config}
    → IsEndpoint cfg.tcp_endpoint
    → IsEndpoint cfg.udp_endpoint
    → IsEndpoint cfg.external_udp_endpoint
    → IsCount cfg.n_cores
    → InRange cfg
in_range t u e c = record { tcp = t; udp = u; external = e; cores = c }

module _ (val : Text) (cfg : Config) (v : InRange cfg) where
  set_value-InRange : (k : Key) → OnOk InRange (set_value k val cfg)
  unfolding set_value
  set_value-InRange Key.tcp_only = on_ok (in_range v.tcp v.udp v.external v.cores)
  set_value-InRange Key.udp_only = on_ok (in_range v.tcp v.udp v.external v.cores)
  set_value-InRange tcp_host =
      map_ok-OnOk _ (get_ip-IsIp val) λ ip p. in_range (p.0, p.1, v.tcp.2) v.udp v.external v.cores
  set_value-InRange tcp_port =
      map_ok-OnOk _ (get_port-lt val)
        λ p lt. in_range (v.tcp.0, v.tcp.1, lt) v.udp v.external v.cores
  set_value-InRange udp_host =
      map_ok-OnOk _ (get_ip-IsIp val) λ ip p. in_range v.tcp (p.0, p.1, v.udp.2) v.external v.cores
  set_value-InRange udp_port =
      map_ok-OnOk _ (get_port-lt val)
        λ p lt. in_range v.tcp (v.udp.0, v.udp.1, lt) v.external v.cores
  set_value-InRange udp_external_host =
      map_ok-OnOk _ (get_ip-IsIp val) λ ip p. in_range v.tcp v.udp (p.0, p.1, v.external.2) v.cores
  set_value-InRange udp_external_port =
      map_ok-OnOk _ (get_port-lt val)
        λ p lt. in_range v.tcp v.udp (v.external.0, v.external.1, lt) v.cores
  set_value-InRange Key.n_cores =
      map_ok-OnOk _ (get_n_cores-IsCount val) λ n c. in_range v.tcp v.udp v.external c

  set_key-InRange : (key : Text) → OkIs InRange (set_key key val cfg)
  unfolding set_key
  set_key-InRange key = at_key (key_of key)
    where
      at_key :
          (found : Option Key)
          → OkIs InRange (elim found [ none ↦ ok cfg | some k ↦ set_value k val cfg ])
      at_key none = v
      at_key (some k) = OnOk-OkIs (set_value-InRange k)

read_line-InRange : (line : Text) (cfg : Config) → InRange cfg → OkIs InRange (read_line line cfg)
unfolding read_line
read_line-InRange line cfg v = at_line (is_skipped line) (split_at_equals line)
  where
    at_line :
        (skipped : Bool) (parts : Option (Text × Text))
        → OkIs InRange (
            if skipped then ok cfg else elim parts [
              | none ↦ invalid
              | some (key, val) ↦ set_key (trim key) (trim val) cfg
            ])
    at_line true parts = v
    at_line false none = tt
    at_line false (some (key, val)) = set_key-InRange (trim val) cfg v (trim key)

pub read_lines-InRange :
    (lines : List Text) (cfg : Config) → InRange cfg → OkIs InRange (read_lines lines cfg)
unfolding read_lines
read_lines-InRange [] cfg v = v
read_lines-InRange (line ∷ lines) cfg v =
    after_line (read_line line cfg) (read_line-InRange line cfg v) (read_lines-InRange lines)
  where
    after_line :
        (r : Result Config)
        → OkIs InRange r
        → ((cfg' : Config) → InRange cfg' → OkIs InRange (read_lines lines cfg'))
        → OkIs InRange
            (elim r [ ok cfg' ↦ read_lines lines cfg' | invalid ↦ invalid | undefined ↦ undefined ])
    after_line (ok cfg') w ih = ih cfg' w
    after_line invalid w ih = tt
    after_line undefined w ih = tt
