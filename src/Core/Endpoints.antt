-- ===== src/Core/Endpoints.antt =====
-- The addresses that the program prints, in the hands of the reader of the configuration.
use r_type_server.Prelude.{ℕ, ◌+◌, ◌<◌, ◌≡◌, refl, ap, ◌∙◌, [], ◌∷◌, arith, false}
use r_type_server.Wire.{Bytes, IsByte}
use r_type_server.Text.{matched, numeral, decimal, expect}
use r_type_server.Text.Numbers.{scan_int-then, numeral-append}
use r_type_server.GameServer.Loop.{all_zero}
use r_type_server.Utils.IpToStr.{dotted, ip_to_str}
use r_type_server.Core.Config.{ok, build_ip_v4, scan_ip_v4, get_ip}

abbrev pub mapped : ℕ → ℕ → ℕ → ℕ → Bytes
mapped a b c d = 0 ∷ 0 ∷ 0 ∷ 0 ∷ 0 ∷ 0 ∷ 0 ∷ 0 ∷ 0 ∷ 0 ∷ 0xff ∷ 0xff ∷ a ∷ b ∷ c ∷ d ∷ []

abbrev pub compatible : ℕ → ℕ → ℕ → ℕ → Bytes
compatible a b c d = 0 ∷ 0 ∷ 0 ∷ 0 ∷ 0 ∷ 0 ∷ 0 ∷ 0 ∷ 0 ∷ 0 ∷ 0 ∷ 0 ∷ a ∷ b ∷ c ∷ d ∷ []

module _ (a b c d : ℕ) (ba : IsByte a) (bb : IsByte b) (bc : IsByte c) (bd : IsByte d) where
  build_ip_v4-mapped : build_ip_v4 a b c d ≡ mapped a b c d
  unfolding build_ip_v4
  build_ip_v4-mapped = ground arith

  dotted-numerals :
      dotted a b c d
      ≡ numeral 10 10 a
          (b'.' ∷ numeral 10 10 b (b'.' ∷ numeral 10 10 c (b'.' ∷ numeral 10 10 d [])))
  unfolding dotted numeral
  dotted-numerals =
      rw
        (
          numeral-append 10 10 c [] (b'.' ∷ decimal d),
          numeral-append 10 10 b [] (b'.' ∷ numeral 10 10 c (b'.' ∷ decimal d)),
          numeral-append 10 10 a []
              (b'.' ∷ numeral 10 10 b (b'.' ∷ numeral 10 10 c (b'.' ∷ decimal d))),
        )
        refl

  scan_ip_v4-dotted : scan_ip_v4 (dotted a b c d) ≡ matched (mapped a b c d) []
  unfolding scan_ip_v4 expect
  scan_ip_v4-dotted = rw dotted-numerals (
      scan_int-then _ a
        (b'.' ∷ numeral 10 10 b (b'.' ∷ numeral 10 10 c (b'.' ∷ numeral 10 10 d []))) (omega arith)
        refl
      ∙ scan_int-then _ b (b'.' ∷ numeral 10 10 c (b'.' ∷ numeral 10 10 d [])) (omega arith) refl
      ∙ scan_int-then _ c (b'.' ∷ numeral 10 10 d []) (omega arith) refl
      ∙ scan_int-then _ d [] (omega arith) tt
      ∙ ap (λ ip. matched ip []) build_ip_v4-mapped)

  get_ip-dotted : get_ip (dotted a b c d) ≡ ok (mapped a b c d)
  unfolding get_ip
  get_ip-dotted = rw (scan_ip_v4-dotted, get_ip)

  ip_to_str-mapped : ip_to_str (mapped a b c d) ≡ dotted a b c d
  unfolding ip_to_str
  ip_to_str-mapped = refl

  ip_to_str-compatible : 0 < a + b + c + d → ip_to_str (compatible a b c d) ≡ dotted a b c d
  unfolding ip_to_str
  ip_to_str-compatible pos = rw some_byte refl
    where
      some_byte : all_zero (a ∷ b ∷ c ∷ d ∷ []) ≡ false
      some_byte = ground arith

  -- What `ipToStr` prints of an IPv4 address other than 0.0.0.0, `getIp` reads back: the address itself in
  -- its mapped form, and the mapped form of a compatible one.
  pub get_ip-ip_to_str :
      0 < a + b + c + d
      → (get_ip (ip_to_str (mapped a b c d)) ≡ ok (mapped a b c d))
        × (get_ip (ip_to_str (compatible a b c d)) ≡ ok (mapped a b c d))
  get_ip-ip_to_str pos = (
    ap get_ip ip_to_str-mapped ∙ get_ip-dotted,
    ap get_ip (ip_to_str-compatible pos) ∙ get_ip-dotted,
  )
