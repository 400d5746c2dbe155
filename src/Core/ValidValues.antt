-- ===== src/Core/ValidValues.antt =====
-- What holds of the value of a line.
use r_type_server.Prelude.{
  ℕ, zero, suc, ◌*◌, ◌^◌, ◌<◌, ◌≡◌, refl, Bool, true, false, ◌||◌, List, [], ◌∷◌, arith, length,
  if◌then◌else◌, leb, ltb, ◌==◌,
}
use r_type_server.Wire.{Bytes, IsBytes}
use r_type_server.Gateway.State.{Address}
use r_type_server.Text.{
  Text, Scan, matched, failed, overflow, scan_int, scan_size, ◌>>=◌, ◌>>◌, expect,
}
use r_type_server.Core.Config.{
  ok, invalid, undefined, build_ip_v4, build_ip_v6, scan_ip_v4, scan_more, scan_ip_v6, get_ip,
  get_port, get_n_cores,
}
use r_type_server.Core.Outcomes.{OnOk, on_ok, on_invalid, on_undefined, OnMatch, >>=-OnMatch}

-- 16 bytes, and a 16-bit port.
abbrev pub IsEndpoint : Address → Type 0
IsEndpoint (ip, port) = (length ip ≡ 16) × IsBytes ip × (port < 2 ^ 16)

abbrev pub IsIp : Bytes → Type 0
IsIp ip = (length ip ≡ 16) × IsBytes ip

build_ip_v4-IsIp : (a b c d : ℕ) → IsIp (build_ip_v4 a b c d)
unfolding build_ip_v4
build_ip_v4-IsIp a b c d = omega arith

build_ip_v6-IsBytes :
    (ns : List ℕ) → (length (build_ip_v6 ns) ≡ 2 * length ns) × IsBytes (build_ip_v6 ns)
unfolding build_ip_v6
build_ip_v6-IsBytes [] = (refl, tt)
build_ip_v6-IsBytes (n ∷ ns) =
    let ih = build_ip_v6-IsBytes ns in (omega arith, (omega arith, (omega arith, ih.1)))

trivial_match : {A : Type 0} (r : Scan A) → OnMatch (λ _. Unit {0}) r
trivial_match (matched a rest) = tt
trivial_match failed = tt
trivial_match overflow = tt

length-scan_more : (n : ℕ) (s : Text) → OnMatch (λ ns. length ns ≡ n) (scan_more n s)
unfolding scan_more
length-scan_more zero s = refl
length-scan_more (suc n) s =
    >>=-OnMatch (λ _. Unit) _ (expect b':') _ s (trivial_match (expect b':' s))
      λ u s1 _.
        >>=-OnMatch (λ _. Unit) _ scan_int _ s1 (trivial_match (scan_int s1))
          λ a s2 _.
            >>=-OnMatch (λ ns. length ns ≡ n) _ (scan_more n) _ s2 (length-scan_more n s2)
              λ ns s3 e. omega arith

scan_ip_v6-IsIp : (s : Text) → OnMatch IsIp (scan_ip_v6 s)
unfolding scan_ip_v6
scan_ip_v6-IsIp s =
    >>=-OnMatch (λ _. Unit) IsIp scan_int _ s (trivial_match (scan_int s))
      λ a s1 _.
        >>=-OnMatch (λ ns. length ns ≡ 7) IsIp (scan_more 7) _ s1 (length-scan_more 7 s1)
          λ ns s2 e.
            (omega (arith, (build_ip_v6-IsBytes (a ∷ ns)).0), (build_ip_v6-IsBytes (a ∷ ns)).1)

scan_ip_v4-IsIp : (s : Text) → OnMatch IsIp (scan_ip_v4 s)
unfolding scan_ip_v4
scan_ip_v4-IsIp s = number _ s λ a s1. dot _ s1 λ s2. number _ s2 λ b s3.
    dot _ s3 λ s4. number _ s4 λ c s5. dot _ s5 λ s6. number _ s6 λ d s7. build_ip_v4-IsIp a b c d
  where
    number :
        (f : ℕ → Text → Scan Bytes) (s : Text)
        → ((a : ℕ) (rest : Text) → OnMatch IsIp (f a rest))
        → OnMatch IsIp ((scan_int >>= f) s)
    number f s step =
        >>=-OnMatch (λ _. Unit) IsIp scan_int f s (trivial_match (scan_int s))
          λ a rest _. step a rest

    dot :
        (f : Text → Scan Bytes) (s : Text)
        → ((rest : Text) → OnMatch IsIp (f rest))
        → OnMatch IsIp ((expect b'.' >> f) s)
    dot f s step =
        >>=-OnMatch (λ _. Unit) IsIp (expect b'.') (λ _. f) s (trivial_match (expect b'.' s))
          λ u rest _. step rest

pub get_ip-IsIp : (val : Text) → OnOk IsIp (get_ip val)
unfolding get_ip
get_ip-IsIp val = v4 (scan_ip_v4 val) (scan_ip_v4-IsIp val)
  where
    v6 :
        (r : Scan Bytes)
        → OnMatch IsIp r
        → OnOk IsIp (elim r [ matched ip rest ↦ ok ip | overflow ↦ undefined | failed ↦ invalid ])
    v6 (matched ip rest) p = on_ok p
    v6 failed p = on_invalid
    v6 overflow p = on_undefined

    v4 :
        (r : Scan Bytes)
        → OnMatch IsIp r
        → OnOk IsIp (elim r [
          | matched ip rest ↦ ok ip
          | overflow ↦ undefined
          | failed ↦ elim (scan_ip_v6 val) [
            | matched ip rest ↦ ok ip
            | overflow ↦ undefined
            | failed ↦ invalid
          ]
        ])
    v4 (matched ip rest) p = on_ok p
    v4 failed p = v6 (scan_ip_v6 val) (scan_ip_v6-IsIp val)
    v4 overflow p = on_undefined

pub get_port-lt : (val : Text) → OnOk (λ p. p < 2 ^ 16) (get_port val)
unfolding get_port
get_port-lt val = at_scan (scan_int val)
  where
    bounded :
        (b : Bool) (p : ℕ)
        → (b ≡ false → p < 2 ^ 16)
        → OnOk (λ p. p < 2 ^ 16) (if b then invalid else ok p)
    bounded true p lt = on_invalid
    bounded false p lt = on_ok (lt refl)

    at_scan :
        (r : Scan ℕ)
        → OnOk
            (λ p. p < 2 ^ 16)
            (elim r [
              | matched p rest ↦ if leb (2 ^ 31) p || ltb 65535 p then invalid else ok p
              | overflow ↦ undefined
              | failed ↦ invalid
            ])
    at_scan (matched p rest) = bounded (leb (2 ^ 31) p || ltb 65535 p) p λ e. ground arith
    at_scan failed = on_invalid
    at_scan overflow = on_undefined

scan_size-lt : (val : Text) → OnMatch (λ n. n < 2 ^ 64) (scan_size val)
unfolding scan_size
scan_size-lt val = ground arith

abbrev pub IsCount : ℕ → Type 0
IsCount n = (0 < n) × (n < 2 ^ 64)

pub get_n_cores-IsCount : (val : Text) → OnOk IsCount (get_n_cores val)
unfolding get_n_cores
get_n_cores-IsCount val = at_scan (scan_size val) (scan_size-lt val)
  where
    bounded :
        (b : Bool) (n : ℕ) → (b ≡ false → IsCount n) → OnOk IsCount (if b then invalid else ok n)
    bounded true n c = on_invalid
    bounded false n c = on_ok (c refl)

    at_scan :
        (r : Scan ℕ)
        → OnMatch (λ n. n < 2 ^ 64) r
        → OnOk IsCount (elim r [
          | matched n rest ↦ if n == 0 then invalid else ok n
          | overflow ↦ undefined
          | failed ↦ invalid
        ])
    at_scan (matched n rest) lt = bounded (n == 0) n λ e. ground arith
    at_scan failed lt = on_invalid
    at_scan overflow lt = on_undefined
