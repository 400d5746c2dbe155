-- ===== src/Utils/IpToStr.antt =====
-- `ipToStr` of server/src/Utils/IPToStr.cpp.
use r_type_server.Prelude.{
  ℕ, zero, suc, ◌+◌, ◌*◌, ◌%◌, ◌^◌, Bool, false, not, ◌&&◌, ◌||◌, List, [], ◌∷◌, ◌++◌, Option, none,
  some, ◌==◌, leb, ltb, take, drop, get_or, if◌then◌else◌,
}
use r_type_server.Wire.{Bytes}
use r_type_server.Text.{Text, text, decimal, hexadecimal}
use r_type_server.GameServer.Loop.{all_zero}

-- `a << '.' << b << '.' << c << '.' << d`
unfoldable pub dotted : ℕ → ℕ → ℕ → ℕ → Text
unfolding decimal
dotted a b c d = decimal a ++ (b'.' ∷ (decimal b ++ (b'.' ∷ (decimal c ++ (b'.' ∷ decimal d)))))

unfoldable pub is_v4_mapped : Bytes → Bool
is_v4_mapped ip = all_zero (take 10 ip) && get_or ip 10 0 == 0xff && get_or ip 11 0 == 0xff

unfoldable pub is_v4_compat : Bytes → Bool
is_v4_compat ip = not (all_zero ip) && all_zero (take 12 ip)

-- The eight 16-bit words.
unfoldable pub words_of : Bytes → List ℕ
words_of (a ∷ b ∷ ip) = (a * 256 % 2 ^ 16 + b) ∷ words_of ip
words_of _ = []

-- `while (j < 8 && w[j] == 0) ++j`: how far the zeros go.
unfoldable pub zeros_at : List ℕ → ℕ
zeros_at [] = 0
zeros_at (w ∷ ws) = let rest = zeros_at ws in if w == 0 then rest + 1 else 0

-- The search for the longest run, from the word i on; `bestStart` is none for -1.
unfoldable pub best_run : ℕ → ℕ → List ℕ → Option ℕ → ℕ → Option ℕ × ℕ
unfolding zeros_at
best_run zero i ws start len = (start, len)
best_run (suc fuel) i [] start len = (start, len)
best_run (suc fuel) i (w ∷ ws) start len =
    let run = zeros_at (w ∷ ws) in
    let longer = ltb len run && leb 2 run in
    let past = best_run fuel (i + 1) ws start len in
    let found =
      best_run fuel (i + run) (drop run (w ∷ ws)) (if longer then some i else start)
        (if longer then run else len) in
    if not (w == 0) then past else found

-- Whether i is `bestStart`, and whether it is `bestStart + bestLen`.
abbrev pub is_start : Option ℕ → ℕ → Bool
is_start none i = false
is_start (some s) i = i == s

abbrev pub is_after : Option ℕ → ℕ → ℕ → Bool
is_after none len i = false
is_after (some s) len i = i == s + len

-- The loop that prints, from the word i on.
unfoldable pub print_words : ℕ → Option ℕ → ℕ → ℕ → List ℕ → Text
print_words zero start len i ws = []
print_words (suc fuel) start len i [] = []
print_words (suc fuel) start len i (w ∷ ws) =
    let past = print_words fuel start len (i + len) (drop len (w ∷ ws)) in
    let more = print_words fuel start len (i + 1) ws in
    if is_start start i
    then (if i == 0 then text "::" else text ":") ++ past
    else (if not (i == 0) && not (is_after start len i) then text ":" else [])
      ++ (hexadecimal w ++ more)

-- The text, with the run that is left out.
unfoldable pub print_run : Option ℕ × ℕ → List ℕ → Text
unfolding print_words
print_run (start, len) ws = elim (print_words 8 start len 0 ws) [ [] ↦ text "::" | c ∷ s ↦ c ∷ s ]

unfoldable pub print_v6 : List ℕ → Text
unfolding best_run print_run
print_v6 ws = print_run (best_run 8 0 ws none 0) ws

unfoldable pub ip_to_str : Bytes → Text
unfolding is_v4_mapped is_v4_compat dotted words_of print_v6
ip_to_str ip =
    if is_v4_mapped ip || is_v4_compat ip
    then dotted (get_or ip 12 0) (get_or ip 13 0) (get_or ip 14 0) (get_or ip 15 0)
    else print_v6 (words_of ip)
