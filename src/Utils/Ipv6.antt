-- ===== src/Utils/Ipv6.antt =====
-- What `ipToStr` prints in the place of a run of zeros.
use r_type_server.Prelude.{
  ℕ, zero, suc, ◌+◌, ◌≤◌, ◌<◌, ◌≡◌, refl, sym, ap, ◌∙◌, List, [], ◌∷◌, arith, Option, none, some,
  length, All,
}
use r_type_server.Utils.IpToStr.{zeros_at, best_run, print_run, print_v6}
use r_type_server.Utils.Runs.{best_run-word, best_run-zeros}

-- The words before and after the run.
abbrev pub Nonzero : List ℕ → Type 0
Nonzero ws = All (λ w. 0 < w) ws

best_run-Nonzero :
    (fuel i : ℕ) (ws : List ℕ) (start : Option ℕ) (len : ℕ)
    → length ws ≤ fuel
    → Nonzero ws
    → best_run fuel i ws start len ≡ (start, len)
best_run-Nonzero zero i [] start len le nz = unfold best_run in refl
best_run-Nonzero zero i (w ∷ ws) start len le nz = absurd (omega arith)
best_run-Nonzero (suc fuel) i [] start len le nz = unfold best_run in refl
best_run-Nonzero (suc fuel) i (w ∷ ws) start len le nz =
    best_run-word fuel i w ws start len (ground arith)
    ∙ best_run-Nonzero fuel (i + 1) ws start len (omega arith) nz.1

two_zeros : (w : ℕ) (ws : List ℕ) → 0 < w → zeros_at (0 ∷ 0 ∷ w ∷ ws) ≡ 2
unfolding zeros_at
two_zeros w ws pos = ground arith

best_run-pair :
    (fuel i w : ℕ) (ws : List ℕ)
    → length ws < fuel
    → Nonzero (w ∷ ws)
    → best_run (suc fuel) i (0 ∷ 0 ∷ w ∷ ws) none 0 ≡ (some i, 2)
best_run-pair fuel i w ws le nz =
    best_run-zeros fuel i 0 (0 ∷ w ∷ ws) none 0 2 refl (two_zeros w ws nz.0)
    ∙ best_run-Nonzero fuel (i + 2) (w ∷ ws) (some i) 2 (omega arith) nz

-- Two different addresses print the same: one whose only zeros are its second and third word, and the one
-- with the same other words whose only zeros are its third and fourth.
pub print_v6-ambiguous :
    (a b c d e f : ℕ)
    → Nonzero (a ∷ b ∷ c ∷ d ∷ e ∷ f ∷ [])
    → print_v6 (a ∷ 0 ∷ 0 ∷ b ∷ c ∷ d ∷ e ∷ f ∷ []) ≡ print_v6 (a ∷ b ∷ 0 ∷ 0 ∷ c ∷ d ∷ e ∷ f ∷ [])
print_v6-ambiguous a b c d e f nz =
    unfold print_v6 in
    (ap (λ r. print_run r (a ∷ 0 ∷ 0 ∷ b ∷ c ∷ d ∷ e ∷ f ∷ [])) early
      ∙ unfold print_run in
        refl ∙ sym (ap (λ r. print_run r (a ∷ b ∷ 0 ∷ 0 ∷ c ∷ d ∷ e ∷ f ∷ [])) late))
  where
    early : best_run 8 0 (a ∷ 0 ∷ 0 ∷ b ∷ c ∷ d ∷ e ∷ f ∷ []) none 0 ≡ (some 1, 2)
    early =
        best_run-word 7 0 a (0 ∷ 0 ∷ b ∷ c ∷ d ∷ e ∷ f ∷ []) none 0 (ground arith)
        ∙ best_run-pair 6 1 b (c ∷ d ∷ e ∷ f ∷ []) (omega arith) nz.1

    late : best_run 8 0 (a ∷ b ∷ 0 ∷ 0 ∷ c ∷ d ∷ e ∷ f ∷ []) none 0 ≡ (some 2, 2)
    late =
        best_run-word 7 0 a (b ∷ 0 ∷ 0 ∷ c ∷ d ∷ e ∷ f ∷ []) none 0 (ground arith)
        ∙ best_run-word 6 1 b (0 ∷ 0 ∷ c ∷ d ∷ e ∷ f ∷ []) none 0 (ground arith)
        ∙ best_run-pair 5 2 c (d ∷ e ∷ f ∷ []) (omega arith) nz.1.1
