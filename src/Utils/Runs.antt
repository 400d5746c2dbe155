-- ===== src/Utils/Runs.antt =====
-- The run of zeros that `ipToStr` leaves out of an address with eight words.
use r_type_server.Prelude.{
  ℕ, zero, suc, ◌+◌, ◌-◌, ◌≤◌, ◌<◌, ◌≡◌, refl, ap, ◌∙◌, Bool, true, false, ◌&&◌, List, [], ◌∷◌,
  arith, Option, none, some, ltb, leb, ◌==◌, length, drop, drop_add, length-drop, if◌then◌else◌,
  Bool-cases, inl, inr,
}
use r_type_server.Utils.IpToStr.{zeros_at, best_run}

-- How many zeros stand from the word j on.
abbrev pub run_at : List ℕ → ℕ → ℕ
unfolding zeros_at
run_at ws j = zeros_at (drop j ws)

-- The best run below i: none where there is no run of two; or the first of the longest.
abbrev pub IsBest : (ℕ → ℕ) → ℕ → Option ℕ → ℕ → Type 0
IsBest z i none len = (len ≡ 0) × ((j : ℕ) → j < i → z j < 2)
IsBest z i (some s) len =
    (z s ≡ len) × (2 ≤ len) × ((j : ℕ) → j < s → z j < len) × ((j : ℕ) → j < i → z j ≤ len)

-- Runs from i on that are no better.
IsBest-skip :
    (z : ℕ → ℕ) (i k r : ℕ) (start : Option ℕ) (len : ℕ)
    → IsBest z i start len
    → ((j : ℕ) → i ≤ j → j < k → z j ≤ r)
    → ltb len r && leb 2 r ≡ false
    → IsBest z k start len
IsBest-skip z i k r none len (e, small) few worse = (e, λ j lt. below (leb i j) j lt refl)
  where
    below : (b : Bool) (j : ℕ) → j < k → leb i j ≡ b → z j < 2
    below true j lt eb = ground (arith, few j)
    below false j lt eb = ground (arith, small j)
IsBest-skip z i k r (some s) len (e, two, first, most) few worse =
    (e, two, first, λ j lt. below (leb i j) j lt refl)
  where
    below : (b : Bool) (j : ℕ) → j < k → leb i j ≡ b → z j ≤ len
    below true j lt eb = ground (arith, few j)
    below false j lt eb = ground (arith, most j)

-- A better run that starts at i.
IsBest-take :
    (z : ℕ → ℕ) (i k run : ℕ) (start : Option ℕ) (len : ℕ)
    → IsBest z i start len
    → z i ≡ run
    → ((j : ℕ) → i ≤ j → j < k → z j ≤ run)
    → ltb len run && leb 2 run ≡ true
    → IsBest z k (some i) run
IsBest-take z i k run start len b er few better =
    (er, ground arith, λ j lt. before start b j lt, λ j lt. upto (leb i j) j lt refl)
  where
    before : (start : Option ℕ) → IsBest z i start len → (j : ℕ) → j < i → z j < run
    before none (e, small) j lt = ground (arith, small j)
    before (some s) (e, two, first, most) j lt = ground (arith, most j)

    upto : (b : Bool) (j : ℕ) → j < k → leb i j ≡ b → z j ≤ run
    upto true j lt eb = ground (arith, few j)
    upto false j lt eb = ground (arith, before start b j)

-- Inside a run, the zeros that are left.
zeros_at-drop : (ws : List ℕ) (t : ℕ) → t ≤ zeros_at ws → zeros_at (drop t ws) ≡ zeros_at ws - t
unfolding zeros_at
zeros_at-drop ws zero le = omega arith
zeros_at-drop [] (suc t) le = ground arith
zeros_at-drop (w ∷ ws) (suc t) le = ground (arith, zeros_at-drop ws t)

zeros_at-pos : (w : ℕ) (ws : List ℕ) → (w == 0) ≡ true → 0 < zeros_at (w ∷ ws)
unfolding zeros_at
zeros_at-pos w ws e = ground arith

-- The list from i on, and a step further.
drop-after : (full ws : List ℕ) (i t : ℕ) → drop i full ≡ ws → drop (i + t) full ≡ drop t ws
drop-after full ws i t e = drop_add i t full ∙ ap (drop t) e

run_at-after :
    (full ws : List ℕ) (i j : ℕ)
    → drop i full ≡ ws
    → i ≤ j
    → j < i + zeros_at ws
    → run_at full j ≤ zeros_at ws
unfolding run_at
run_at-after full ws i j e le lt =
    let here : drop j full ≡ drop (j - i) ws =
      ap (λ k. drop k full) (omega arith) ∙ drop-after full ws i (j - i) e in
    omega (arith, ap zeros_at here, zeros_at-drop ws (j - i) (omega arith))

all_seen :
    (full : List ℕ) (i : ℕ) (start : Option ℕ) (len : ℕ)
    → drop i full ≡ []
    → IsBest (run_at full) i start len
    → IsBest (run_at full) (length full) start len
all_seen full i start len e b =
    IsBest-skip (run_at full) i (length full) 0 start len b
      (λ j le lt. absurd (omega (arith, ap length e, length-drop i full))) (ground arith)

pub best_run-word :
    (fuel i w : ℕ) (ws : List ℕ) (start : Option ℕ) (len : ℕ)
    → (w == 0) ≡ false
    → best_run (suc fuel) i (w ∷ ws) start len ≡ best_run fuel (i + 1) ws start len
unfolding best_run
best_run-word fuel i w ws start len e = rw e

abbrev pub longer : ℕ → ℕ → Bool
longer len run = ltb len run && leb 2 run

pub best_run-zeros :
    (fuel i w : ℕ) (ws : List ℕ) (start : Option ℕ) (len run : ℕ)
    → (w == 0) ≡ true
    → zeros_at (w ∷ ws) ≡ run
    → best_run (suc fuel) i (w ∷ ws) start len
      ≡ best_run fuel
          (i + run)
          (drop run (w ∷ ws))
          (if longer len run then some i else start)
          (if longer len run then run else len)
unfolding best_run
best_run-zeros fuel i w ws start len run e er = rw (← er) (rw e)

zeros_at-word : (w : ℕ) (ws : List ℕ) → (w == 0) ≡ false → zeros_at (w ∷ ws) ≡ 0
unfolding zeros_at
zeros_at-word w ws e = ground arith

no_run :
    (full : List ℕ) (i w : ℕ) (ws : List ℕ)
    → drop i full ≡ w ∷ ws
    → (w == 0) ≡ false
    → (j : ℕ) → i ≤ j
    → j < i + 1
    → run_at full j ≤ 0
unfolding run_at
no_run full i w ws e word j le lt =
    let here : drop j full ≡ w ∷ ws = ap (λ k. drop k full) (omega arith) ∙ e in
    omega (arith, ap zeros_at here, zeros_at-word w ws word)

best_run-IsBest :
    (full : List ℕ) (fuel i : ℕ) (ws : List ℕ) (start : Option ℕ) (len : ℕ)
    → drop i full ≡ ws
    → length ws ≤ fuel
    → IsBest (run_at full) i start len
    → IsBest
        (run_at full)
        (length full)
        (best_run fuel i ws start len).0
        (best_run fuel i ws start len).1
best_run-IsBest full zero i [] start len e enough b =
    unfold best_run in all_seen full i start len e b
best_run-IsBest full zero i (w ∷ ws) start len e enough b = absurd (omega arith)
best_run-IsBest full (suc fuel) i [] start len e enough b =
    unfold best_run in all_seen full i start len e b
best_run-IsBest full (suc fuel) i (w ∷ ws) start len e enough b = elim (Bool-cases (w == 0)) [
  | inr word ↦ rw (best_run-word fuel i w ws start len word) (
      best_run-IsBest full fuel (i + 1) ws start len (drop-after full (w ∷ ws) i 1 e) (omega arith)
        (IsBest-skip (run_at full) i (i + 1) 0 start len b (no_run full i w ws e word)
          (ground arith)))
  | inl zero_word ↦ rw (best_run-zeros fuel i w ws start len (zeros_at (w ∷ ws)) zero_word refl) (
      best_run-IsBest full fuel (i + zeros_at (w ∷ ws)) (drop (zeros_at (w ∷ ws)) (w ∷ ws))
        (if longer len (zeros_at (w ∷ ws)) then some i else start)
        (if longer len (zeros_at (w ∷ ws)) then zeros_at (w ∷ ws) else len)
        (drop-after full (w ∷ ws) i (zeros_at (w ∷ ws)) e)
        (omega (arith, length-drop (zeros_at (w ∷ ws)) (w ∷ ws), zeros_at-pos w ws zero_word))
        (elim (Bool-cases (longer len (zeros_at (w ∷ ws)))) [
          | inl better ↦ rw better (
              IsBest-take (run_at full) i (i + zeros_at (w ∷ ws)) (zeros_at (w ∷ ws)) start len b
                (unfold run_at in ap zeros_at e) (λ j. run_at-after full (w ∷ ws) i j e) better)
          | inr worse ↦ rw worse (
              IsBest-skip (run_at full) i (i + zeros_at (w ∷ ws)) (zeros_at (w ∷ ws)) start len b
                (λ j. run_at-after full (w ∷ ws) i j e) worse)
        ]))
]

-- The words that `ipToStr` leaves out of an address of eight words: the first of its longest runs of zeros, if
-- there is a run of two at least, and all of that run; else none.
pub best_run-longest :
    (ws : List ℕ)
    → length ws ≡ 8
    → IsBest (run_at ws) 8 (best_run 8 0 ws none 0).0 (best_run 8 0 ws none 0).1
best_run-longest ws eight =
    rw eight at
      (best_run-IsBest ws 8 0 ws none 0 refl (omega arith) (refl, λ j lt. absurd (omega arith)))
