-- ===== src/Text/Numbers.antt =====
-- An integer that is printed is read back.
use native.Mathlib.Nat.{pow-suc}
use r_type_server.Prelude.{
  ℕ, zero, suc, ◌+◌, ◌*◌, ◌/◌, ◌%◌, ◌^◌, ◌<◌, ◌≡◌, refl, ap, ◌∙◌, true, false, [], ◌∷◌, ◌++◌, arith,
  ltb, lt→ltb, ◌==◌, Bool-cases, inl, inr,
}
use r_type_server.Text.{
  Text, is_digit, is_space, digit, numeral, Scan, matched, digits_from, scan_digits, scan_signed,
  scan_int, after_spaces, skip_spaces, scan_unsigned, ◌>>=◌,
}

abbrev pub StartsDigit : Text → Type 0
StartsDigit [] = ⊥
StartsDigit (c ∷ s) = is_digit c ≡ true

abbrev pub EndsDigits : Text → Type 0
EndsDigits [] = Unit
EndsDigits (c ∷ s) = is_digit c ≡ false

numeral-StartsDigit :
    (fuel n c : ℕ) (rest : Text) → is_digit c ≡ true → StartsDigit (numeral fuel 10 n (c ∷ rest))
unfolding numeral
numeral-StartsDigit zero n c rest d = d
numeral-StartsDigit (suc fuel) n c rest d = elim (Bool-cases (ltb n 10)) [
  | inl last ↦ rw last (ground arith)
  | inr more ↦
      rw more (numeral-StartsDigit fuel (n / 10) (digit (n % 10)) (c ∷ rest) (ground arith))
]

digits_from-digit :
    (a d : ℕ) (rest : Text)
    → d < 10
    → digits_from a (digit d ∷ rest) ≡ digits_from (a * 10 + d) rest
unfolding digits_from
digits_from-digit a d rest lt =
    let is : is_digit (digit d) ≡ true = ground arith in
    rw is (ap (λ k. digits_from k rest) (ground arith))

numeral-last :
    (fuel n : ℕ) (rest : Text) → ltb n 10 ≡ true → numeral (suc fuel) 10 n rest ≡ digit n ∷ rest
unfolding numeral
numeral-last fuel n rest last = rw last

numeral-more :
    (fuel n : ℕ) (rest : Text)
    → ltb n 10 ≡ false
    → numeral (suc fuel) 10 n rest ≡ numeral fuel 10 (n / 10) (digit (n % 10) ∷ rest)
unfolding numeral
numeral-more fuel n rest more = rw more

digits_from-numeral :
    (fuel n : ℕ) (rest : Text)
    → n < 10 ^ fuel
    → digits_from 0 (numeral fuel 10 n rest) ≡ digits_from n rest
digits_from-numeral zero n rest lt = unfold numeral in ap (λ k. digits_from k rest) (omega arith)
digits_from-numeral (suc fuel) n rest lt = elim (Bool-cases (ltb n 10)) [
  | inl last ↦
      ap (digits_from 0) (numeral-last fuel n rest last)
      ∙ digits_from-digit 0 n rest (ground arith)
      ∙ ap (λ k. digits_from k rest) (omega arith)
  | inr more ↦
      ap (digits_from 0) (numeral-more fuel n rest more)
      ∙ digits_from-numeral fuel (n / 10) (digit (n % 10) ∷ rest) (omega (arith, pow-suc 10 fuel))
      ∙ digits_from-digit (n / 10) (n % 10) rest (omega arith)
      ∙ ap (λ k. digits_from k rest) (omega arith)
]

digits_from-EndsDigits : (n : ℕ) (rest : Text) → EndsDigits rest → digits_from n rest ≡ (n, rest)
unfolding digits_from
digits_from-EndsDigits n [] e = refl
digits_from-EndsDigits n (c ∷ rest) e = rw e

unsigned_step :
    (c : ℕ) (s : Text)
    → is_digit c ≡ true
    → scan_unsigned false (c ∷ s)
      ≡ (let (n, rest) = digits_from 0 (c ∷ s) in matched (false, n) rest)
unfolding scan_unsigned scan_digits
unsigned_step c s d = rw (d, ◌>>=◌)

scan_signed-StartsDigit :
    (s : Text)
    → StartsDigit s
    → scan_signed s ≡ (let (n, rest) = digits_from 0 s in matched (false, n) rest)
unfolding scan_signed skip_spaces after_spaces scan_unsigned scan_digits
scan_signed-StartsDigit [] d = absurd d
scan_signed-StartsDigit (c ∷ s) d =
    let printed : is_space c ≡ false = ground arith in
    let unsigned : (c == b'-') ≡ false = ground arith in
    let no_plus : (c == b'+') ≡ false = ground arith in
    rw (printed, unsigned, no_plus) (unsigned_step c s d)

-- A number that is printed has a digit, so it begins with one.
numeral-StartsDigit_printed :
    (fuel n : ℕ) (rest : Text) → StartsDigit (numeral (suc fuel) 10 n rest)
numeral-StartsDigit_printed fuel n rest = elim (Bool-cases (ltb n 10)) [
  | inl last ↦ rw (numeral-last fuel n rest last) (ground arith)
  | inr more ↦
      rw (numeral-more fuel n rest more)
        (numeral-StartsDigit fuel (n / 10) (digit (n % 10)) rest (ground arith))
]

-- `%d` reads back what `<<` prints of a number of its type.
pub scan_int-decimal :
    (n : ℕ) (rest : Text)
    → n < 2 ^ 31
    → EndsDigits rest
    → scan_int (numeral 10 10 n rest) ≡ matched n rest
unfolding scan_int
scan_int-decimal n rest lt e = rw (number, scan_int) (rw (lt→ltb n (2 ^ 31) lt))
  where
    number : scan_signed (numeral 10 10 n rest) ≡ matched (false, n) rest
    number =
        scan_signed-StartsDigit (numeral 10 10 n rest) (numeral-StartsDigit_printed 9 n rest)
        ∙ ap (λ (r : ℕ × Text). matched (false, r.0) r.1)
            (digits_from-numeral 10 n rest (omega arith) ∙ digits_from-EndsDigits n rest e)

pub scan_int-then :
    {B : Type 0} (f : ℕ → Text → Scan B) (n : ℕ) (rest : Text)
    → n < 2 ^ 31
    → EndsDigits rest
    → (scan_int >>= f) (numeral 10 10 n rest) ≡ f n rest
scan_int-then f n rest lt e = rw (scan_int-decimal n rest lt e, ◌>>=◌)

pub numeral-append :
    (fuel base n : ℕ) (rest s : Text)
    → numeral fuel base n rest ++ s ≡ numeral fuel base n (rest ++ s)
unfolding numeral
numeral-append zero base n rest s = refl
numeral-append (suc fuel) base n rest s = elim (Bool-cases (ltb n base)) [
  | inl last ↦ rw last
  | inr more ↦ rw more (numeral-append fuel base (n / base) (digit (n % base) ∷ rest) s)
]
