-- ===== src/Text.antt =====
-- Text as the program's standard library reads and writes it: the characters of a `std::string`, the
-- integers of an `ostream`, the conversions of `sscanf`, and the lines of `getline`.
pub mod Numbers
use Prim.Native.Char.{code}
use Prim.Native.String.{String}
use r_type_server.Prelude.{
  ℕ, zero, suc, ◌+◌, ◌-◌, ◌*◌, ◌/◌, ◌%◌, ◌^◌, Bool, true, false, ◌&&◌, ◌||◌, List, [], ◌∷◌, ◌++◌,
  ◌==◌, leb, ltb, if◌then◌else◌,
}

abbrev pub Text : Type 0
Text = List ℕ

-- A literal of the source.
abbrev pub text : String → Text
text String.[] = []
text (String.◌∷◌ c s) = code c ∷ text s

abbrev pub is_digit : ℕ → Bool
is_digit c = leb b'0' c && leb c b'9'

-- `isspace`
abbrev pub is_space : ℕ → Bool
is_space c = c == 32 || leb 9 c && leb c 13

-- A digit of an `ostream`, also a hexadecimal one.
abbrev pub digit : ℕ → ℕ
digit d = if ltb d 10 then b'0' + d else b'a' + d - 10

-- `os << n`, decimal or with `std::hex`, before the text `rest`; `fuel` is the number of the digits at
-- most.
unfoldable pub numeral : ℕ → ℕ → ℕ → Text → Text
numeral zero base n rest = rest
numeral (suc fuel) base n rest =
    let more = numeral fuel base (n / base) (digit (n % base) ∷ rest) in
    if ltb n base then digit n ∷ rest else more

-- An `unsigned` has 10 decimal digits at most, and 8 hexadecimal ones.
unfoldable pub decimal : ℕ → Text
unfolding numeral
decimal n = numeral 10 10 n []

unfoldable pub hexadecimal : ℕ → Text
unfolding numeral
hexadecimal n = numeral 8 16 n []

-- What a conversion of `sscanf` does: a value and the text after it, no match, or a number that its
-- type does not hold, which is undefined.
pub data Scan (A : Type 0) : Type 0 where
  matched : A → Text → Scan A
  failed : Scan A
  overflow : Scan A

infixl 5 ◌>>=◌ ◌>>◌
abbrev pub ◌>>=◌ : {A B : Type 0} → (Text → Scan A) → (A → Text → Scan B) → Text → Scan B
◌>>=◌ m f s = elim (m s) [ matched a rest ↦ f a rest | failed ↦ failed | overflow ↦ overflow ]

abbrev pub ◌>>◌ : {B : Type 0} → (Text → Scan (Unit {0})) → (Text → Scan B) → Text → Scan B
m >> k = m >>= λ _. k

abbrev pub pure : {A : Type 0} → A → Text → Scan A
pure a s = matched a s

unfoldable pub skip_spaces : Text → Text
skip_spaces [] = []
skip_spaces (c ∷ s) = let rest = skip_spaces s in if is_space c then rest else c ∷ s

-- The digits at the start, after a number that was read.
unfoldable pub digits_from : ℕ → Text → ℕ × Text
digits_from n [] = (n, [])
digits_from n (c ∷ s) =
    let rest = digits_from (n * 10 + (c - b'0')) s in if is_digit c then rest else (n, c ∷ s)

unfoldable pub scan_digits : Text → Scan ℕ
unfolding digits_from
scan_digits [] = failed
scan_digits (c ∷ s) =
    if is_digit c then (let (n, rest) = digits_from 0 (c ∷ s) in matched n rest) else failed

unfoldable pub scan_unsigned : Bool → Text → Scan (Bool × ℕ)
unfolding scan_digits
scan_unsigned minus = do n ← scan_digits; pure (minus, n)

unfoldable pub after_spaces : Text → Scan (Bool × ℕ)
unfolding scan_unsigned
after_spaces [] = failed
after_spaces (c ∷ rest) =
    if c == b'-'
    then scan_unsigned true rest
    else if c == b'+'
    then scan_unsigned false rest
    else scan_unsigned false (c ∷ rest)

-- A sign and digits: whether the sign is a minus, and the magnitude.
unfoldable pub scan_signed : Text → Scan (Bool × ℕ)
unfolding skip_spaces after_spaces
scan_signed s = after_spaces (skip_spaces s)

-- `%d`: the 32 bits of the number.
unfoldable pub scan_int : Text → Scan ℕ
unfolding scan_signed
scan_int s = elim (scan_signed s) [
  | failed ↦ failed
  | overflow ↦ overflow
  | matched (minus, n) rest ↦
      if minus
      then if leb n (2 ^ 31) then matched ((2 ^ 32 - n) % 2 ^ 32) rest else overflow
      else if ltb n (2 ^ 31)
      then matched n rest
      else overflow
]

-- `%zu`, which takes a minus too: the number is negated in its type.
unfoldable pub scan_size : Text → Scan ℕ
unfolding scan_signed
scan_size s = elim (scan_signed s) [
  | failed ↦ failed
  | overflow ↦ overflow
  | matched (minus, n) rest ↦
      if ltb n (2 ^ 64) then matched (if minus then (2 ^ 64 - n) % 2 ^ 64 else n) rest else overflow
]

-- A character of the format.
unfoldable pub expect : ℕ → Text → Scan (Unit {0})
expect c [] = failed
expect c (c' ∷ s) = if c' == c then matched tt s else failed

unfoldable pub put_first : ℕ → List Text → List Text
put_first c [] = (c ∷ []) ∷ []
put_first c (line ∷ lines) = (c ∷ line) ∷ lines

-- The lines that `getline` gives of a file: a last one with no end counts, and an end with nothing after
-- it begins no line.
unfoldable pub lines_of : Text → List Text
unfolding put_first
lines_of [] = []
lines_of (c ∷ s) = let lines = lines_of s in if c == 10 then [] ∷ lines else put_first c lines
