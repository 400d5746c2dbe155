-- ===== src/Wire/Local.antt =====
-- Readers that depend on the bytes from the offset on, and not on what stands before.
use r_type_server.Prelude.{
  ℕ, ◌+◌, ◌≡◌, refl, ◌++◌, Bool, true, false, arith, length, length-append, get_or-append,
  if◌then◌else◌,
}
use r_type_server.Wire.{
  Bytes, Error, Read, ok, err, oob, Reader, ◌>>=◌, pure, throw, need, check, advance, peek, byte_at,
  get_next_val,
}
use r_type_server.Wire.RoundTrip.{slice-append}

-- The same end, k bytes further on.
abbrev pub shift : {A : Type 0} → ℕ → Read A → Read A
shift k (ok a o) = ok a (k + o)
shift k (err e o) = err e (k + o)
shift k oob = oob

pub record IsLocal {A : Type 0} (m : Reader A) : Type 0 where
  pub at : (pre d : Bytes) (o : ℕ) → m (pre ++ d) (length pre + o) ≡ shift (length pre) (m d o)

module _ {A : Type 0} where
  pub pure-IsLocal : (a : A) → IsLocal (pure a)
  pure-IsLocal a = record { at = λ pre d o. refl }

  pub throw-IsLocal : (e : Error) → IsLocal (throw {A = A} e)
  throw-IsLocal e = record { at = λ pre d o. refl }

  pub if-IsLocal :
      (b : Bool) (m n : Reader A) → IsLocal m → IsLocal n → IsLocal (if b then m else n)
  if-IsLocal true m n km kn = km
  if-IsLocal false m n km kn = kn

pub need-IsLocal : (n : ℕ) (e : Error) → IsLocal (need n e)
need-IsLocal n e = record { at = λ pre d o. rw (length-append pre d) (ground arith) }

pub check-IsLocal : (b : Bool) (e : Error) → IsLocal (check b e)
check-IsLocal true e = record { at = λ pre d o. refl }
check-IsLocal false e = record { at = λ pre d o. refl }

pub advance-IsLocal : (n : ℕ) → IsLocal (advance n)
advance-IsLocal n = record { at = λ pre d o. ground arith }

pub peek-IsLocal : (i n : ℕ) → IsLocal (peek i n)
peek-IsLocal i n = record { at = λ pre d o. ground (arith, slice-append pre d (o + i) n) }

pub byte_at-IsLocal : (i : ℕ) → IsLocal (byte_at i)
byte_at-IsLocal i = record {
  at = λ pre d o. ground (arith, length-append pre d, get_or-append pre d (o + i) 0);
}

pub get_next_val-IsLocal : (s : ℕ) → IsLocal (get_next_val s)
unfolding get_next_val
get_next_val-IsLocal s = record { at = λ pre d o. ground (arith, slice-append pre d o s) }

module _ {A B : Type 0} where
  continue_shift :
      (f : A → Reader B)
      → ((a : A) → IsLocal (f a))
      → (pre d : Bytes) (r : Read A)
      → elim (shift (length pre) r) [ ok a o ↦ f a (pre ++ d) o | err e o ↦ err e o | oob ↦ oob ]
        ≡ shift (length pre) (elim r [ ok a o ↦ f a d o | err e o ↦ err e o | oob ↦ oob ])
  continue_shift f kf pre d (ok a o) = (kf a).at pre d o
  continue_shift f kf pre d (err e o) = refl
  continue_shift f kf pre d oob = refl

  pub >>=-IsLocal :
      (m : Reader A) (f : A → Reader B) → IsLocal m → ((a : A) → IsLocal (f a)) → IsLocal (m >>= f)
  >>=-IsLocal m f km kf = record {
    at = λ pre d o. rw (km.at pre d o, ◌>>=◌) (continue_shift f kf pre d (m d o));
  }

pub ruleset local_rules = (
  pure-IsLocal, throw-IsLocal, if-IsLocal, need-IsLocal, check-IsLocal, advance-IsLocal,
  peek-IsLocal, byte_at-IsLocal, get_next_val-IsLocal, >>=-IsLocal,
)
