-- ===== src/Gateway/Ensures.antt =====
-- What is true of the gateway that a handler returns: one rule for each way to build a handler.
use r_type_server.Prelude.{ℕ, Bool, true, false, Option, none, some, if◌then◌else◌}
use r_type_server.Wire.{Bytes, Error, Read, Reader, ok, err, oob, ◌>>=◌, ◌>>◌, pure, throw, advance}
use r_type_server.Gateway.State.{Gateway}

abbrev pub Returns : (Gateway → Type 0) → Read Gateway → Type 0
Returns P (ok gw o) = P gw
Returns P _ = Unit {0}

pub record Ensures (P : Gateway → Type 0) (m : Reader Gateway) : Type 0 where
  pub at : (d : Bytes) (o : ℕ) → Returns P (m d o)

module _ (P : Gateway → Type 0) where
  pub pure-Ensures : (gw : Gateway) → P gw → Ensures P (pure gw)
  pure-Ensures gw p = record { at = λ d o. p }

  pub throw-Ensures : (e : Error) → Ensures P (throw e)
  throw-Ensures e = record { at = λ d o. tt }

  pub if-Ensures :
      (b : Bool) (m n : Reader Gateway) → Ensures P m → Ensures P n → Ensures P (if b then m else n)
  if-Ensures true m n km kn = km
  if-Ensures false m n km kn = kn

  pub Option-Ensures :
      {A : Type 0} (o : Option A) (m : Reader Gateway) (f : A → Reader Gateway)
      → Ensures P m
      → ((a : A) → Ensures P (f a))
      → Ensures P (elim o [ none ↦ m | some a ↦ f a ])
  Option-Ensures none m f km kf = km
  Option-Ensures (some a) m f km kf = kf a

  pub >>=-Ensures :
      {A : Type 0} (m : Reader A) (f : A → Reader Gateway)
      → ((a : A) → Ensures P (f a))
      → Ensures P (m >>= f)
  >>=-Ensures {A} m f kf = record { at = λ d o. go d (m d o) }
    where
      go :
          (d : Bytes) (r : Read A)
          → Returns P (elim r [ ok a o' ↦ f a d o' | err e o' ↦ err e o' | oob ↦ oob ])
      go d (ok a o') = (kf a).at d o'
      go d (err e o') = tt
      go d oob = tt

  -- The gateway that an earlier step returned.
  pub returned-Ensures :
      (m : Reader Gateway) (n : ℕ) → Ensures P m → Ensures P (m >>= λ gw'. advance n >> pure gw')
  returned-Ensures m n km = record { at = λ d o. go d (m d o) (km.at d o) }
    where
      go :
          (d : Bytes) (r : Read Gateway)
          → Returns P r
          → Returns P (elim r [
            | ok gw' o' ↦ (advance n >> pure gw') d o'
            | err e o' ↦ err e o'
            | oob ↦ oob
          ])
      go d (ok gw' o') f = f
      go d (err e o') f = tt
      go d oob f = tt

-- One branch or the other, by a test or by what a search found.
pub if-holds :
    (P : Gateway → Type 0) (b : Bool) (x y : Gateway) → P x → P y → P (if b then x else y)
if-holds P true x y px py = px
if-holds P false x y px py = py

pub Option-holds :
    {A : Type 0} (P : Gateway → Type 0) (o : Option A) (x : Gateway) (y : A → Gateway)
    → P x
    → ((a : A) → P (y a))
    → P (elim o [ none ↦ x | some a ↦ y a ])
Option-holds P none x y px py = px
Option-holds P (some a) x y px py = py a

pub ruleset ensures_rules = (pure-Ensures, throw-Ensures, if-Ensures, >>=-Ensures)
