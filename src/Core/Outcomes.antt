-- ===== src/Core/Outcomes.antt =====
-- What is true of the value of a conversion or of a part of the configuration, where there is one.
use r_type_server.Text.{Text, Scan, matched, failed, overflow, ◌>>=◌}
use r_type_server.Core.Config.{Result, ok, invalid, undefined, map_ok}

pub data OnOk {A : Type 0} (P : A → Type 0) : Result A → Type 0 where
  on_ok : {a : A} → P a → OnOk P (ok a)
  on_invalid : OnOk P invalid
  on_undefined : OnOk P undefined

abbrev pub OkIs : {A : Type 0} → (A → Type 0) → Result A → Type 0
OkIs P (ok a) = P a
OkIs P _ = Unit

pub OnOk-OkIs : {A : Type 0} {P : A → Type 0} {r : Result A} → OnOk P r → OkIs P r
OnOk-OkIs (on_ok p) = p
OnOk-OkIs on_invalid = tt
OnOk-OkIs on_undefined = tt

abbrev pub OnMatch : {A : Type 0} → (A → Type 0) → Scan A → Type 0
OnMatch P (matched a rest) = P a
OnMatch P _ = Unit

pub map_ok-OnOk :
    {A B : Type 0} {P : A → Type 0} {Q : B → Type 0} (f : A → B) {r : Result A}
    → OnOk P r
    → ((a : A) → P a → Q (f a))
    → OnOk Q (map_ok f r)
map_ok-OnOk f (on_ok {a} p) step = on_ok (step a p)
map_ok-OnOk f on_invalid step = on_invalid
map_ok-OnOk f on_undefined step = on_undefined

module _ {A B : Type 0} where
  pub >>=-OnMatch :
      (P : A → Type 0) (Q : B → Type 0) (m : Text → Scan A) (f : A → Text → Scan B) (s : Text)
      → OnMatch P (m s)
      → ((a : A) (rest : Text) → P a → OnMatch Q (f a rest))
      → OnMatch Q ((m >>= f) s)
  >>=-OnMatch P Q m f s p step = at_match (m s) p
    where
      at_match :
          (r : Scan A)
          → OnMatch P r
          → OnMatch Q (elim r [ matched a rest ↦ f a rest | failed ↦ failed | overflow ↦ overflow ])
      at_match (matched a rest) p = step a rest p
      at_match failed p = tt
      at_match overflow p = tt
