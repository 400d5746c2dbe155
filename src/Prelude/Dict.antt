-- ===== src/Prelude/Dict.antt =====
-- `std::unordered_map` as an association list, in the order of its iteration. That order is
-- unspecified in C++: the theorems are about every list of entries, so about every order.
use Prim.Native.Nat.{ℕ}
use mathlib.Core.Path.{◌≡◌, refl}
use mathlib.Core.Logic.{◌↔◌}
use mathlib.Core.Bool.{Bool, true, false, ◌&&◌}
use mathlib.Core.Option.{Option, none, some}
use mathlib.Core.List.{List, [], ◌∷◌}
use native.Mathlib.Omega.{arith}
use r_type_server.Prelude.Tests.{if◌then◌else◌, ==_iff}
use r_type_server.Prelude.Tests.{◌==◌ as nat_beq}

-- The equality of a key type.
pub record Eq {ℓ} (K : Type ℓ) : Type ℓ where
  pub beq : K → K → Bool
  pub beq_iff : (a b : K) → (beq a b ≡ true) ↔ (a ≡ b)

instance abbrev pub nat_eq : Eq ℕ
nat_eq = record { beq = nat_beq; beq_iff = ==_iff }

abbrev pub list_beq : List ℕ → List ℕ → Bool
list_beq [] [] = true
list_beq (x ∷ xs) (y ∷ ys) = nat_beq x y && list_beq xs ys
list_beq _ _ = false

pub list_beq_iff : (xs ys : List ℕ) → (list_beq xs ys ≡ true) ↔ (xs ≡ ys)
list_beq_iff [] [] = (λ _. refl, λ _. refl)
list_beq_iff [] (y ∷ ys) = (λ h. cc, λ h. cc)
list_beq_iff (x ∷ xs) [] = (λ h. cc, λ h. cc)
list_beq_iff (x ∷ xs) (y ∷ ys) =
    let ih = list_beq_iff xs ys in
    (λ h. ground (arith, ih, ==_iff x y), λ h. ground (arith, ih, ==_iff x y))

abbrev pub endpoint_beq : List ℕ × ℕ → List ℕ × ℕ → Bool
endpoint_beq (a, p) (b, q) = list_beq a b && nat_beq p q

pub endpoint_beq_iff : (a b : List ℕ × ℕ) → (endpoint_beq a b ≡ true) ↔ (a ≡ b)
endpoint_beq_iff (a, p) (b, q) = (
  λ h. ground (arith, list_beq_iff a b, ==_iff p q),
  λ h. ground (arith, list_beq_iff a b, ==_iff p q),
)

instance abbrev pub endpoint_eq : Eq (List ℕ × ℕ)
endpoint_eq = record { beq = endpoint_beq; beq_iff = endpoint_beq_iff }

abbrev pub Dict {ℓ κ} : Type ℓ → Type κ → Type (ℓ ⊔ κ)
Dict K V = List (K × V)

-- m.empty()
abbrev pub is_empty {ℓ} : {A : Type ℓ} → List A → Bool
is_empty [] = true
is_empty (x ∷ xs) = false

module _ {ℓ κ} {K : Type ℓ} {V : Type κ} ⦃e : Eq K⦄ where
  -- m.find(k)
  unfoldable pub lookup : K → Dict K V → Option V
  lookup k [] = none
  lookup k ((j, v) ∷ m) = if e.beq j k then some v else lookup k m

  -- m[k] = v: in place, or as a new entry.
  unfoldable pub insert : K → V → Dict K V → Dict K V
  insert k v [] = (k, v) ∷ []
  insert k v ((j, w) ∷ m) = if e.beq j k then (j, v) ∷ m else (j, w) ∷ insert k v m

  -- m.erase(k); a key has one entry, and all of a key's entries go.
  unfoldable pub erase : K → Dict K V → Dict K V
  erase k [] = []
  erase k ((j, w) ∷ m) = let rest = erase k m in if e.beq j k then rest else (j, w) ∷ rest

  -- m.contains(k)
  unfoldable pub contains : K → Dict K V → Bool
  unfolding lookup
  contains k m = elim (lookup k m) [ none ↦ false | some v ↦ true ]

  -- m[k] where the entry is made from `d` if it is missing.
  unfoldable pub get : K → V → Dict K V → V
  unfolding lookup
  get k d m = elim (lookup k m) [ none ↦ d | some v ↦ v ]

  pub lookup-insert :
      (k j : K) (v : V) (m : Dict K V)
      → lookup j (insert k v m) ≡ (if e.beq k j then some v else lookup j m)
  unfolding lookup insert
  lookup-insert k j v [] = refl
  lookup-insert k j v ((i, w) ∷ m) =
      ground (arith, e.beq_iff k j, e.beq_iff i k, e.beq_iff i j, lookup-insert k j v m)

  pub lookup-erase :
      (k j : K) (m : Dict K V) → lookup j (erase k m) ≡ (if e.beq k j then none else lookup j m)
  unfolding lookup erase
  lookup-erase k j [] = ground arith
  lookup-erase k j ((i, w) ∷ m) =
      ground (arith, e.beq_iff k j, e.beq_iff i k, e.beq_iff i j, lookup-erase k j m)

pub beq_refl {ℓ} : {K : Type ℓ} ⦃e : Eq K⦄ (k : K) → e.beq k k ≡ true
beq_refl ⦃e⦄ k = (e.beq_iff k k).1 refl

module _ {ℓ κ} {K : Type ℓ} {V : Type κ} ⦃e : Eq K⦄ where
  pub contains-insert :
      (k j : K) (v : V) (m : Dict K V)
      → contains j (insert k v m) ≡ (if e.beq k j then true else contains j m)
  unfolding contains
  contains-insert k j v m = ground (arith, lookup-insert k j v m)

  pub contains-erase :
      (k j : K) (m : Dict K V)
      → contains j (erase k m) ≡ (if e.beq k j then false else contains j m)
  unfolding contains
  contains-erase k j m = ground (arith, lookup-erase k j m)

  pub get-insert :
      (k j : K) (d v : V) (m : Dict K V)
      → get j d (insert k v m) ≡ (if e.beq k j then v else get j d m)
  unfolding get
  get-insert k j d v m = ground (arith, lookup-insert k j v m)

-- Every value of a dictionary is as `P` says.
abbrev pub Values {ℓ κ μ} : {K : Type ℓ} {V : Type κ} → (V → Type μ) → Dict K V → Type μ
Values P [] = Unit
Values P ((k, v) ∷ m) = P v × Values P m

module _ {ℓ κ μ} {K : Type ℓ} {V : Type κ} ⦃e : Eq K⦄ (P : V → Type μ) where
  pub Values-insert : (k : K) (v : V) (m : Dict K V) → P v → Values P m → Values P (insert k v m)
  unfolding insert
  Values-insert k v [] p h = (p, tt)
  Values-insert k v ((j, w) ∷ m) p h = ground (arith, Values-insert k v m p h.1)

  pub Values-erase : (k : K) (m : Dict K V) → Values P m → Values P (erase k m)
  unfolding erase
  Values-erase k [] h = tt
  Values-erase k ((j, w) ∷ m) h = ground (arith, Values-erase k m h.1)

  pub Values-erase-insert :
      (k : K) (v : V) (m : Dict K V) → Values P m → Values P (erase k (insert k v m))
  unfolding insert erase
  Values-erase-insert k v [] h = ground (arith, e.beq_iff k k)
  Values-erase-insert k v ((j, w) ∷ m) h =
      ground (arith, e.beq_iff j k, Values-erase k m h.1, Values-erase-insert k v m h.1)

-- No key has two entries.
module _ {ℓ κ} {K : Type ℓ} {V : Type κ} ⦃e : Eq K⦄ where
  abbrev pub Unique : Dict K V → Type 0
  Unique [] = Unit
  Unique ((k, v) ∷ m) = (contains k m ≡ false) × Unique m

  pub Unique-insert : (k : K) (v : V) (m : Dict K V) → Unique m → Unique (insert k v m)
  unfolding insert
  Unique-insert k v [] u = (unfold contains in refl, tt)
  Unique-insert k v ((j, w) ∷ m) u =
      ground (arith, contains-insert k j v m, e.beq_iff j k, e.beq_iff k j, Unique-insert k v m u.1)
