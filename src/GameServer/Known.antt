-- ===== src/GameServer/Known.antt =====
-- An invariant of the sessions and of the packets that wait: what the packets are like, who has a session, and
-- that nobody has a handle.
use mathlib.Core.Path.{subst}
use r_type_server.Prelude.{
  ℕ, ◌≡◌, inl, inr, refl, sym, ap, Bool, true, false, List, [], ◌∷◌, none, some, if◌then◌else◌, All,
  Bool-cases,
}
use r_type_server.Prelude.Dict.{
  Dict, nat_eq, endpoint_eq, endpoint_beq, endpoint_beq_iff, lookup, insert, erase, get, Values,
}
use r_type_server.Wire.{Bytes}
use r_type_server.Gateway.State.{Address}
use r_type_server.GameServer.State.{GameServer, AuthChallenge}
use r_type_server.GameServer.Sessions.{Clock, Handled, served, thrown, undefined}
use r_type_server.GameServer.Auth.{Has, Grants}
use r_type_server.GameServer.Kept.{Ends, Kept}
use r_type_server.GameServer.Frames.{Frame}
use r_type_server.GameServer.Untried.{Untried, Untried-keys}
use r_type_server.GameServer.Datagrams.{
  is_authenticated, expire_handle, is_expired, cleanup_handles, cleanup_endpoints,
}

-- The packets of an endpoint, each as the predicate says.
abbrev pub Packets : (Address → Bytes → Type 0) → Dict Address (List Bytes) → Type 0
Packets Came [] = Unit {0}
Packets Came ((endpoint, ds) ∷ m) = All (Came endpoint) ds × Packets Came m

module _ (Came : Address → Bytes → Type 0) where
  same_endpoint :
      (a b : Address) (ds : List Bytes)
      → endpoint_beq a b ≡ true
      → All (Came b) ds
      → All (Came a) ds
  same_endpoint a b ds e h = subst (λ k. All (Came k) ds) (sym ((endpoint_beq_iff a b).0 e)) h

  pub Packets-insert :
      (k : Address) (ds : List Bytes) (m : Dict Address (List Bytes))
      → All (Came k) ds
      → Packets Came m
      → Packets Came (insert k ds m)
  unfolding insert
  Packets-insert k ds [] h hm = (h, tt)
  Packets-insert k ds ((j, ds') ∷ m) h hm = elim (Bool-cases (endpoint_beq j k)) [
    | inl same ↦ rw same (same_endpoint j k ds same h, hm.1)
    | inr other ↦ rw other (hm.0, Packets-insert k ds m h hm.1)
  ]

  pub Packets-get :
      (k : Address) (m : Dict Address (List Bytes)) → Packets Came m → All (Came k) (get k [] m)
  unfolding get lookup
  Packets-get k [] hm = tt
  Packets-get k ((j, ds) ∷ m) hm = at_entry (endpoint_beq j k) refl (Packets-get k m hm.1)
    where
      at_entry :
          (b : Bool)
          → endpoint_beq j k ≡ b
          → All (Came k) (get k [] m)
          → All (Came k) (elim (if b then some ds else lookup k m) as (λ _. List Bytes) [
            | none ↦ []
            | some v ↦ v
          ])
      at_entry true same ih = subst (λ i. All (Came i) ds) ((endpoint_beq_iff j k).0 same) hm.0
      at_entry false other ih = unfold get in ih

-- `Came endpoint d` for the packets that wait, `Granted endpoint` for those with a session; no attempt is
-- counted.
pub record Known (Came : Address → Bytes → Type 0) (Granted : Address → Type 0) (gs : GameServer)
    : Type 0 where
  pub packets : Packets Came gs.recv_packets
  pub sessions : (j : Address) → Has j gs → Granted j
  pub untried : Untried gs

module _ (Came : Address → Bytes → Type 0) (Granted : Address → Type 0) where
  pub Known-Frame :
      (gs gs' : GameServer) → Frame gs gs' → Known Came Granted gs → Known Came Granted gs'
  Known-Frame gs gs' e k = record {
    packets = subst (Packets Came) (sym (ap (λ t. t.0) e)) k.packets;
    sessions = λ j has.
        k.sessions j (subst (λ m. is_authenticated (lookup j m) ≡ true) (ap (λ t. t.2) e) has);
    untried = Untried-keys gs gs' (ap (λ t. (t.1, t.3, t.4)) e) k.untried;
  }

  -- A handler that keeps the packets and grants sessions as it may.
  pub Known-Ends :
      (Q : Address → Type 0) (gs : GameServer) (r : Handled)
      → Ends (Kept gs) r
      → Ends Untried r
      → ((j : Address) → Grants j (Q j) gs r)
      → ((j : Address) → Q j → Granted j)
      → Known Came Granted gs
      → Ends (Known Came Granted) r
  Known-Ends Q gs (served g) kept untried grants give k = record {
    packets = subst (Packets Came) (sym kept.0) k.packets;
    sessions = λ j has. elim (grants j has) [ inl before ↦ k.sessions j before | inr q ↦ give j q ];
    untried = untried;
  }
  Known-Ends Q gs (thrown g) kept untried grants give k = record {
    packets = subst (Packets Came) (sym kept.0) k.packets;
    sessions = λ j has. elim (grants j has) [ inl before ↦ k.sessions j before | inr q ↦ give j q ];
    untried = untried;
  }
  Known-Ends Q gs undefined kept untried grants give k = tt

  pub Known-then :
      (r : Handled) (f t : GameServer → Handled)
      → Ends (Known Came Granted) r
      → ((g : GameServer) → Known Came Granted g → Ends (Known Came Granted) (f g))
      → ((g : GameServer) → Known Came Granted g → Ends (Known Came Granted) (t g))
      → Ends
          (Known Came Granted)
          (elim r as (λ _. Handled) [ served g ↦ f g | thrown g ↦ t g | undefined ↦ undefined ])
  Known-then (served g) f t k onward caught = onward g k
  Known-then (thrown g) f t k onward caught = caught g k
  Known-then undefined f t k onward caught = tt

  erased :
      (h : ℕ) (gs : GameServer)
      → Untried gs
      → (gs.client_ids ≡ [])
        × (erase h gs.auth_states ≡ [])
        × Values (λ (entry : AuthChallenge). entry.attempts ≡ 0) gs.ep_auth_states
  unfolding erase
  erased h gs u = (u.0, rw (u.1), u.2)

  expire_handle-Known :
      (clock : Clock) (h : ℕ) (entry : AuthChallenge) (gs : GameServer)
      → Known Came Granted gs
      → Known Came Granted (expire_handle clock h entry gs)
  unfolding expire_handle
  expire_handle-Known clock h entry gs k = elim (Bool-cases (is_expired clock entry)) [
    | inl old ↦
        rw old
          (record { packets = k.packets; sessions = k.sessions; untried = erased h gs k.untried })
    | inr young ↦ rw young k
  ]

  pub cleanup_handles-Known :
      (clock : Clock) (m : Dict ℕ AuthChallenge) (gs : GameServer)
      → Known Came Granted gs
      → Known Came Granted (cleanup_handles clock m gs)
  unfolding cleanup_handles
  cleanup_handles-Known clock [] gs k = k
  cleanup_handles-Known clock ((h, entry) ∷ m) gs k =
      cleanup_handles-Known clock m (expire_handle clock h entry gs)
        (expire_handle-Known clock h entry gs k)

  pub cleanup_endpoints-Known :
      (clock : Clock) (m : Dict Address AuthChallenge) (gs : GameServer)
      → Known Came Granted gs
      → Ends (Known Came Granted) (cleanup_endpoints clock m gs)
  unfolding cleanup_endpoints
  cleanup_endpoints-Known clock [] gs k = k
  cleanup_endpoints-Known clock ((endpoint, entry) ∷ m) gs k =
      at_entry (is_expired clock entry) (cleanup_endpoints-Known clock m gs k)
    where
      at_entry :
          (b : Bool)
          → Ends (Known Came Granted) (cleanup_endpoints clock m gs)
          → Ends (Known Came Granted) (elim (if b then undefined else served gs) as (λ _. Handled) [
            | served gs' ↦ cleanup_endpoints clock m gs'
            | thrown gs' ↦ thrown gs'
            | undefined ↦ undefined
          ])
      at_entry true ih = tt
      at_entry false ih = ih
