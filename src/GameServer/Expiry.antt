-- ===== src/GameServer/Expiry.antt =====
-- Where `_cleanupExpiredAuthChallenges` is undefined, and what the server notes of an INPUT.
use r_type_server.Prelude.{
  Bool, ℕ, ◌+◌, ◌*◌, ◌-◌, ◌≤◌, ◌⊎◌, ◌↔◌, true, ◌/◌, ◌%◌, ◌^◌, ◌<◌, ◌≡◌, refl, ◌∙◌, false, [], ◌∷◌,
  ◌++◌, some, arith, ap, Bool-cases, inl, inr, if◌then◌else◌,
}
use r_type_server.Prelude.Dict.{
  Dict, nat_eq, endpoint_eq, endpoint_beq, endpoint_beq_iff, lookup, get, contains, Unique,
  get-insert, beq_refl,
}
use r_type_server.Wire.{Bytes, be_bytes}
use r_type_server.Gateway.State.{Address}
use r_type_server.Gateway.Packets.{game_id_of}
use r_type_server.GameServer.State.{
  GameServer, AuthChallenge, max_auth_attempts, auth_timeout, nanoseconds,
}
use r_type_server.GameServer.Udp.{Header, build_header}
use r_type_server.GameServer.Sessions.{Clock, Handled, served, thrown, undefined}
use r_type_server.GameServer.Kept.{Ends, Ends-map}
use r_type_server.GameServer.Handlers.{note_received}
use r_type_server.GameServer.Datagrams.{
  is_expired, cleanup_handles, cleanup_endpoints, expire_handle, expire_endpoint,
  cleanup_expired_auth_challenges,
}

-- Where an entry has expired: after three attempts, or after more than five seconds.
abbrev pub IsOld : Clock → AuthChallenge → Type 0
IsOld clock entry =
    (max_auth_attempts ≤ entry.attempts)
    ⊎ (auth_timeout * nanoseconds < clock.steady - entry.timestamp)

-- An endpoint with such an entry.
abbrev pub SomeOld : Clock → Dict Address AuthChallenge → Type 0
SomeOld clock m =
    (j : Address) × (entry : AuthChallenge) × (lookup j m ≡ some entry) × IsOld clock entry

is_expired-IsOld :
    (clock : Clock) (entry : AuthChallenge) → (is_expired clock entry ≡ true) ↔ IsOld clock entry
unfolding is_expired
is_expired-IsOld clock entry = (λ e. ground (arith, e), λ old. ground (arith, old))

lookup-missing :
    (endpoint j : Address) (entry other : AuthChallenge) (m : Dict Address AuthChallenge)
    → contains endpoint m ≡ false
    → lookup j m ≡ some other
    → lookup j ((endpoint, entry) ∷ m) ≡ some other
unfolding lookup contains
lookup-missing endpoint j entry other m u e = ground (arith, u, e, endpoint_beq_iff endpoint j)

young_first :
    (clock : Clock) (endpoint : Address) (entry : AuthChallenge) (m : Dict Address AuthChallenge)
    → is_expired clock entry ≡ false
    → SomeOld clock ((endpoint, entry) ∷ m)
    → SomeOld clock m
unfolding lookup
young_first clock endpoint entry m young (j, other, found, old) =
    elim (Bool-cases (endpoint_beq endpoint j)) [
      | inl same ↦ absurd (this_one (ground (arith, found, same)))
      | inr else_where ↦ (j, other, ground (arith, found, else_where), old)
    ]
  where
    this_one : entry ≡ other → ⊥
    this_one e =
        let expired : is_expired clock entry ≡ true = (is_expired-IsOld clock entry).1 (rw e old) in
        ground (arith, young, expired)

cleanup_endpoints-undefined :
    (clock : Clock) (m : Dict Address AuthChallenge) (gs : GameServer)
    → Unique m
    → (cleanup_endpoints clock m gs ≡ undefined) ↔ SomeOld clock m
unfolding cleanup_endpoints expire_endpoint lookup
cleanup_endpoints-undefined clock [] gs u =
    (λ e. absurd (cc), λ old. absurd (ground (arith, old.2)))
cleanup_endpoints-undefined clock ((endpoint, entry) ∷ m) gs u =
    at_entry (is_expired clock entry) refl (cleanup_endpoints-undefined clock m gs u.1)
  where
    at_entry :
        (b : Bool)
        → is_expired clock entry ≡ b
        → ((cleanup_endpoints clock m gs ≡ undefined) ↔ SomeOld clock m)
        → (elim (if b then undefined else served gs) as (λ _. Handled) [
          | served gs' ↦ cleanup_endpoints clock m gs'
          | thrown gs' ↦ thrown gs'
          | undefined ↦ undefined
        ]
            ≡ undefined)
          ↔ SomeOld clock ((endpoint, entry) ∷ m)
    at_entry true e ih = (
      λ _. (endpoint, entry, ground (arith, beq_refl endpoint), (is_expired-IsOld clock entry).0 e),
      λ _. refl,
    )
    at_entry false e ih = (
      λ c.
          let old = ih.0 c in
          (old.0, old.1, lookup-missing endpoint old.0 entry old.1 m u.0 old.2, old.3),
      λ old. ih.1 (young_first clock endpoint entry m e old),
    )

cleanup_endpoints-keeps :
    (clock : Clock) (m : Dict Address AuthChallenge) (gs : GameServer)
    → Ends (λ gs'. gs' ≡ gs) (cleanup_endpoints clock m gs)
unfolding cleanup_endpoints expire_endpoint
cleanup_endpoints-keeps clock [] gs = refl
cleanup_endpoints-keeps clock ((endpoint, entry) ∷ m) gs =
    ground (arith, cleanup_endpoints-keeps clock m gs)

cleanup_handles-keeps :
    (clock : Clock) (m : Dict ℕ AuthChallenge) (gs : GameServer)
    → (cleanup_handles clock m gs).ep_client_states ≡ gs.ep_client_states
unfolding cleanup_handles
cleanup_handles-keeps clock [] gs = refl
cleanup_handles-keeps clock ((h, entry) ∷ m) gs =
    cleanup_handles-keeps clock m (expire_handle clock h entry gs) ∙ expire_handle-keeps
  where
    expire_handle-keeps : (expire_handle clock h entry gs).ep_client_states ≡ gs.ep_client_states
    expire_handle-keeps = unfold expire_handle in ground arith

-- After a batch of datagrams, the behaviour is undefined if, and only if, some endpoint's entry in
-- `_ep_auth_states` has had three attempts or is more than five seconds old, whether or not the endpoint is
-- authenticated by now. Otherwise every session of an endpoint stays.
pub cleanup_expired_auth_challenges-undefined :
    (clock : Clock) (gs : GameServer)
    → Unique gs.ep_auth_states
    → ((cleanup_expired_auth_challenges clock gs ≡ undefined) ↔ SomeOld clock gs.ep_auth_states)
      × Ends
          (λ gs'. gs'.ep_client_states ≡ gs.ep_client_states)
          (cleanup_expired_auth_challenges clock gs)
unfolding cleanup_expired_auth_challenges
cleanup_expired_auth_challenges-undefined clock gs u =
    let handled = cleanup_handles clock gs.auth_states gs in
    (
      cleanup_endpoints-undefined clock gs.ep_auth_states handled u,
      Ends-map (cleanup_endpoints clock gs.ep_auth_states handled)
          (λ gs' e. ap (λ g. g.ep_client_states) e ∙ cleanup_handles-keeps clock gs.auth_states gs)
          (cleanup_endpoints-keeps clock gs.ep_auth_states handled),
    )

-- Of an INPUT's header, instead of the sequence number, its low three bytes and the first byte of the
-- acknowledgement behind it are noted.
pub note_received-header :
    (endpoint : Address) (h : Header) (rest : Bytes) (gs : GameServer)
    → h.seq < 2 ^ 32
    → h.ack_base < 2 ^ 32
    → get endpoint 0 (note_received endpoint 0 (build_header h ++ rest) gs).ep_last_received_seq
      ≡ h.seq % 2 ^ 24 * 256 + h.ack_base / 2 ^ 24
unfolding note_received build_header be_bytes game_id_of
note_received-header endpoint h rest gs s a =
    rw (get-insert endpoint endpoint 0 _ gs.ep_last_received_seq, beq_refl endpoint) (omega arith)
