-- ===== src/GameServer/Origins.antt =====
-- Where the sessions of a running game server come from.
use mathlib.Core.Path.{subst}
use mathlib.Core.List.{Memᴰ}
use r_type_server.Prelude.{
  none, ℕ, ◌≡◌, refl, List, [], ◌∷◌, Option, some, All, arith, Bool-cases, inl, inr,
}
use r_type_server.Prelude.Dict.{Dict, endpoint_eq, lookup, Values}
use r_type_server.Wire.{Bytes}
use r_type_server.Gateway.State.{Address}
use r_type_server.GameServer.State.{GameServer, AuthChallenge}
use r_type_server.GameServer.Udp.{header_size}
use r_type_server.GameServer.Datagrams.{is_authenticated}
use r_type_server.GameServer.Auth.{Has, RightCookie}
use r_type_server.GameServer.Kept.{Ends}
use r_type_server.GameServer.Frames.{Frame}
use r_type_server.GameServer.Frames.Snapshots.{send_game_snapshots-Frame}
use r_type_server.GameServer.Known.{Packets, Known, Known-Frame}
use r_type_server.GameServer.Link.{send_gs_registration, send_tcp}
use r_type_server.GameServer.Loop.{datagram, or_loopback}
use r_type_server.GameServer.Server.{World, handle_clients, Started, started, init_server}
use r_type_server.GameServer.Turns.{OnTurn, turn-Known}
use r_type_server.GameServer.Heard.{handle_clients-Known}
use r_type_server.GameServer.Run.{
  hears, fresh, Step, polled, turned, ticked, noted, Reach, here, next,
}

-- The datagram came from the endpoint in one of the turns that receive datagrams.
pub record Came (worlds : List World) (j : Address) (d : Bytes) : Type 0 where
  pub world : World
  pub from : Address
  pub in_run : Memᴰ world worlds
  pub received : world.datagram ≡ datagram d from
  pub of_endpoint : j ≡ or_loopback world.ipv4_offset from

-- A datagram of the endpoint had the right cookie at the time of one of the turns.
pub record Earned (worlds : List World) (j : Address) : Type 0 where
  pub packet : Bytes
  pub came : Came worlds j packet
  pub checked_in : World
  pub in_run : Memᴰ checked_in worlds
  pub right : RightCookie checked_in.crypto checked_in.clock j packet header_size

abbrev Sourced : List World → GameServer → Type 0
Sourced worlds = Known (Came worlds) (Earned worlds)

module _ (world : World) (worlds : List World) where
  later-Came : (j : Address) (d : Bytes) → Came worlds j d → Came (world ∷ worlds) j d
  later-Came j d c = record {
    world = c.world;
    from = c.from;
    in_run = Memᴰ.tail c.in_run;
    received = c.received;
    of_endpoint = c.of_endpoint;
  }

  later-Earned : (j : Address) → Earned worlds j → Earned (world ∷ worlds) j
  later-Earned j e = record {
    packet = e.packet;
    came = later-Came j e.packet e.came;
    checked_in = e.checked_in;
    in_run = Memᴰ.tail e.in_run;
    right = e.right;
  }

  later-All :
      (j : Address) (ds : List Bytes) → All (Came worlds j) ds → All (Came (world ∷ worlds) j) ds
  later-All j [] h = tt
  later-All j (d ∷ ds) h = (later-Came j d h.0, later-All j ds h.1)

  later-Packets :
      (m : Dict Address (List Bytes)) → Packets (Came worlds) m → Packets (Came (world ∷ worlds)) m
  later-Packets [] h = tt
  later-Packets ((j, ds) ∷ m) h = (later-All j ds h.0, later-Packets m h.1)

  later-Sourced : (gs : GameServer) → Sourced worlds gs → Sourced (world ∷ worlds) gs
  later-Sourced gs k = record {
    packets = later-Packets gs.recv_packets k.packets;
    sessions = λ j has. later-Earned j (k.sessions j has);
    untried = k.untried;
  }

heard :
    (world : World) (worlds : List World) (i h : ℕ) (gs : GameServer)
    → Sourced (world ∷ worlds) gs
    → OnTurn (Sourced (world ∷ worlds)) (handle_clients i h world gs)
heard world worlds =
    handle_clients-Known (Came (world ∷ worlds)) (Earned (world ∷ worlds)) world
      (λ from d received. record {
        world = world;
        from = from;
        in_run = Memᴰ.head refl;
        received = received;
        of_endpoint = refl;
      })
      (λ endpoint d came right. record {
        packet = d;
        came = came;
        checked_in = world;
        in_run = Memᴰ.head refl;
        right = right;
      })

Step-Sourced :
    (worlds : List World) (gs gs' : GameServer) (given : Option World)
    → Step gs given gs'
    → Sourced worlds gs
    → Sourced (noted given worlds) gs'
Step-Sourced worlds gs _ _ (polled fds p) k = record {
  packets = k.packets;
  sessions = k.sessions;
  untried = k.untried;
}
Step-Sourced worlds gs gs' _ (turned i p world _ j lt found e) k = elim (Bool-cases (hears p gs)) [
  | inl hearing ↦ rw hearing (
      subst (OnTurn (Sourced (world ∷ worlds))) e (
        turn-Known (Came (world ∷ worlds)) (Earned (world ∷ worlds)) world i p gs
          (later-Sourced world worlds gs k)
          (λ _. heard world worlds i p.handle gs (later-Sourced world worlds gs k))))
  | inr deaf ↦ rw deaf (
      subst (OnTurn (Sourced worlds)) e (
        turn-Known (Came worlds) (Earned worlds) world i p gs k
          (λ hearing. absurd (ground (arith, hearing, deaf)))))
]
Step-Sourced worlds gs gs' _ (ticked tick _ e) k =
    Known-Frame (Came worlds) (Earned worlds) gs gs'
      (subst (Ends (Frame gs)) e (send_game_snapshots-Frame tick gs)) k

abbrev OnStarted : (GameServer → Type 0) → Started → Type 0
OnStarted P (started gs) = P gs
OnStarted P _ = Unit {0}

start-Sourced :
    (h tcp : ℕ) (base external : Address)
    → OnStarted (Sourced []) (init_server (some h) (some tcp) (fresh base external))
unfolding init_server send_gs_registration send_tcp lookup is_authenticated
start-Sourced h tcp base external = record {
  packets = tt;
  sessions = λ j has. absurd (ground (arith, has));
  untried = (refl, refl, tt);
}

Reach-Sourced :
    (h tcp : ℕ) (base external : Address) (gs gs' : GameServer) (worlds : List World)
    → init_server (some h) (some tcp) (fresh base external) ≡ started gs
    → Reach gs worlds gs'
    → Sourced worlds gs'
Reach-Sourced h tcp base external gs gs' worlds e r = go r
  where
    first : Sourced [] gs
    first = subst (OnStarted (Sourced [])) e (start-Sourced h tcp base external)

    go : {worlds : List World} {g : GameServer} → Reach gs worlds g → Sourced worlds g
    go here = first
    go (next {worlds} {given} {gs' = g} {gs'' = g'} r s) = Step-Sourced worlds g g' given s (go r)

-- The attempts of an entry that may be missing.
abbrev pub attempts_of : Option AuthChallenge → ℕ
attempts_of none = 0
attempts_of (some entry) = entry.attempts

attempts_of-lookup :
    (j : Address) (m : Dict Address AuthChallenge)
    → Values (λ (entry : AuthChallenge). entry.attempts ≡ 0) m
    → attempts_of (lookup j m) ≡ 0
unfolding lookup
attempts_of-lookup j [] h = refl
attempts_of-lookup j ((k, entry) ∷ m) h = ground (arith, h.0, attempts_of-lookup j m h.1)

-- However a new game server runs after its start, as long as its behaviour is defined, an endpoint has a session only if a datagram came from it in
-- one of the turns that receive datagrams, and this datagram carries, by the clock of one of these turns, the
-- MAC of the address, the nonce in it and one of the last six seconds.
pub Reach-Earned :
    (h tcp : ℕ) (base external : Address) (gs gs' : GameServer) (worlds : List World) (j : Address)
    → init_server (some h) (some tcp) (fresh base external) ≡ started gs
    → Reach gs worlds gs'
    → Has j gs'
    → Earned worlds j
Reach-Earned h tcp base external gs gs' worlds j e r =
    (Reach-Sourced h tcp base external gs gs' worlds e r).sessions j

-- However a new game server runs after its start, as long as its behaviour is defined, no client gets a
-- handle, no challenge is kept by a handle, and no challenge of an endpoint has an attempt counted.
pub Reach-Untried :
    (h tcp : ℕ) (base external : Address) (gs gs' : GameServer) (worlds : List World) (j : Address)
    → init_server (some h) (some tcp) (fresh base external) ≡ started gs
    → Reach gs worlds gs'
    → (gs'.client_ids ≡ [])
      × (gs'.auth_states ≡ [])
      × (attempts_of (lookup j gs'.ep_auth_states) ≡ 0)
Reach-Untried h tcp base external gs gs' worlds j e r =
    let u = (Reach-Sourced h tcp base external gs gs' worlds e r).untried in
    (u.0, u.1, attempts_of-lookup j gs'.ep_auth_states u.2)
