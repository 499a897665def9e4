-- ===== src/Dataplane/Session.antt =====
-- The sessions of src/dataplane/quic.rs: the tasks of the listener, of each upstream socket and of
-- the cleanup, as the events that they are interleaved by. Sockets and the clock are arguments.
pub mod Laws
pub mod Opening
pub mod Safety
pub mod Ended
use v6proxy.Prelude.{
  ℕ, zero, suc, ◌+◌, ◌-◌, Bool, true, false, ◌&&◌, Option, none, some, List, [], ◌∷◌, if◌then◌else◌,
  Eq, ◌==◌, eq_ℕ, ltb, retain, arith, ◌≡◌, ◌↔◌,
}
use v6proxy.Prelude.Map.{Map, get, insert, remove}
use v6proxy.Text.{Text}
use v6proxy.Addr.{IpAddr, eq_ip, ip_eq_iff}
use v6proxy.Addr.Socket.{SocketAddr, eq_socket_addr}
use v6proxy.Config.Pool.{V6Pool}
use v6proxy.Config.Net.{IpNets}
use v6proxy.Dataplane.Hash.{SipHasher}
use v6proxy.Dataplane.Bytes.{Bytes, Parse, found, missing, panic, stuck}
use v6proxy.Dataplane.Quic.{Crypto, extract_quic_sni}
use v6proxy.Dataplane.Forward.{
  Counters, RouteWorld, Route, no_host, domain_refused, unresolved, no_pool, go, route,
}

-- `SessionKey`
pub record SessionKey : Type 0 where
  pub client_ip : IpAddr
  pub client_port : ℕ

unfoldable pub key_eq : SessionKey → SessionKey → Bool
key_eq a b = a.client_ip == b.client_ip && a.client_port == b.client_port

pub key_eq_iff : (a b : SessionKey) → (key_eq a b ≡ true) ↔ (a ≡ b)
unfolding key_eq
key_eq_iff a b = ground (arith, ip_eq_iff a.client_ip b.client_ip)

instance abbrev pub eq_key : Eq SessionKey
eq_key = record { beq = key_eq; beq_iff = key_eq_iff }

abbrev pub key_of : SocketAddr → SessionKey
key_of peer = record { client_ip = peer.ip; client_port = peer.port }

-- `QuicSession`; an upstream socket is known by its number. Times are in seconds.
pub record QuicSession : Type 0 where
  pub upstream : ℕ
  pub dst_addr : SocketAddr
  pub src_v6 : ℕ
  pub last_active : ℕ

abbrev pub session_idle_timeout : ℕ
session_idle_timeout = 300

-- What the reverse relay of one upstream socket has captured.
pub record Relay : Type 0 where
  pub peer : SocketAddr
  pub dst_addr : SocketAddr

-- A task that found no session for its packet, and has not gone on yet.
pub record Pending : Type 0 where
  pub peer : SocketAddr
  pub packet : Bytes

-- A datagram that the proxy sent for a client to an upstream.
pub record ToUpstream : Type 0 where
  pub client : SessionKey
  pub src : ℕ
  pub dst : SocketAddr
  pub payload : Bytes

-- A datagram that the proxy sent to a client, with where it had come from.
pub record ToClient : Type 0 where
  pub client : SocketAddr
  pub origin : SocketAddr
  pub payload : Bytes

-- What a listener and its tasks share, and what they have sent, the latest first.
pub record QuicState : Type 0 where
  pub sessions : Map SessionKey QuicSession
  pub relays : Map ℕ Relay
  pub pending : Map ℕ Pending
  pub next_task : ℕ
  pub next_socket : ℕ
  pub counters : Counters
  pub to_upstream : List ToUpstream
  pub to_client : List ToClient

abbrev pub listening : Counters → QuicState
listening k = record {
  sessions = [];
  relays = [];
  pending = [];
  next_task = 0;
  next_socket = 0;
  counters = k;
  to_upstream = [];
  to_client = [];
}

-- How the calls of a new session end.
pub record QuicIo : Type 0 where
  pub create_ok : Bool
  pub send_ok : Bool

module _ (nets : IpNets) where
  -- What may happen next: a packet for the listener; a pending task that goes on; a datagram for an
  -- upstream socket, a failure of it, or none for the idle time; a round of the cleanup.
  pub data Event : Type 0 where
    packet_event : (now : ℕ) (peer : SocketAddr) (packet : Bytes) (send_ok : Bool) → Event
    resume_event : (now task : ℕ) (w : RouteWorld nets) (io : QuicIo) → Event
    reply_event : (socket : ℕ) (origin : SocketAddr) (payload : Bytes) (send_ok : Bool) → Event
    receive_failed : (socket : ℕ) → Event
    relay_timeout : (socket : ℕ) → Event
    cleanup_event : (now : ℕ) → Event

-- The branch of `handle_quic_packet` for a session that is there.
unfoldable pub forward_existing :
    ℕ → SessionKey → Bytes → Bool → QuicSession → QuicState → QuicState
forward_existing now key packet send_ok session s =
    let active = record s {
      sessions = insert s.sessions key (record session { last_active = now });
    } in
    let sent : ToUpstream = record {
      client = key;
      src = session.src_v6;
      dst = session.dst_addr;
      payload = packet;
    } in
    if send_ok then record active { to_upstream = sent ∷ s.to_upstream } else active

unfoldable pub on_packet : ℕ → SocketAddr → Bytes → Bool → QuicState → QuicState
on_packet now peer packet send_ok s = elim (get s.sessions (key_of peer)) [
  | some session ↦ forward_existing now (key_of peer) packet send_ok session s
  | none ↦ record s {
    pending = insert s.pending s.next_task (record { peer = peer; packet = packet });
    next_task = suc s.next_task;
  }
]

-- From the upstream socket on: the first packet, the session, the relay.
unfoldable pub open_session :
    ℕ → QuicIo → SocketAddr → Bytes → ℕ → SocketAddr → QuicState → QuicState
open_session now io peer packet src dst s =
    let sent : ToUpstream = record {
      client = key_of peer;
      src = src;
      dst = dst;
      payload = packet;
    } in
    let session : QuicSession = record {
      upstream = s.next_socket;
      dst_addr = dst;
      src_v6 = src;
      last_active = now;
    } in
    if io.create_ok && io.send_ok
    then record s {
      sessions = insert s.sessions (key_of peer) session;
      relays = insert s.relays s.next_socket (record { peer = peer; dst_addr = dst });
      next_socket = suc s.next_socket;
      to_upstream = sent ∷ s.to_upstream;
    }
    else s

module _ (nets : IpNets) where
  unfoldable pub after_route :
      ℕ → QuicIo → SocketAddr → Bytes → QuicState → Route nets × Counters → QuicState
  after_route now io peer packet s (no_host, k) = record s { counters = k }
  after_route now io peer packet s (domain_refused host, k) = record s { counters = k }
  after_route now io peer packet s (unresolved e, k) = record s { counters = k }
  after_route now io peer packet s (no_pool, k) = record s { counters = k }
  after_route now io peer packet s (go host src dst, k) =
      open_session now io peer packet src dst (record s { counters = k })

  module _ (c : Crypto) (h : SipHasher) (pools : List V6Pool) where
    -- The rest of `handle_quic_packet` for a new client; without a name, and in a panic, the task
    -- ends.
    unfoldable pub new_session :
        ℕ → RouteWorld nets → QuicIo → SocketAddr → Bytes → QuicState → Parse Text → QuicState
    new_session now w io peer packet s (found sni) =
        after_route now io peer packet s (route nets h pools w peer 443 (some sni) s.counters)
    new_session now w io peer packet s missing = s
    new_session now w io peer packet s panic = s
    new_session now w io peer packet s stuck = s

    unfoldable pub on_resume : ℕ → ℕ → RouteWorld nets → QuicIo → QuicState → QuicState
    on_resume now task w io s = elim (get s.pending task) [
      | none ↦ s
      | some p ↦
          new_session now w io p.peer p.packet (record s { pending = remove s.pending task })
            (extract_quic_sni c p.packet)
    ]

-- One round of the relay's loop.
unfoldable pub relay_reply : ℕ → Relay → SocketAddr → Bytes → Bool → QuicState → QuicState
relay_reply socket relay origin payload send_ok s =
    if origin == relay.dst_addr
    then (if send_ok
        then record s {
          to_client =
              record { client = relay.peer; origin = origin; payload = payload } ∷ s.to_client;
        }
        else record s { relays = remove s.relays socket })
    else s

unfoldable pub on_reply : ℕ → SocketAddr → Bytes → Bool → QuicState → QuicState
on_reply socket origin payload send_ok s = elim (get s.relays socket) [
  | none ↦ s
  | some relay ↦ relay_reply socket relay origin payload send_ok s
]

unfoldable pub on_receive_failed : ℕ → QuicState → QuicState
on_receive_failed socket s = record s { relays = remove s.relays socket }

unfoldable pub on_relay_timeout : ℕ → QuicState → QuicState
on_relay_timeout socket s = elim (get s.relays socket) [
  | none ↦ s
  | some relay ↦ record s {
    sessions = remove s.sessions (key_of relay.peer);
    relays = remove s.relays socket;
  }
]

unfoldable pub on_cleanup : ℕ → QuicState → QuicState
on_cleanup now s = record s {
  sessions =
      retain
        (λ (entry : SessionKey × QuicSession). ltb (now - entry.1.last_active) session_idle_timeout)
        s.sessions;
}

module _ (nets : IpNets) (c : Crypto) (h : SipHasher) (pools : List V6Pool) where
  unfoldable pub step : Event nets → QuicState → QuicState
  step (packet_event now peer packet send_ok) s = on_packet now peer packet send_ok s
  step (resume_event now task w io) s = on_resume nets c h pools now task w io s
  step (reply_event socket origin payload send_ok) s = on_reply socket origin payload send_ok s
  step (receive_failed socket) s = on_receive_failed socket s
  step (relay_timeout socket) s = on_relay_timeout socket s
  step (cleanup_event now) s = on_cleanup now s

  -- The state after the events, of which the latest stands first.
  unfoldable pub run : List (Event nets) → QuicState → QuicState
  run [] s = s
  run (e ∷ past) s = step e (run past s)
