-- ===== src/Dataplane/Session/Laws.antt =====
-- Where the datagrams of QUIC clients go, and where those that clients get come from.
use v6proxy.Prelude.{ℕ, ◌≡◌, Bool, some, List, ◌∷◌, All, IsAt, there, eq_ℕ}
use v6proxy.Prelude.Entries.{All-map}
use v6proxy.Text.{Text}
use v6proxy.Addr.Socket.{SocketAddr, eq_socket_addr}
use v6proxy.Config.Pool.{V6Pool}
use v6proxy.Config.Net.{IpNets}
use v6proxy.Dataplane.Hash.{SipHasher}
use v6proxy.Dataplane.Bytes.{Bytes, found}
use v6proxy.Dataplane.Quic.{Crypto, extract_quic_sni}
use v6proxy.Dataplane.Forward.{RouteWorld}
use v6proxy.Dataplane.Forward.Laws.{IsPermitted}
use v6proxy.Dataplane.Session.{
  SessionKey, key_of, eq_key, QuicSession, Relay, Pending, ToUpstream, ToClient, QuicState, QuicIo,
  Event, packet_event, resume_event,
}

module _ (nets : IpNets) (c : Crypto) (h : SipHasher) (pools : List V6Pool) where
  -- A packet has come from a client.
  pub record Arrived (past : List (Event nets)) (peer : SocketAddr) (packet : Bytes) : Type 0 where
    pub arrived_at : ℕ
    pub sent : Bool
    pub packet_at : IsAt (packet_event arrived_at peer packet sent) past

  -- A session was opened for a client: a packet of the client's named a host, and with what that
  -- task met the host was permitted, from the address `src` to `dst`.
  pub record Opened (past : List (Event nets)) (client : SessionKey) (src : ℕ) (dst : SocketAddr)
      : Type 0 where
    pub now : ℕ
    pub task : ℕ
    pub w : RouteWorld nets
    pub io : QuicIo
    pub resumed : IsAt (resume_event now task w io) past
    pub peer : SocketAddr
    pub packet : Bytes
    pub arrived : Arrived past peer packet
    pub from_client : key_of peer ≡ client
    pub name : Text
    pub read : extract_quic_sni c packet ≡ found name
    pub host : Text
    pub permitted : IsPermitted nets h pools w peer 443 (some name) host src dst

  Arrived-later :
      (e : Event nets) (past : List (Event nets)) (peer : SocketAddr) (packet : Bytes)
      → Arrived past peer packet
      → Arrived (e ∷ past) peer packet
  Arrived-later e past peer packet a = record {
    arrived_at = a.arrived_at;
    sent = a.sent;
    packet_at = there a.packet_at;
  }

  Opened-later :
      (e : Event nets) (past : List (Event nets)) (client : SessionKey) (src : ℕ) (dst : SocketAddr)
      → Opened past client src dst
      → Opened (e ∷ past) client src dst
  Opened-later e past client src dst o = record {
    now = o.now;
    task = o.task;
    w = o.w;
    io = o.io;
    resumed = there o.resumed;
    peer = o.peer;
    packet = o.packet;
    arrived = Arrived-later e past o.peer o.packet o.arrived;
    from_client = o.from_client;
    name = o.name;
    read = o.read;
    host = o.host;
    permitted = o.permitted;
  }

  module _ (past : List (Event nets)) where
    abbrev pub SessionOpened : SessionKey × QuicSession → Type 0
    SessionOpened (key, session) = Opened past key session.src_v6 session.dst_addr

    abbrev pub RelayOpened : ℕ × Relay → Type 0
    RelayOpened (socket, relay) = (src : ℕ) × Opened past (key_of relay.peer) src relay.dst_addr

    abbrev pub PendingArrived : ℕ × Pending → Type 0
    PendingArrived (task, p) = Arrived past p.peer p.packet

    abbrev pub SentPermitted : ToUpstream → Type 0
    SentPermitted d = Opened past d.client d.src d.dst

    abbrev pub ReplyPermitted : ToClient → Type 0
    ReplyPermitted d = (src : ℕ) × Opened past (key_of d.client) src d.origin

    -- All that the state holds goes back to permitted sessions.
    pub record IsJustified (s : QuicState) : Type 0 where
      pub sessions : All SessionOpened s.sessions
      pub relays : All RelayOpened s.relays
      pub pending : All PendingArrived s.pending
      pub to_upstream : All SentPermitted s.to_upstream
      pub to_client : All ReplyPermitted s.to_client

  pub IsJustified-later :
      (e : Event nets) (past : List (Event nets)) (s : QuicState)
      → IsJustified past s
      → IsJustified (e ∷ past) s
  IsJustified-later e past s j = record {
    sessions =
        All-map (SessionOpened past) (SessionOpened (e ∷ past)) s.sessions
          (λ (key, session). Opened-later e past key session.src_v6 session.dst_addr) j.sessions;
    relays =
        All-map (RelayOpened past) (RelayOpened (e ∷ past)) s.relays
          (λ (socket, relay) (src, o).
            (src, Opened-later e past (key_of relay.peer) src relay.dst_addr o))
          j.relays;
    pending =
        All-map (PendingArrived past) (PendingArrived (e ∷ past)) s.pending
          (λ (task, p). Arrived-later e past p.peer p.packet) j.pending;
    to_upstream =
        All-map (SentPermitted past) (SentPermitted (e ∷ past)) s.to_upstream
          (λ d. Opened-later e past d.client d.src d.dst) j.to_upstream;
    to_client =
        All-map (ReplyPermitted past) (ReplyPermitted (e ∷ past)) s.to_client
          (λ d (src, o). (src, Opened-later e past (key_of d.client) src d.origin o)) j.to_client;
  }
