-- ===== src/Dataplane/Session/Safety.antt =====
-- The invariant of the QUIC sessions.
use v6proxy.Prelude.{
  ℕ, ◌≡◌, refl, Bool, List, [], ◌∷◌, IsAt, here, Bool-cases, Option-cases, inl, inr, ◌==◌, eq_ℕ,
}
use v6proxy.Prelude.Map.{get, remove}
use v6proxy.Prelude.Entries.{All-retain, All-insert, All-remove, All-get}
use v6proxy.Addr.Socket.{SocketAddr, eq_socket_addr}
use v6proxy.Config.Pool.{V6Pool}
use v6proxy.Config.Net.{IpNets}
use v6proxy.Dataplane.Hash.{SipHasher}
use v6proxy.Dataplane.Bytes.{Bytes}
use v6proxy.Dataplane.Quic.{Crypto, extract_quic_sni}
use v6proxy.Dataplane.Forward.{Counters, RouteWorld}
use v6proxy.Dataplane.Session.{
  key_of, eq_key, Relay, QuicState, listening, QuicIo, Event, packet_event, resume_event,
  reply_event, receive_failed, relay_timeout, cleanup_event, on_packet, on_resume, relay_reply,
  on_reply, on_receive_failed, on_relay_timeout, on_cleanup, step, run,
}
use v6proxy.Dataplane.Session.Laws.{
  Arrived, Opened, SessionOpened, RelayOpened, PendingArrived, IsJustified, IsJustified-later,
}
use v6proxy.Dataplane.Session.Opening.{forward_existing-IsJustified, new_session-IsJustified}

module _ (nets : IpNets) (c : Crypto) (h : SipHasher) (pools : List V6Pool) where
  module _ (past : List (Event nets)) (s : QuicState) (j : IsJustified nets c h pools past s) where
    on_resume-IsJustified :
        (now task : ℕ) (w : RouteWorld nets) (io : QuicIo)
        → IsAt (resume_event now task w io) past
        → IsJustified nets c h pools past (on_resume nets c h pools now task w io s)
    unfolding on_resume
    on_resume-IsJustified now task w io at = elim (Option-cases (get s.pending task)) [
      | inl e ↦ rw (on_resume, e) j
      | inr (p, e) ↦
          rw (on_resume, e)
            (new_session-IsJustified nets c h pools past
              (record s { pending = remove s.pending task })
              (record {
                sessions = j.sessions;
                relays = j.relays;
                pending = All-remove (PendingArrived nets c h pools past) s.pending task j.pending;
                to_upstream = j.to_upstream;
                to_client = j.to_client;
              })
              now task w io p.peer p.packet (extract_quic_sni c p.packet) at
              (All-get (PendingArrived nets c h pools past) s.pending task p j.pending e) refl)
    ]

    on_packet-IsJustified :
        (now : ℕ) (peer : SocketAddr) (packet : Bytes) (send_ok : Bool)
        → Arrived nets c h pools past peer packet
        → IsJustified nets c h pools past (on_packet now peer packet send_ok s)
    unfolding on_packet
    on_packet-IsJustified now peer packet send_ok arrived =
        elim (Option-cases (get s.sessions (key_of peer))) [
          | inl e ↦
              rw (on_packet, e)
                (record {
                  sessions = j.sessions;
                  relays = j.relays;
                  pending =
                      All-insert (PendingArrived nets c h pools past) s.pending s.next_task _
                        j.pending arrived;
                  to_upstream = j.to_upstream;
                  to_client = j.to_client;
                })
          | inr (session, e) ↦
              rw (on_packet, e)
                (forward_existing-IsJustified nets c h pools past s j now (key_of peer) packet
                  send_ok session
                  (All-get (SessionOpened nets c h pools past) s.sessions (key_of peer) session
                    j.sessions e))
        ]

    drop_relay :
        (socket : ℕ)
        → IsJustified nets c h pools past (record s { relays = remove s.relays socket })
    drop_relay socket = record {
      sessions = j.sessions;
      relays = All-remove (RelayOpened nets c h pools past) s.relays socket j.relays;
      pending = j.pending;
      to_upstream = j.to_upstream;
      to_client = j.to_client;
    }

    reply_sent :
        (relay : Relay) (origin : SocketAddr) (payload : Bytes)
        → origin ≡ relay.dst_addr
        → ((src : ℕ) × Opened nets c h pools past (key_of relay.peer) src relay.dst_addr)
        → IsJustified nets c h pools past (record s {
          to_client =
              record { client = relay.peer; origin = origin; payload = payload } ∷ s.to_client;
        })
    reply_sent relay origin payload e (src, o) = record {
      sessions = j.sessions;
      relays = j.relays;
      pending = j.pending;
      to_upstream = j.to_upstream;
      to_client = ((src, rw e o), j.to_client);
    }

    relay_reply-IsJustified :
        (socket : ℕ) (relay : Relay) (origin : SocketAddr) (payload : Bytes) (send_ok : Bool)
        → ((src : ℕ) × Opened nets c h pools past (key_of relay.peer) src relay.dst_addr)
        → IsJustified nets c h pools past (relay_reply socket relay origin payload send_ok s)
    unfolding relay_reply
    relay_reply-IsJustified socket relay origin payload send_ok o =
        elim (Bool-cases (origin == relay.dst_addr)) [
          | inr other ↦ rw (relay_reply, other) j
          | inl same ↦ elim (Bool-cases send_ok) [
            | inl sent ↦
                rw (relay_reply, same, sent)
                  (reply_sent relay origin payload
                    ((eq_socket_addr.beq_iff origin relay.dst_addr).0 same) o)
            | inr failed ↦ rw (relay_reply, same, failed) (drop_relay socket)
          ]
        ]

    on_reply-IsJustified :
        (socket : ℕ) (origin : SocketAddr) (payload : Bytes) (send_ok : Bool)
        → IsJustified nets c h pools past (on_reply socket origin payload send_ok s)
    unfolding on_reply
    on_reply-IsJustified socket origin payload send_ok = elim (Option-cases (get s.relays socket)) [
      | inl e ↦ rw (on_reply, e) j
      | inr (relay, e) ↦
          rw (on_reply, e)
            (relay_reply-IsJustified socket relay origin payload send_ok
              (All-get (RelayOpened nets c h pools past) s.relays socket relay j.relays e))
    ]

    on_relay_timeout-IsJustified :
        (socket : ℕ) → IsJustified nets c h pools past (on_relay_timeout socket s)
    unfolding on_relay_timeout
    on_relay_timeout-IsJustified socket = elim (Option-cases (get s.relays socket)) [
      | inl e ↦ rw (on_relay_timeout, e) j
      | inr (relay, e) ↦
          rw (on_relay_timeout, e)
            (record {
              sessions =
                  All-remove (SessionOpened nets c h pools past) s.sessions (key_of relay.peer)
                    j.sessions;
              relays = All-remove (RelayOpened nets c h pools past) s.relays socket j.relays;
              pending = j.pending;
              to_upstream = j.to_upstream;
              to_client = j.to_client;
            })
    ]

    on_cleanup-IsJustified : (now : ℕ) → IsJustified nets c h pools past (on_cleanup now s)
    unfolding on_cleanup
    on_cleanup-IsJustified now = record {
      sessions = All-retain (SessionOpened nets c h pools past) _ s.sessions j.sessions;
      relays = j.relays;
      pending = j.pending;
      to_upstream = j.to_upstream;
      to_client = j.to_client;
    }

  step-IsJustified :
      (e : Event nets) (past : List (Event nets)) (s : QuicState)
      → IsJustified nets c h pools past s
      → IsJustified nets c h pools (e ∷ past) (step nets c h pools e s)
  unfolding step on_receive_failed
  step-IsJustified (packet_event now peer packet send_ok) past s j =
      on_packet-IsJustified _ s (IsJustified-later nets c h pools _ past s j) now peer packet
        send_ok (record { arrived_at = now; sent = send_ok; packet_at = here })
  step-IsJustified (resume_event now task w io) past s j =
      on_resume-IsJustified _ s (IsJustified-later nets c h pools _ past s j) now task w io here
  step-IsJustified (reply_event socket origin payload send_ok) past s j =
      on_reply-IsJustified _ s (IsJustified-later nets c h pools _ past s j) socket origin payload
        send_ok
  step-IsJustified (receive_failed socket) past s j =
      drop_relay _ s (IsJustified-later nets c h pools _ past s j) socket
  step-IsJustified (relay_timeout socket) past s j =
      on_relay_timeout-IsJustified _ s (IsJustified-later nets c h pools _ past s j) socket
  step-IsJustified (cleanup_event now) past s j =
      on_cleanup-IsJustified _ s (IsJustified-later nets c h pools _ past s j) now

  -- Whatever happens in whatever order: every datagram sent to an upstream, and every session that
  -- later packets are forwarded by, is for a client that sent a QUIC Initial packet with a host
  -- name that passed the domain filter, goes to an IPv6 address of that name which passed the
  -- egress filter, from the address picked for the client; and every datagram sent to a client came
  -- from the destination of such a session of that client.
  pub run-IsJustified :
      (k : Counters) (events : List (Event nets))
      → IsJustified nets c h pools events (run nets c h pools events (listening k))
  unfolding run
  run-IsJustified k [] = record {
    sessions = tt;
    relays = tt;
    pending = tt;
    to_upstream = tt;
    to_client = tt;
  }
  run-IsJustified k (e ∷ past) = step-IsJustified e past _ (run-IsJustified k past)
