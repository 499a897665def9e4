-- ===== src/Dataplane/Session/Opening.antt =====
-- Opening and using a session keeps the invariant.
use v6proxy.Prelude.{
  ℕ, ◌≡◌, refl, ap, Bool, true, false, ◌&&◌, some, List, IsAt, Bool-cases, inl, inr, eq_ℕ,
}
use v6proxy.Prelude.Entries.{All-insert}
use v6proxy.Text.{Text}
use v6proxy.Addr.Socket.{SocketAddr, eq_socket_addr}
use v6proxy.Config.Pool.{V6Pool}
use v6proxy.Config.Net.{IpNets}
use v6proxy.Dataplane.Hash.{SipHasher}
use v6proxy.Dataplane.Bytes.{Bytes, Parse, found, missing, panic, stuck}
use v6proxy.Dataplane.Quic.{Crypto, extract_quic_sni}
use v6proxy.Dataplane.Forward.{
  Counters, RouteWorld, Route, no_host, domain_refused, unresolved, no_pool, go, route,
}
use v6proxy.Dataplane.Forward.Laws.{route-IsPermitted}
use v6proxy.Dataplane.Session.{
  SessionKey, key_of, eq_key, QuicSession, QuicState, QuicIo, Event, resume_event, forward_existing,
  open_session, after_route, new_session,
}
use v6proxy.Dataplane.Session.Laws.{Arrived, Opened, SessionOpened, RelayOpened, IsJustified}

module _ (nets : IpNets) (c : Crypto) (h : SipHasher) (pools : List V6Pool) where
  module _ (past : List (Event nets)) (s : QuicState) (j : IsJustified nets c h pools past s) where
    pub forward_existing-IsJustified :
        (now : ℕ) (key : SessionKey) (packet : Bytes) (send_ok : Bool) (session : QuicSession)
        → Opened nets c h pools past key session.src_v6 session.dst_addr
        → IsJustified nets c h pools past (forward_existing now key packet send_ok session s)
    unfolding forward_existing
    forward_existing-IsJustified now key packet true session o = record {
      sessions = All-insert (SessionOpened nets c h pools past) s.sessions key _ j.sessions o;
      relays = j.relays;
      pending = j.pending;
      to_upstream = (o, j.to_upstream);
      to_client = j.to_client;
    }
    forward_existing-IsJustified now key packet false session o = record {
      sessions = All-insert (SessionOpened nets c h pools past) s.sessions key _ j.sessions o;
      relays = j.relays;
      pending = j.pending;
      to_upstream = j.to_upstream;
      to_client = j.to_client;
    }

    open_session-IsJustified :
        (now : ℕ) (io : QuicIo) (peer : SocketAddr) (packet : Bytes) (src : ℕ) (dst : SocketAddr)
        (k : Counters)
        → Opened nets c h pools past (key_of peer) src dst
        → IsJustified nets c h pools past
            (open_session now io peer packet src dst (record s { counters = k }))
    unfolding open_session
    open_session-IsJustified now io peer packet src dst k o =
        elim (Bool-cases (io.create_ok && io.send_ok)) [
          | inl e ↦
              rw (open_session, e)
                (record {
                  sessions =
                      All-insert (SessionOpened nets c h pools past) s.sessions (key_of peer) _
                        j.sessions o;
                  relays =
                      All-insert (RelayOpened nets c h pools past) s.relays s.next_socket _ j.relays
                        (src, o);
                  pending = j.pending;
                  to_upstream = (o, j.to_upstream);
                  to_client = j.to_client;
                })
          | inr e ↦
              rw (open_session, e)
                (record {
                  sessions = j.sessions;
                  relays = j.relays;
                  pending = j.pending;
                  to_upstream = j.to_upstream;
                  to_client = j.to_client;
                })
        ]

    recount : (k : Counters) → IsJustified nets c h pools past (record s { counters = k })
    recount k = record {
      sessions = j.sessions;
      relays = j.relays;
      pending = j.pending;
      to_upstream = j.to_upstream;
      to_client = j.to_client;
    }

    after_route-IsJustified :
        (now : ℕ) (io : QuicIo) (peer : SocketAddr) (packet : Bytes) (r : Route nets) (k : Counters)
        → ((host : Text) (src : ℕ) (dst : SocketAddr)
            → r ≡ go host src dst
            → Opened nets c h pools past (key_of peer) src dst)
        → IsJustified nets c h pools past (after_route nets now io peer packet s (r, k))
    unfolding after_route
    after_route-IsJustified now io peer packet no_host k o = recount k
    after_route-IsJustified now io peer packet (domain_refused host) k o = recount k
    after_route-IsJustified now io peer packet (unresolved e) k o = recount k
    after_route-IsJustified now io peer packet no_pool k o = recount k
    after_route-IsJustified now io peer packet (go host src dst) k o =
        open_session-IsJustified now io peer packet src dst k (o host src dst refl)

    pub new_session-IsJustified :
        (now task : ℕ) (w : RouteWorld nets) (io : QuicIo) (peer : SocketAddr) (packet : Bytes)
        (m : Parse Text)
        → IsAt (resume_event now task w io) past
        → Arrived nets c h pools past peer packet
        → extract_quic_sni c packet ≡ m
        → IsJustified nets c h pools past (new_session nets c h pools now w io peer packet s m)
    unfolding new_session
    new_session-IsJustified now task w io peer packet (found sni) at arrived read =
        let r = route nets h pools w peer 443 (some sni) s.counters in
        after_route-IsJustified now io peer packet r.0 r.1 λ host src dst went. record {
          now = now;
          task = task;
          w = w;
          io = io;
          resumed = at;
          peer = peer;
          packet = packet;
          arrived = arrived;
          from_client = refl;
          name = sni;
          read = read;
          host = host;
          permitted =
              route-IsPermitted nets h pools w peer 443 (some sni) s.counters r.1 host src dst
                (ap (λ x. (x, r.1)) went);
        }
    new_session-IsJustified now task w io peer packet missing at arrived read = j
    new_session-IsJustified now task w io peer packet panic at arrived read = j
    new_session-IsJustified now task w io peer packet stuck at arrived read = j
