-- ===== src/Dataplane/Session/Ended.antt =====
-- What the end of a reverse relay leaves behind.
use v6proxy.Prelude.{
  ℕ, ◌<◌, ◌≡◌, refl, Bool, true, false, ◌&&◌, none, some, List, [], ◌∷◌, arith, Bool-cases,
  Option-cases, inl, inr, ◌==◌, ==_refl, eq_ℕ,
}
use v6proxy.Prelude.Map.{get, remove, get-insert, get-remove}
use v6proxy.Text.{Text}
use v6proxy.Addr.Socket.{SocketAddr, eq_socket_addr}
use v6proxy.Config.Pool.{V6Pool}
use v6proxy.Config.Net.{IpNets}
use v6proxy.Dataplane.Hash.{SipHasher}
use v6proxy.Dataplane.Bytes.{Bytes, Parse, found, missing, panic, stuck}
use v6proxy.Dataplane.Quic.{Crypto, extract_quic_sni}
use v6proxy.Dataplane.Forward.{
  Counters, RouteWorld, Route, no_host, domain_refused, unresolved, no_pool, go,
}
use v6proxy.Dataplane.Session.{
  SessionKey, key_of, eq_key, QuicSession, Relay, QuicState, QuicIo, Event, packet_event,
  resume_event, reply_event, receive_failed, relay_timeout, cleanup_event, forward_existing,
  on_packet, open_session, after_route, new_session, on_resume, relay_reply, on_reply,
  on_receive_failed, on_relay_timeout, on_cleanup, step, run,
}

-- When a relay times out, its client has no session, also if the one it had was a newer one than
-- the relay's.
pub on_relay_timeout_drops :
    (s : QuicState) (socket : ℕ) (relay : Relay)
    → get s.relays socket ≡ some relay
    → get (on_relay_timeout socket s).sessions (key_of relay.peer) ≡ none
unfolding on_relay_timeout
on_relay_timeout_drops s socket relay e =
    rw (on_relay_timeout, e)
      (ground (
        arith,
        get-remove s.sessions (key_of relay.peer) (key_of relay.peer),
        ==_refl (key_of relay.peer),
      ))

-- An upstream socket has been made, and has no relay.
pub record IsEnded (socket : ℕ) (s : QuicState) : Type 0 where
  pub made : socket < s.next_socket
  pub no_relay : get s.relays socket ≡ none

module _ (socket : ℕ) (s : QuicState) (ended : IsEnded socket s) where
  still :
      (s' : QuicState) → s'.next_socket ≡ s.next_socket → s'.relays ≡ s.relays → IsEnded socket s'
  still s' e f = record { made = rw e ended.made; no_relay = rw f ended.no_relay }

  forward_existing-IsEnded :
      (now : ℕ) (key : SessionKey) (packet : Bytes) (send_ok : Bool) (session : QuicSession)
      → IsEnded socket (forward_existing now key packet send_ok session s)
  unfolding forward_existing
  forward_existing-IsEnded now key packet true session = still _ refl refl
  forward_existing-IsEnded now key packet false session = still _ refl refl

  on_packet-IsEnded :
      (now : ℕ) (peer : SocketAddr) (packet : Bytes) (send_ok : Bool)
      → IsEnded socket (on_packet now peer packet send_ok s)
  unfolding on_packet
  on_packet-IsEnded now peer packet send_ok = elim (Option-cases (get s.sessions (key_of peer))) [
    | inl e ↦ rw (on_packet, e) (still _ refl refl)
    | inr (session, e) ↦
        rw (on_packet, e) (forward_existing-IsEnded now (key_of peer) packet send_ok session)
  ]

  open_session-IsEnded :
      (now : ℕ) (io : QuicIo) (peer : SocketAddr) (packet : Bytes) (src : ℕ) (dst : SocketAddr)
      (k : Counters)
      → IsEnded socket (open_session now io peer packet src dst (record s { counters = k }))
  unfolding open_session
  open_session-IsEnded now io peer packet src dst k =
      elim (Bool-cases (io.create_ok && io.send_ok)) [
        | inr e ↦ rw (open_session, e) (still _ refl refl)
        | inl e ↦
            rw (open_session, e)
              (record {
                made = omega (arith, ended.made);
                no_relay = ground (
                  arith,
                  get-insert s.relays s.next_socket (record { peer = peer; dst_addr = dst }) socket,
                  ended.made,
                  ended.no_relay,
                );
              })
      ]

  drop_relay-IsEnded : (other : ℕ) → IsEnded socket (record s { relays = remove s.relays other })
  drop_relay-IsEnded other = record {
    made = ended.made;
    no_relay = ground (arith, get-remove s.relays other socket, ended.no_relay);
  }

  on_reply-IsEnded :
      (other : ℕ) (origin : SocketAddr) (payload : Bytes) (send_ok : Bool)
      → IsEnded socket (on_reply other origin payload send_ok s)
  unfolding on_reply relay_reply
  on_reply-IsEnded other origin payload send_ok = elim (Option-cases (get s.relays other)) [
    | inl e ↦ rw (on_reply, e) ended
    | inr (relay, e) ↦ elim (Bool-cases (origin == relay.dst_addr)) [
      | inr f ↦ rw (on_reply, e, relay_reply, f) ended
      | inl f ↦ elim (Bool-cases send_ok) [
        | inl g ↦ rw (on_reply, e, relay_reply, f, g) (still _ refl refl)
        | inr g ↦ rw (on_reply, e, relay_reply, f, g) (drop_relay-IsEnded other)
      ]
    ]
  ]

  on_relay_timeout-IsEnded : (other : ℕ) → IsEnded socket (on_relay_timeout other s)
  unfolding on_relay_timeout
  on_relay_timeout-IsEnded other = elim (Option-cases (get s.relays other)) [
    | inl e ↦ rw (on_relay_timeout, e) ended
    | inr (relay, e) ↦
        rw (on_relay_timeout, e)
          (record { made = ended.made; no_relay = (drop_relay-IsEnded other).no_relay })
  ]

module _ (nets : IpNets) (c : Crypto) (h : SipHasher) (pools : List V6Pool) where
  after_route-IsEnded :
      (socket : ℕ) (s : QuicState)
      → IsEnded socket s
      → (now : ℕ) (io : QuicIo) (peer : SocketAddr) (packet : Bytes) (r : Route nets) (k : Counters)
      → IsEnded socket (after_route nets now io peer packet s (r, k))
  unfolding after_route
  after_route-IsEnded socket s ended now io peer packet no_host k = still socket s ended _ refl refl
  after_route-IsEnded socket s ended now io peer packet (domain_refused host) k =
      still socket s ended _ refl refl
  after_route-IsEnded socket s ended now io peer packet (unresolved e) k =
      still socket s ended _ refl refl
  after_route-IsEnded socket s ended now io peer packet no_pool k = still socket s ended _ refl refl
  after_route-IsEnded socket s ended now io peer packet (go host src dst) k =
      open_session-IsEnded socket s ended now io peer packet src dst k

  new_session-IsEnded :
      (socket : ℕ) (s : QuicState)
      → IsEnded socket s
      → (now : ℕ) (w : RouteWorld nets) (io : QuicIo) (peer : SocketAddr) (packet : Bytes)
        (m : Parse Text)
      → IsEnded socket (new_session nets c h pools now w io peer packet s m)
  unfolding new_session
  new_session-IsEnded socket s ended now w io peer packet (found sni) =
      after_route-IsEnded socket s ended now io peer packet _ _
  new_session-IsEnded socket s ended now w io peer packet missing = ended
  new_session-IsEnded socket s ended now w io peer packet panic = ended
  new_session-IsEnded socket s ended now w io peer packet stuck = ended

  on_resume-IsEnded :
      (socket : ℕ) (s : QuicState)
      → IsEnded socket s
      → (now task : ℕ) (w : RouteWorld nets) (io : QuicIo)
      → IsEnded socket (on_resume nets c h pools now task w io s)
  unfolding on_resume
  on_resume-IsEnded socket s ended now task w io = elim (Option-cases (get s.pending task)) [
    | inl e ↦ rw (on_resume, e) ended
    | inr (p, e) ↦
        rw (on_resume, e)
          (new_session-IsEnded socket _ (still socket s ended _ refl refl) now w io p.peer p.packet
            (extract_quic_sni c p.packet))
  ]

  step-IsEnded :
      (socket : ℕ) (e : Event nets) (s : QuicState)
      → IsEnded socket s
      → IsEnded socket (step nets c h pools e s)
  unfolding step on_receive_failed on_cleanup
  step-IsEnded socket (packet_event now peer packet send_ok) s ended =
      on_packet-IsEnded socket s ended now peer packet send_ok
  step-IsEnded socket (resume_event now task w io) s ended =
      on_resume-IsEnded socket s ended now task w io
  step-IsEnded socket (reply_event other origin payload send_ok) s ended =
      on_reply-IsEnded socket s ended other origin payload send_ok
  step-IsEnded socket (receive_failed other) s ended = drop_relay-IsEnded socket s ended other
  step-IsEnded socket (relay_timeout other) s ended = on_relay_timeout-IsEnded socket s ended other
  step-IsEnded socket (cleanup_event now) s ended = still socket s ended _ refl refl

  run-IsEnded :
      (socket : ℕ) (events : List (Event nets)) (s : QuicState)
      → IsEnded socket s
      → IsEnded socket (run nets c h pools events s)
  unfolding run
  run-IsEnded socket [] s ended = ended
  run-IsEnded socket (e ∷ past) s ended = step-IsEnded socket e _ (run-IsEnded socket past s ended)

  -- After receiving on an upstream socket has failed once, whatever else happens, no datagram that
  -- comes to that socket has any effect, while the session that sends by the socket is still there.
  pub receive_failed_mutes :
      (s : QuicState) (socket : ℕ) (key : SessionKey) (session : QuicSession)
      → socket < s.next_socket
      → get s.sessions key ≡ some session
      → (get (step nets c h pools (receive_failed socket) s).sessions key ≡ some session)
        × ((events : List (Event nets)) (origin : SocketAddr) (payload : Bytes) (send_ok : Bool)
            → let later =
                run nets c h pools events (step nets c h pools (receive_failed socket) s) in
              step nets c h pools (reply_event socket origin payload send_ok) later ≡ later)
  unfolding step on_receive_failed on_reply
  receive_failed_mutes s socket key session made bound =
      let failed = step nets c h pools (receive_failed socket) s in
      let ended : IsEnded socket failed = record {
        made = made;
        no_relay = ground (arith, get-remove s.relays socket socket, ==_refl socket);
      } in
      (
        bound,
        λ events origin payload send_ok.
            rw (on_reply, (run-IsEnded socket events failed ended).no_relay) refl,
      )
