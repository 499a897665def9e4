-- ===== src/Dataplane/Tcp.antt =====
-- src/dataplane/tcp.rs, with `peek_sni_or_host` of src/dataplane/sni.rs and `bind_and_connect` of
-- src/dataplane/forward.rs. What the sockets do is an argument.
pub mod Laws
pub mod Serves
use v6proxy.Prelude.{
  ℕ, Bool, true, false, Option, none, some, List, Result, ok, err, ◌>>=◌ as then_ok, if◌then◌else◌,
  ◌==◌, eq_ℕ, take,
}
use v6proxy.Text.{Text}
use v6proxy.Addr.{IpAddr, v4, v6}
use v6proxy.Config.Pool.{V6Pool}
use v6proxy.Config.Net.{IpNets}
use v6proxy.Dataplane.Hash.{SipHasher}
use v6proxy.Dataplane.Bytes.{Bytes, Parse, found, missing, panic, stuck, ◌>>=◌}
use v6proxy.Dataplane.Sni.{extract_tls_sni}
use v6proxy.Dataplane.Host.{extract_http_host}
use v6proxy.Addr.Socket.{SocketAddr}
use v6proxy.Dataplane.Forward.{
  Counters, ResolveError, RouteWorld, Route, no_host, domain_refused, unresolved, no_pool, go,
  route,
}

-- A parser's `Option` as a value.
abbrev pub attempt : {A : Type 0} → Parse A → Parse (Option A)
attempt (found a) = found (some a)
attempt missing = found none
attempt panic = panic
attempt stuck = stuck

abbrev pub peek_buf_size : ℕ
peek_buf_size = 16384

-- The host name in what has arrived, of which the buffer holds the first bytes.
unfoldable pub peek_sni_or_host : Bytes → ℕ → Parse (Option Text)
peek_sni_or_host arrived local_port =
    let buf = take peek_buf_size arrived in
    if local_port == 443 then attempt (extract_tls_sni buf) else found (extract_http_host buf)

-- How the calls of `bind_and_connect` end.
pub record ConnectIo : Type 0 where
  pub create_ok : Bool
  pub freebind_ok : Bool
  pub bind_ok : Bool
  pub connect_ok : Bool

pub data ConnectError : Type 0 where
  ipv4_rejected create_failed freebind_failed bind_failed connect_failed : ConnectError

unfoldable pub bind_and_connect : ConnectIo → ℕ → SocketAddr → Result ConnectError (Unit {0})
bind_and_connect io src dst = elim dst.ip [
  | v4 n ↦ err ipv4_rejected
  | v6 n ↦
      if io.create_ok
      then (if io.freebind_ok
          then (if io.bind_ok
              then (if io.connect_ok then ok tt else err connect_failed)
              else err bind_failed)
          else err freebind_failed)
      else err create_failed
]

module _ (nets : IpNets) where
  -- What one connection meets: what the peek gives (`none` is a timeout or an error), the shared
  -- state and the name service, and the sockets.
  pub record TcpWorld : Type 0 where
    pub peeked : Option Bytes
    pub world : RouteWorld nets
    pub io : ConnectIo
    pub copy_ok : Bool

  -- How the handling of a connection ends. `opened` says from where to where, and whether copying
  -- ended well.
  pub data TcpEnd : Type 0 where
    peek_failed : TcpEnd
    dropped : Route nets → TcpEnd
    not_connected : ConnectError → TcpEnd
    opened : Text → ℕ → SocketAddr → Bool → TcpEnd

  after_connect : Text → ℕ → SocketAddr → Bool → Result ConnectError (Unit {0}) → TcpEnd
  after_connect host src dst copy_ok (err e) = not_connected e
  after_connect host src dst copy_ok (ok done) = opened host src dst copy_ok

  connect_to : TcpWorld → Route nets → TcpEnd
  unfolding after_connect
  connect_to w (go host src dst) =
      after_connect host src dst w.copy_ok (bind_and_connect w.io src dst)
  connect_to w no_host = dropped no_host
  connect_to w (domain_refused host) = dropped (domain_refused host)
  connect_to w (unresolved e) = dropped (unresolved e)
  connect_to w no_pool = dropped no_pool

  unfoldable pub connect_route : TcpWorld → Route nets × Counters → TcpEnd × Counters
  unfolding connect_to
  connect_route w (r, k) = (connect_to w r, k)

  unfoldable pub handle_tcp :
      SipHasher → List V6Pool → TcpWorld → SocketAddr → ℕ → Counters → Parse (TcpEnd × Counters)
  handle_tcp h pools w peer local_port k = elim w.peeked [
    | none ↦ found (peek_failed, k)
    | some arrived ↦ do
      hostname ← peek_sni_or_host arrived local_port
      found (connect_route w (route nets h pools w.world peer local_port hostname k))
  ]
