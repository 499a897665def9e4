-- ===== src/Dataplane/Tcp/Serves.antt =====
-- A permitted TLS or HTTP client gets its connection.
use v6proxy.Prelude.{◌⊎◌, ℕ, ◌≤◌, ◌<◌, ◌≡◌, true, false, some, List, length, ◌==◌, eq_ℕ, All, IsAt}
use v6proxy.Text.{Text, has_char}
use v6proxy.Addr.Socket.{SocketAddr}
use v6proxy.Acl.Filter
use v6proxy.Config.Pool.{V6Pool}
use v6proxy.Config.Net.{IpNets}
use v6proxy.Config.Egress.{is_allowed}
use v6proxy.Dataplane.Hash.{SipHasher}
use v6proxy.Dataplane.Bytes.{Bytes}
use v6proxy.Dataplane.Sni.Hello.{Hello, encode_record}
use v6proxy.Dataplane.Sni.Hello.Laws.{IsHello}
use v6proxy.Dataplane.Host.{newline}
use v6proxy.Dataplane.Host.Authority.{host_of}
use v6proxy.Dataplane.Host.Laws.{HostLine, IsHostLine, IsOther, request}
use v6proxy.Dataplane.Forward.{is_ipv6}
use v6proxy.Dataplane.Tcp.{peek_buf_size, ConnectIo, TcpWorld}

-- Every call on the way to a connection succeeds.
pub record AllWell (io : ConnectIo) : Type 0 where
  pub create : io.create_ok ≡ true
  pub freebind : io.freebind_ok ≡ true
  pub bind : io.bind_ok ≡ true
  pub connect : io.connect_ok ≡ true

module _ (nets : IpNets) (h : SipHasher) (pools : List V6Pool) (w : TcpWorld nets)
    (peer : SocketAddr) (local_port : ℕ) where
  -- A client's first bytes: an ASCII request that fits the buffer, with a Host header that is spelled
  -- `Host:` or `host:`, and headers before it that are neither blank nor spelled so.
  pub record IsRequest (host : Text) : Type 0 where
    pub first : Text
    pub others : List Text
    pub line : HostLine
    pub body : Text
    pub arrived : w.peeked ≡ some (request first others line body)
    pub fits : length (request first others line body) ≤ peek_buf_size
    pub ascii : All (λ b. b < 0x80) (request first others line body)
    pub one_line : has_char newline first ≡ false
    pub headers : All IsOther others
    pub spelled : IsHostLine line
    pub asks : host_of line.authority ≡ host

  -- A client's first bytes: a TLS record with a ClientHello that names an ASCII host.
  pub record IsClientHello (host : Text) : Type 0 where
    pub hello : Hello
    pub arrived : w.peeked ≡ some (encode_record hello)
    pub fits : length (encode_record hello) ≤ peek_buf_size
    pub valid : IsHello hello
    pub names : hello.host ≡ host

  -- The client asks for a host: with TLS on port 443, with HTTP on another port.
  abbrev pub Asks : Text → Type 0
  Asks host =
      (((local_port == 443) ≡ false) × IsRequest host)
      ⊎ (((local_port == 443) ≡ true) × IsClientHello host)

  -- A host name is reachable: the domain filter lets it pass, and one of its addresses is an IPv6
  -- address that the egress filter lets pass.
  pub record IsReachable (host : Text) : Type 0 where
    pub host_allowed : Filter.is_allowed w.world.at_domain_check.domain_filter host ≡ true
    pub addrs : List SocketAddr
    pub resolved : w.world.lookup_host host local_port ≡ some addrs
    pub addr : SocketAddr
    pub among : IsAt addr addrs
    pub six : is_ipv6 addr ≡ true
    pub addr_allowed : is_allowed nets w.world.at_resolve.egress_filter addr.ip ≡ true
