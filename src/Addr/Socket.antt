-- ===== src/Addr/Socket.antt =====
-- `std::net::SocketAddr` and its parser.
use v6proxy.Prelude.{
  ℕ, ◌≡◌, ◌↔◌, Bool, true, ◌&&◌, Option, none, some, Eq, ◌==◌, eq_ℕ, arith, refl, length,
}
use v6proxy.Text.{Text, codes}
use v6proxy.Text.Numbers.{to_digit}
use v6proxy.Addr.{
  IpAddr, v4, v6, eq_ip, ip_eq_iff, Reader, ◌>>=◌, ◌>>◌, done, given_char, read_number,
  read_ipv4_addr, read_ipv6_addr, whole,
}

-- `std::net::SocketAddr`; of an IPv4 address the last two fields are 0.
pub record SocketAddr : Type 0 where
  pub ip : IpAddr
  pub port : ℕ
  pub flowinfo : ℕ
  pub scope_id : ℕ

unfoldable pub socket_addr_eq : SocketAddr → SocketAddr → Bool
socket_addr_eq a b =
    a.ip == b.ip && a.port == b.port && a.flowinfo == b.flowinfo && a.scope_id == b.scope_id

pub socket_addr_eq_iff : (a b : SocketAddr) → (socket_addr_eq a b ≡ true) ↔ (a ≡ b)
unfolding socket_addr_eq
socket_addr_eq_iff a b = ground (arith, ip_eq_iff a.ip b.ip)

instance abbrev pub eq_socket_addr : Eq SocketAddr
eq_socket_addr = record { beq = socket_addr_eq; beq_iff = socket_addr_eq_iff }

-- `read_number(10, None, true)`: as many digits as there are
any_number : ℕ → Reader ℕ
unfolding read_number
any_number most s = read_number 10 (length s) most true s

read_port : Reader ℕ
unfolding given_char any_number
read_port = do given_char b':'; any_number 65535

-- `read_scope_id().unwrap_or(0)`: nothing is taken when there is none.
read_scope_id : Reader ℕ
unfolding given_char any_number
read_scope_id s = elim ((do given_char b'%'; any_number 0xffffffff) s) [
  | none ↦ some (0, s)
  | some taken ↦ some taken
]

read_socket_addr_v4 : Reader SocketAddr
unfolding read_ipv4_addr read_port
read_socket_addr_v4 = do
  ip ← read_ipv4_addr
  port ← read_port
  done (record { ip = v4 ip; port = port; flowinfo = 0; scope_id = 0 })

read_socket_addr_v6 : Reader SocketAddr
unfolding given_char read_ipv6_addr read_scope_id read_port
read_socket_addr_v6 = do
  given_char b'['
  ip ← read_ipv6_addr
  scope_id ← read_scope_id
  given_char b']'
  port ← read_port
  done (record { ip = v6 ip; port = port; flowinfo = 0; scope_id = scope_id })

-- `SocketAddr::from_str`
unfoldable pub parse_socket_addr : Text → Option SocketAddr
unfolding read_socket_addr_v4 read_socket_addr_v6 whole
parse_socket_addr s = elim (read_socket_addr_v4 s) [
  | some taken ↦ whole (some taken)
  | none ↦ whole (read_socket_addr_v6 s)
]

parse_socket_addr_tests :
    (parse_socket_addr (codes "127.0.0.1:8080")
      ≡ some (record { ip = v4 0x7f000001; port = 8080; flowinfo = 0; scope_id = 0 }))
    × (parse_socket_addr (codes "[::1%3]:0443")
        ≡ some (record { ip = v6 1; port = 443; flowinfo = 0; scope_id = 3 }))
    × (parse_socket_addr (codes "[::1]:70000") ≡ none)
    × (parse_socket_addr (codes "[::1]") ≡ none)
    × (parse_socket_addr (codes "::1:80") ≡ none)
unfolding parse_socket_addr to_digit
parse_socket_addr_tests = (refl, refl, refl, refl, refl)
