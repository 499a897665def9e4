-- ===== src/Config/Net.antt =====
-- Networks of src/config.rs: `parse_net`, `parse_net_list` and `canonicalize_net`. The ipnet crate is
-- a parameter.
use v6proxy.Prelude.{
  ℕ, Bool, Option, none, some, List, [], ◌∷◌, Result, ok, err, ◌>>=◌, if◌then◌else◌,
}
use v6proxy.Text.{Text, has_char}
use v6proxy.Addr.{IpAddr, parse_ip}

-- What the source uses of `ipnet::IpNet`.
pub record IpNets : Type 1 where
  pub Net : Type 0
  -- `str::parse::<IpNet>`
  pub parse_cidr : Text → Option Net
  -- `IpNet::from(IpAddr)`: the host route
  pub of_ip : IpAddr → Net
  pub contains : Net → IpAddr → Bool
  pub prefix_len : Net → ℕ
  pub trunc : Net → Net
  pub show : Net → Text

pub data NetError : Type 0 where
  invalid_cidr invalid_ip : NetError

abbrev pub or_net_error : {A : Type 0} → NetError → Option A → Result NetError A
or_net_error e none = err e
or_net_error e (some a) = ok a

module _ (nets : IpNets) where
  -- 47 is the slash.
  unfoldable pub parse_net : Text → Result NetError nets.Net
  parse_net entry =
      if has_char 47 entry
      then or_net_error invalid_cidr (nets.parse_cidr entry)
      else do ip ← or_net_error invalid_ip (parse_ip entry); ok (nets.of_ip ip)

  unfoldable pub parse_net_list : List Text → Result NetError (List nets.Net)
  parse_net_list [] = ok []
  parse_net_list (e ∷ entries) = do n ← parse_net e; rest ← parse_net_list entries; ok (n ∷ rest)

  unfoldable pub canonicalize_net : Text → Result NetError Text
  canonicalize_net entry = do n ← parse_net entry; ok (nets.show (nets.trunc n))
