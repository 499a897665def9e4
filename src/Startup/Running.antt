-- ===== src/Startup/Running.antt =====
-- The running proxy: what startup, the admin API and the data plane guarantee together.
use v6proxy.Prelude.{
  ℕ, ◌≡◌, Bool, true, Option, some, List, ok, any, ltb, ◌&&◌, IsAt, sym, subst, ap, ◌∙◌,
}
use v6proxy.Text.{Text}
use v6proxy.Addr.Socket.{SocketAddr}
use v6proxy.State.Delta.{effective_allow}
use v6proxy.State.Save.{Policies, Disk}
use v6proxy.Config.Net.{IpNets}
use v6proxy.Config.Egress.{builtin_blocked_nets}
use v6proxy.Config.Egress.Build.{valid_nets}
use v6proxy.Config.Settings.{Config}
use v6proxy.Api.Acl.Fresh.{IsFresh}
use v6proxy.Api.Auth.{Argon2, Request}
use v6proxy.Api.Bindings.{Env}
use v6proxy.Api.Bindings.Sound.{IsSound}
use v6proxy.Api.Router.{Endpoint, serve}
use v6proxy.Api.Router.Sound.{serve-IsSound}
use v6proxy.Dataplane.Bytes.{found}
use v6proxy.Dataplane.Hash.{SipHasher}
use v6proxy.Dataplane.Forward.{Counters}
use v6proxy.Dataplane.Tcp.{TcpWorld, opened, handle_tcp}
use v6proxy.Dataplane.Tcp.Laws.{handle_tcp_builtin}
use v6proxy.Api.Proxy.{Proxy}
use v6proxy.Startup.{LoadedConfig, start}
use v6proxy.Startup.Laws.{truncated, start-IsStarted}

module _ (nets : IpNets) (serialize : Policies → Option Text) (deserialize : Text → Option Policies)
    (argon : Argon2) (directory_ok : Bool) (now : ℕ) (disk : Disk) (c : Config)
    (loaded : LoadedConfig nets) (s : Proxy nets)
    (requests : List (Env × Counters × Request Endpoint)) where
  -- The state after a start and a run of requests to the admin API.
  abbrev pub running : Proxy nets
  running = serve nets serialize argon loaded.tokens requests s

  running-IsSound :
      start nets deserialize directory_ok now disk c ≡ ok (loaded, s)
      → IsSound nets serialize s running
  running-IsSound started =
      let first = start-IsStarted nets deserialize now disk c directory_ok loaded s started in
      serve-IsSound nets serialize argon loaded.tokens first.valid.builtins
        first.valid.builtins_parse requests s first.fresh

  -- The config list that the egress filter is built from is the config's, whatever was requested.
  running-egress_base :
      start nets deserialize directory_ok now disk c ≡ ok (loaded, s)
      → running.egress_base.0 ≡ truncated nets c.egress.allow
  running-egress_base started =
      ap (λ b. b.0) (running-IsSound started).egress_base
      ∙ (start-IsStarted nets deserialize now disk c directory_ok loaded s started).allow_ranges

  -- A TCP connection that is opened after a start and any run of requests to the admin API, each
  -- run alone, and that meets the state after them at its egress check, does not lead into a
  -- built-in range, unless a valid allow entry holds the destination and has a longer prefix than
  -- that range; the allow entries are those of the config, truncated, as the served overlay edits
  -- them.
  pub handle_tcp-running :
      (h : SipHasher) (w : TcpWorld nets) (peer : SocketAddr) (local_port : ℕ) (k k' : Counters)
      (host : Text) (src : ℕ) (dst : SocketAddr) (copied : Bool) (builtins : List nets.Net)
      (b : nets.Net)
      → start nets deserialize directory_ok now disk c ≡ ok (loaded, s)
      → w.world.at_resolve ≡ running
      → handle_tcp nets h loaded.pools w peer local_port k ≡ found (opened host src dst copied, k')
      → builtin_blocked_nets nets ≡ some builtins
      → IsAt b builtins
      → nets.contains b dst.ip ≡ true
      → any
          (λ a. nets.contains a dst.ip && ltb (nets.prefix_len b) (nets.prefix_len a))
          (valid_nets nets
            (effective_allow running.store.policies.egress_acl (truncated nets c.egress.allow)))
        ≡ true
  handle_tcp-running h w peer local_port k k' host src dst copied builtins b started at_run e parsed
        at inside =
      let excepts : List Text → Type 0 = λ entries.
        any (λ a. nets.contains a dst.ip && ltb (nets.prefix_len b) (nets.prefix_len a))
          (valid_nets nets entries)
        ≡ true in
      subst (λ base. excepts (effective_allow running.store.policies.egress_acl base))
        (running-egress_base started)
        (subst
          (λ (t : Proxy nets).
            excepts (effective_allow t.store.policies.egress_acl t.egress_base.0))
          at_run
          (handle_tcp_builtin nets h loaded.pools w peer local_port k k' host src dst copied
            builtins b e parsed
            (subst (λ (t : Proxy nets). IsFresh nets t) (sym at_run)
              (running-IsSound started).fresh)
            at inside))
