-- ===== src/Tests/Running.antt =====
-- src/main.rs and src/dataplane/tcp.rs at the concrete proxy.
use v6proxy.Prelude.{
  ℕ, ◌<◌, ◌≡◌, refl, true, false, some, List, [], ◌∷◌, All, here, there, arith, any, ltb, ◌&&◌, leb,
}
use v6proxy.Text.{Text, codes, has_char, is_whitespace}
use v6proxy.State.Delta.{effective_allow}
use v6proxy.Config.Egress.Build.{valid_nets}
use v6proxy.Dataplane.Bytes.{IsSafe}
use v6proxy.Dataplane.Host.{newline, extract_http_host}
use v6proxy.Dataplane.Host.Authority.{show_authority}
use v6proxy.Dataplane.Host.Laws.{IsHostLine, request, IsOther, extract_http_host-request}
use v6proxy.Acl.Filter
use v6proxy.Dataplane.Tcp.{handle_tcp}
use v6proxy.Dataplane.Tcp.Laws.{IsOpenedFor, handle_tcp_opens, handle_tcp-IsSafe}
use v6proxy.Startup.Laws.{IsStarted, truncated, start-IsStarted}
use v6proxy.Startup.Running.{handle_tcp-running}
use v6proxy.Tests.Nets.{v6_nets, builtins, builtin_ranges_parse}
use v6proxy.Tests.World.{
  good_host, serialize, deserialize, plain, config, empty_disk, pool, loaded, started,
  config_starts, zeros, requests, now_running, client, site, asked, tcp_world, adding, site_opened,
}

start-IsStarted_example : IsStarted v6_nets deserialize 1 empty_disk config loaded started
start-IsStarted_example =
    start-IsStarted v6_nets deserialize 1 empty_disk config true loaded started config_starts

site_is_documentation :
    v6_nets.contains
      (record { prefix = 0x20010db8000000000000000000000000; prefix_len = 32 })
      site.ip
    ≡ true
unfolding v6proxy.Config.Pool.prefix_mask
site_is_documentation = refl

handle_tcp-running_example :
    any
      (λ a. v6_nets.contains a site.ip && ltb 32 (v6_nets.prefix_len a))
      (valid_nets v6_nets (
        effective_allow now_running.store.policies.egress_acl
          (truncated v6_nets config.egress.allow)))
    ≡ true
handle_tcp-running_example =
    handle_tcp-running v6_nets serialize deserialize plain true 1 empty_disk config loaded started
      requests adding tcp_world client 80 zeros zeros (codes "good.com")
      42540766411294682115100131246806692116 site true builtins
      (record { prefix = 0x20010db8000000000000000000000000; prefix_len = 32 }) config_starts refl
      site_opened builtin_ranges_parse
      (there (there (there (there (there (there (there (there (there here)))))))))
      site_is_documentation

handle_tcp_opens_example :
    IsOpenedFor v6_nets adding
      (pool ∷ [])
      tcp_world
      client
      80
      (codes "good.com")
      42540766411294682115100131246806692116
      site
handle_tcp_opens_example =
    handle_tcp_opens v6_nets adding (pool ∷ []) tcp_world client 80 zeros zeros (codes "good.com")
      42540766411294682115100131246806692116 site true site_opened

handle_tcp-IsSafe_example : IsSafe (handle_tcp v6_nets adding (pool ∷ []) tcp_world client 80 zeros)
handle_tcp-IsSafe_example = handle_tcp-IsSafe v6_nets adding (pool ∷ []) tcp_world client 80 zeros

below : (xs : List ℕ) → any (λ b. leb 0x80 b) xs ≡ false → All (λ b. b < 0x80) xs
below [] h = tt
below (x ∷ xs) h = (ground (arith, h), below xs (ground (arith, h)))

abbrev headers : List Text
headers = codes "Accept: */*" ∷ []

all_ascii : any (λ b. leb 0x80 b) asked ≡ false
unfolding request v6proxy.Dataplane.Host.Laws.send_lines v6proxy.Dataplane.Host.Laws.show_host_line
    show_authority
all_ascii = refl

one_line : has_char newline (codes "GET / HTTP/1.1") ≡ false
unfolding has_char
one_line = refl

others : All IsOther headers
unfolding has_char v6proxy.Dataplane.Host.strip_host_name v6proxy.Text.strip_prefix
others = ((refl, refl, refl), tt)

spelled : IsHostLine good_host
unfolding show_authority is_whitespace has_char
spelled = record { blank = refl; clean = refl; spelled = (refl, refl, refl, refl) }

extract_http_host-request_example : extract_http_host asked ≡ some (codes "good.com")
extract_http_host-request_example =
    extract_http_host-request (codes "GET / HTTP/1.1") headers good_host [] (below asked all_ascii)
      one_line others spelled
