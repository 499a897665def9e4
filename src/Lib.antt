-- ===== src/Lib.antt =====
-- A verification of v6proxy, a transparent proxy that forwards TLS, HTTP and QUIC connections from
-- source addresses in IPv6 pools. An admin API changes the bindings of clients and the two access
-- lists at run time; the data plane reads the name a client asks for, decides whether it is
-- allowed, and picks the outgoing address.
--
-- Which file models what:
-- - State/Delta: `AclDelta` of src/state.rs, the overlay over the read-only lists of the config.
-- - State/Policy, State/Seed, State/Save: hash policies, seeds, bindings, `Policies`, and how a change is saved
--   and published (`apply_and_save`, `save_policies`, `load_policies` of src/state.rs). What each
--   system call of a save does is an argument, and so are the serializer and the clock.
-- - Acl: `decide`, the rules (Acl/Rule), the compiled matcher (Acl/Matcher) and the domain filter
--   (Acl/Filter) of src/acl.rs.
-- - Config/Pool, Config/Net, Config/Egress: pools, networks and the egress filter of src/config.rs,
--   with the functions of src/acl.rs that build it. The ipnet crate is the parameter `IpNets`.
-- - Dataplane/Hash: `pick_outgoing` of src/dataplane/hash.rs. The SipHash crate is a parameter.
-- - Config/Settings, Startup: the sections of the configuration and their checks in src/config.rs,
--   `validate_config` and the start of src/main.rs up to the listeners.
-- - Dataplane/Sni, Dataplane/Host: the TLS and the HTTP parser of src/dataplane/sni.rs.
-- - Dataplane/Forward, Dataplane/Tcp: `resolve_dst` and `bind_and_connect` of
--   src/dataplane/forward.rs, and `handle_tcp` of src/dataplane/tcp.rs. A connection loads the shared
--   state three times, and each load may see another state; DNS and the sockets are arguments.
-- - Dataplane/Session: the session table of src/dataplane/quic.rs. Its tasks are interleaved as a
--   list of events, of which the latest stands first; an upstream socket is known by its number.
-- - Dataplane/Varint, Dataplane/Frames, Dataplane/Quic: `read_varint`, `extract_crypto_data` and
--   `extract_quic_sni` of src/dataplane/quic.rs. The HKDF, AES and AES-GCM crates are the parameter
--   `Crypto`.
-- - Api: the state that the handlers of src/api/handlers.rs share (Api/Proxy, with the rebuilding of
--   the filters of src/acl.rs), the binding handlers (Api/Bindings) and the ACL handlers (Api/Acl).
--   A binding handler looks at the policies and takes the write lock later; `between` is what other
--   requests do in the meantime. An ACL handler runs alone there; Api/Acl/Effect and
--   Api/Acl/EgressEffect are about the filter that it leaves, and Api/Acl/Race has the steps of
--   several edits of the domain ACL in any order.
-- - Api/Auth, Api/Router: the checks of src/api/auth.rs and the routes of src/api/mod.rs. The argon2
--   crate is the parameter `Argon2`, and requests come matched to their route.
-- - Startup/Running: the start, the admin API and the data plane together.
-- - Text, Addr: what the program uses of Rust's `str`, `String` and `std::net`.
-- - Prelude: shared helpers. Tests: concrete runs.
--
-- How the code is modelled: numbers are natural numbers, with the wrap-around of the machine's
-- written out. A text is a list of code points and bytes are a list of numbers. A read of bytes is
-- found, missing (`return None`), a panic (an index or a slice out of bounds) or stuck (fuel ran
-- out). The parser loops run on fuel of one more than the length of the bytes, and the zone walk of
-- the matcher on one more than the length of the host: every round moves on by a byte at least.
-- Hash maps and sets are lists whose order nothing depends on. A label count is kept in 16 bits, so
-- the statements on hosts ask for fewer than 65535 characters.
--
-- Not modelled: sockets, DNS and copying, which are I/O; JSON and TOML, which are serde's; matching
-- paths to routes, which is axum's; the command line and logging. Times are numbers.
pub mod Prelude
pub mod Text
pub mod Addr
pub mod State
pub mod Acl
pub mod Config
pub mod Dataplane
pub mod Api
pub mod Startup
pub mod Tests
