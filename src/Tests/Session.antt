-- ===== src/Tests/Session.antt =====
-- The sessions of src/dataplane/quic.rs at concrete events.
use v6proxy.Prelude.{◌≡◌, refl, Bool, true, eq_ℕ, some, length, replicate, List, [], ◌∷◌, arith}
use v6proxy.Prelude.Map.{get}
use v6proxy.Text.{codes}
use v6proxy.Addr.{v6}
use v6proxy.Dataplane.Quic.{Crypto}
use v6proxy.Dataplane.Forward.{RouteWorld}
use v6proxy.Dataplane.Sni.Hello.{Hello, encode_handshake}
use v6proxy.Dataplane.Frames.Encode.{crypto_frame, encode_frames}
use v6proxy.Addr.Socket.{SocketAddr}
use v6proxy.Dataplane.Bytes.{Bytes}
use v6proxy.Dataplane.Session.{
  SessionKey, key_of, eq_key, QuicSession, Relay, QuicState, listening, Event, packet_event,
  resume_event, reply_event, receive_failed, relay_timeout, cleanup_event, step, run,
  on_relay_timeout,
}
use v6proxy.Dataplane.Session.Laws.{IsJustified}
use v6proxy.Dataplane.Session.Safety.{run-IsJustified}
use v6proxy.Dataplane.Session.Ended.{receive_failed_mutes}
use v6proxy.Tests.Nets.{v6_nets}
use v6proxy.Tests.Quic.{sevens, initial}
use v6proxy.Tests.World.{pool, zeros, client, site, started, route_world, adding}

abbrev hello : Hello
hello = record {
  fixed = replicate 34 3;
  session_id = [];
  ciphers = 0x13 ∷ 0x01 ∷ [];
  methods = 0 ∷ [];
  before = [];
  host = codes "good.com";
  after = [];
}

-- Cryptography under which every packet decrypts to a CRYPTO frame with the ClientHello.
abbrev telling : Crypto
telling = record {
  Hkdf = Bytes;
  extract = sevens.extract;
  from_prk = sevens.from_prk;
  expand = sevens.expand;
  expand_length = sevens.expand_length;
  encrypt_block = sevens.encrypt_block;
  encrypt_block_length = sevens.encrypt_block_length;
  decrypt = λ key nonce aad ciphertext.
      some (encode_frames (crypto_frame 0 (encode_handshake hello) ∷ []) []);
}

abbrev quic_world : RouteWorld v6_nets
quic_world = record route_world {
  at_accept = started;
  at_domain_check = started;
  at_resolve = started;
}

-- A client's first packet opens a session, its second is forwarded, and a reply is relayed.
abbrev events : List (Event v6_nets)
events =
    reply_event 0 site (1 ∷ 2 ∷ []) true
    ∷ packet_event 5 client initial true
    ∷ resume_event 3 0 quic_world (record { create_ok = true; send_ok = true })
    ∷ packet_event 2 client initial true
    ∷ []

abbrev after_events : QuicState
after_events = run v6_nets telling adding (pool ∷ []) events (listening zeros)

session_opened :
    (length after_events.sessions ≡ 1)
    × (length after_events.to_upstream ≡ 2)
    × (length after_events.to_client ≡ 1)
unfolding run step v6proxy.Dataplane.Session.on_reply get v6proxy.Dataplane.Session.on_packet
    v6proxy.Dataplane.Session.on_resume v6proxy.Prelude.Map.insert
    v6proxy.Dataplane.Session.new_session v6proxy.Dataplane.Quic.extract_quic_sni
    v6proxy.Dataplane.Bytes.index v6proxy.Dataplane.Quic.salt_of v6proxy.Dataplane.Bytes.slice
    v6proxy.Dataplane.Quic.initial_payload v6proxy.Dataplane.Varint.read_varint
    v6proxy.Dataplane.Varint.varint_loop v6proxy.Dataplane.Quic.derive_initial_keys
    v6proxy.Dataplane.Quic.decrypt_initial v6proxy.Dataplane.Quic.compute_hp_mask
    v6proxy.Dataplane.Quic.set v6proxy.Acl.Filter.is_allowed v6proxy.Acl.Matcher.best_match
    v6proxy.Acl.Matcher.matcher_is_empty v6proxy.Acl.Matcher.spec_gt v6proxy.Acl.Matcher.zone_walk
    v6proxy.Acl.Rule.normalize v6proxy.Acl.decide v6proxy.Addr.Socket.socket_addr_eq
    v6proxy.Addr.ip_eq v6proxy.Config.Egress.is_allowed v6proxy.Config.Egress.longest
    v6proxy.Config.Egress.max_of v6proxy.Config.Pool.avoid_reserved v6proxy.Config.Pool.host_at
    v6proxy.Config.Pool.host_mask v6proxy.Dataplane.Bytes.read_u16
    v6proxy.Dataplane.Forward.binding_of v6proxy.Dataplane.Forward.find_addr
    v6proxy.Dataplane.Forward.is_ipv6 v6proxy.Dataplane.Forward.note_domain_blocked
    v6proxy.Dataplane.Forward.note_egress_blocked v6proxy.Dataplane.Forward.resolve_dst
    v6proxy.Dataplane.Forward.route v6proxy.Dataplane.Frames.extract_crypto_data
    v6proxy.Dataplane.Hash.feed v6proxy.Dataplane.Hash.flow_hash
    v6proxy.Dataplane.Hash.pick_outgoing v6proxy.Dataplane.Quic.hkdf_label
    v6proxy.Dataplane.Quic.packet_number v6proxy.Dataplane.Quic.unmask
    v6proxy.Dataplane.Quic.xor_nonce v6proxy.Dataplane.Session.after_route
    v6proxy.Dataplane.Session.forward_existing v6proxy.Dataplane.Session.key_eq
    v6proxy.Dataplane.Session.on_cleanup v6proxy.Dataplane.Session.on_receive_failed
    on_relay_timeout v6proxy.Dataplane.Session.open_session v6proxy.Dataplane.Session.relay_reply
    v6proxy.Dataplane.Sni.client_hello_sni v6proxy.Dataplane.Sni.extract_tls_sni_from_handshake
    v6proxy.Prelude.Map.remove v6proxy.Text.count_char v6proxy.Text.has_substring
    v6proxy.Text.is_whitespace v6proxy.Text.split_once v6proxy.Text.starts_with v6proxy.Text.text_eq
    v6proxy.Text.to_ascii_lowercase v6proxy.Text.to_lower v6proxy.Text.trim
    v6proxy.Text.trim_end_matches v6proxy.Text.trim_start_matches encode_frames
    v6proxy.Dataplane.Varint.Encode.encode_varint encode_handshake
    v6proxy.Dataplane.Sni.Hello.encode_hello v6proxy.Dataplane.Sni.Hello.u16
    v6proxy.Dataplane.Sni.Hello.hello_extensions v6proxy.Dataplane.Sni.Hello.encode_extensions
    v6proxy.Dataplane.Sni.Hello.encode_sni v6proxy.Dataplane.Sni.Hello.encode_name
    v6proxy.Text.Utf8.from_utf8 v6proxy.Acl.Filter.build_domain_filter v6proxy.Acl.Filter.build
    v6proxy.Acl.Filter.parse_rules v6proxy.Acl.Filter.filter_valid_rules
    v6proxy.State.Delta.effective_allow v6proxy.State.Delta.merge_acl
    v6proxy.State.Delta.effective_deny v6proxy.Acl.Rule.parse_rule v6proxy.Text.strip_prefix
    v6proxy.Acl.Rule.parse_zone v6proxy.Acl.Rule.has_bad_character v6proxy.Acl.Matcher.from_rules
    v6proxy.Acl.Matcher.add_rules v6proxy.Acl.Matcher.add_rule v6proxy.Acl.Matcher.insert
    v6proxy.Config.Pool.prefix_mask
session_opened = (refl, refl, refl)

run-IsJustified_example : IsJustified v6_nets telling adding (pool ∷ []) events after_events
run-IsJustified_example = run-IsJustified v6_nets telling adding (pool ∷ []) zeros events

-- A client with a newer session than the relay of socket 0 serves.
abbrev newer : QuicSession
newer = record { upstream = 1; dst_addr = site; src_v6 = 5; last_active = 100 }

abbrev relay : Relay
relay = record { peer = client; dst_addr = site }

abbrev two_sockets : QuicState
two_sockets = record (listening zeros) {
  sessions = (key_of client, newer) ∷ [];
  relays = (0, relay) ∷ (1, relay) ∷ [];
  next_socket = 2;
}

relay_there : get two_sockets.relays 0 ≡ some relay
unfolding get
relay_there = refl

session_there : get two_sockets.sessions (key_of client) ≡ some newer
unfolding get v6proxy.Dataplane.Session.key_eq v6proxy.Addr.ip_eq
session_there = refl

receive_failed_mutes_example :
    (get
        (step v6_nets sevens adding (pool ∷ []) (receive_failed 1) two_sockets).sessions
        (key_of client)
      ≡ some newer)
    × ((later : List (Event v6_nets)) (origin : SocketAddr) (payload : Bytes) (send_ok : Bool)
        → step v6_nets sevens adding (pool ∷ []) (reply_event 1 origin payload send_ok) (
            run v6_nets sevens adding
              (pool ∷ [])
              later
              (step v6_nets sevens adding (pool ∷ []) (receive_failed 1) two_sockets))
          ≡ run v6_nets sevens adding
              (pool ∷ [])
              later
              (step v6_nets sevens adding (pool ∷ []) (receive_failed 1) two_sockets))
receive_failed_mutes_example =
    receive_failed_mutes v6_nets sevens adding (pool ∷ []) two_sockets 1 (key_of client) newer
      (omega arith) session_there
