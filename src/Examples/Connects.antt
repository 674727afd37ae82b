-- ===== src/Examples/Connects.antt =====
-- A TCP record, a UDP record and a network on which one address is taken.
use cli.Base.{
  ℕ, suc, ◌≤◌, ◌<◌, String, ◌≡◌, refl, true, false, Option, none, some, [], ◌∷◌, if◌then◌else◌,
  arith, ◌==◌,
}
use cli.Base.Maps.{Map, lookup, insert}
use cli.Base.Results.{ok, err}
use cli.Net.{has, after, contains_text, cut_last, join_host_port, split_host_port}
use cli.Proto.Records.{
  undefined, Protocol, tcp, udp, Connection, Record, ListenerStatus, ListenerUpdateRequest,
}
use cli.Tunnel.Urls.{parse_destination, override_proxy, add_port, parse_urls}
use cli.Api.Errors.{text, not_listening}
use cli.Api.Listener.{listening_at, set_listening, get_listener_status}
use cli.Api.Listener.Live.{AreLive, times, no_listeners-AreLive}
use cli.Api.Tunnels.{get_tls_config, new_tunnel}
use cli.Api.Connect.{
  Network, Settings, Server, accept_loop, udp_sessions, failed_status, connect_one, connect_loop,
  connect_tunnel, connect_tcp_tunnel, connect_udp_tunnel, disconnect_one, update,
}
use cli.Api.Connect.Step.{udp_stored, listens}
use cli.Tunnel.Config.{TunnelConfig}
use cli.Api.Connect.Tracked.{update-AreLive, connect_one-untracked}
use cli.Api.Connect.Answers.{Connectable, update-total, connect_one-failed}

abbrev conn : Protocol → Option String → Connection
conn protocol listen_addr = record {
  name = none;
  protocol = some protocol;
  remote_addr = "db:22";
  listen_addr = listen_addr;
  pomerium_url = none;
  tls_options = none;
  client_cert = none;
  client_cert_from_store = none;
}

abbrev rec : String → Protocol → Option String → Record
rec id protocol listen_addr = record {
  id = some id;
  tags = [];
  conn = some (conn protocol listen_addr);
  source = none;
}

abbrev network : Network ℕ
network = record {
  listen = λ addr w. (suc w, if addr == "taken" then err "in use" else ok "127.0.0.1:5000");
  resolve_udp_addr = λ addr w. (w, ok addr);
  listen_udp = λ addr w. (suc w, none);
}

abbrev settings : Settings
settings = record {
  crypto = record {
    x509_key_pair = λ c k. none;
    system_cert_pool = none;
    append_certs = λ pem. true;
    certstore_supported = true;
    to_lower = λ s. s;
  };
  parse = λ s. none;
  quote = λ s. s;
  browser_cmd = "";
  service_account = "";
  service_account_file = "";
}

abbrev stored : Map Record
stored = ("t", rec "t" tcp none) ∷ ("u", rec "u" udp none) ∷ ("x", rec "x" tcp (some "taken")) ∷ []

abbrev start : Server ℕ
start = record {
  config = record { by_id = stored; by_tag = [] };
  listeners = record { entries = []; cancelled = [] };
  next = 0;
  updates = [];
  tasks = [];
  world = 0;
}

start-Connectable : Connectable start.config
unfolding lookup
start-Connectable id r e = ground (arith, e)

-- The two ids and one that is not stored.
abbrev both : ListenerUpdateRequest
both = record { connection_ids = "t" ∷ "u" ∷ "none" ∷ []; connected = true }

update-total_example :
    (t : Server ℕ) × (answers : Map ListenerStatus) × (update network settings both start
      ≡ some (t, answers))
    × (t.config ≡ start.config)
update-total_example = update-total network settings both start start-Connectable

abbrev tun : TunnelConfig
tun = record {
  dst_host = "db:22";
  proxy_host = "db:443";
  service_account = "";
  service_account_file = "";
  tls_config = some (record {
    insecure_skip_verify = false;
    certificates = [];
    client_certificate = none;
    root_cas = none;
    next_protos = "http/1.1" ∷ [];
  });
  browser_config = "";
}

-- After "t" is connected.
abbrev one : Server ℕ
one = record start {
  listeners = record {
    entries = ("t", record { cancel = some 0; status = listening_at "127.0.0.1:5000" }) ∷ [];
    cancelled = [];
  };
  next = 1;
  tasks = accept_loop "t" 0 tun "127.0.0.1:5000" ∷ [];
  world = 1;
}

connect_t : connect_one network settings "t" start ≡ some (one, listening_at "127.0.0.1:5000")
unfolding connect_one connect_tunnel connect_tcp_tunnel new_tunnel parse_urls parse_destination
    override_proxy add_port get_tls_config contains_text after split_host_port cut_last
    join_host_port has lookup insert set_listening get_listener_status
connect_t = refl

-- After "u" is connected, too.
abbrev two : Server ℕ
two = record one {
  next = 2;
  tasks = accept_loop "t" 0 tun "127.0.0.1:5000" ∷ udp_sessions "u" 1 tun "127.0.0.1:0" ∷ [];
  world = 2;
}

connect_u : connect_one network settings "u" one ≡ some (two, listening_at "127.0.0.1:0")
unfolding connect_one connect_tunnel connect_udp_tunnel new_tunnel parse_urls parse_destination
    override_proxy add_port get_tls_config contains_text after split_host_port cut_last
    join_host_port has lookup insert get_listener_status
connect_u = refl

-- "x" cannot listen.
abbrev three : Server ℕ
three = record start {
  listeners = record { entries = []; cancelled = 0 ∷ [] };
  next = 1;
  updates =
      record {
        id = "x";
        peer_addr = none;
        status = undefined;
        last_error = some "listen: in use";
        auth_url = none;
      }
      ∷ [];
  world = 1;
}

connect_x : connect_one network settings "x" start ≡ some (three, failed_status "in use")
unfolding connect_one connect_tunnel connect_tcp_tunnel new_tunnel parse_urls parse_destination
    override_proxy add_port get_tls_config contains_text after split_host_port cut_last
    join_host_port has lookup insert set_listening get_listener_status
connect_x = refl

abbrev only_t : ListenerUpdateRequest
only_t = record { connection_ids = "t" ∷ []; connected = true }

abbrev answers_t : Map ListenerStatus
answers_t = ("t", listening_at "127.0.0.1:5000") ∷ []

update_t : update network settings only_t start ≡ some (one, answers_t)
unfolding update connect_loop insert
update_t = ground (arith, connect_t)

update-AreLive_example : AreLive one.next one.listeners
update-AreLive_example =
    update-AreLive network settings only_t start one answers_t no_listeners-AreLive update_t

tcp_stored : udp_stored "t" start ≡ false
unfolding lookup
tcp_stored = refl

idle_u : (get_listener_status "u" one.listeners).listening ≡ false
unfolding get_listener_status lookup
idle_u = refl

stored_u : udp_stored "u" one ≡ true
unfolding lookup
stored_u = refl

connect_one-untracked_example :
    (two.listeners.entries ≡ one.listeners.entries)
    × ((disconnect_one "u" two.listeners).1 ≡ failed_status (text not_listening))
connect_one-untracked_example =
    connect_one-untracked network settings "u" one two (listening_at "127.0.0.1:0") connect_u idle_u
      stored_u

idle_x : listens "x" start ≡ false
unfolding get_listener_status lookup
idle_x = refl

connect_one-failed_example :
    (three.listeners.entries ≡ start.listeners.entries)
    × (three.tasks ≡ start.tasks)
    × ((n : ℕ) → 0 ≤ n → n < three.next → times n three.listeners.cancelled ≡ 1)
connect_one-failed_example =
    connect_one-failed network settings "x" start three (failed_status "in use") connect_x
      no_listeners-AreLive idle_x refl
