-- ===== src/Settings/Loading.antt =====
-- loadConfigOrThrow of ton-egress-node/src/config.cpp on a configuration file that is printed from a
-- configuration: its scalar settings, and no list.
use ton_tunnel.Base.{
  ◌^◌, ◌<◌, ◌≡◌, refl, List, [], ◌∷◌, true, false, some, Bytes, codes, All, bytes_beq, bytes_eq,
  lookup, u16, arith,
}
use ton_tunnel.Egress.State.{Config, default_config}
use ton_tunnel.Settings.{extract_string, extract_string_array, extract_uint16_array, load_config}
use ton_tunnel.Settings.Keys.{NoQuote}
use ton_tunnel.Settings.Values.{Value, text, number, truth}
use ton_tunnel.Settings.Search.{print_entries, IsEntry}
use ton_tunnel.Settings.Fields.{
  plain, key_test, plain-NoQuote, extract_string-print, extract_uint-print, extract_bool-print,
  search_no_list,
}

-- A configuration's text has no quotes, and its numbers fit their fields.
unfoldable pub IsPrintable : Config → Type 0
IsPrintable c =
    All NoQuote c.transport_backend
    × All NoQuote c.adnl_library_path
    × All NoQuote c.adnl_listen_address
    × All NoQuote c.private_key
    × All NoQuote c.auth_token
    × (c.listen_port < 2 ^ 16)
    × (c.max_streams < 2 ^ 32)
    × (c.idle_timeout_sec < 2 ^ 32)
    × (c.egress.max_payload_bytes < 2 ^ 32)

-- The settings of a configuration that are no lists.
abbrev pub scalar_entries : Config → List (Bytes × Value)
scalar_entries c =
    (codes "transport_backend", text c.transport_backend)
    ∷ (codes "adnl_backend_library", text c.adnl_library_path)
    ∷ (codes "adnl_listen_address", text c.adnl_listen_address)
    ∷ (codes "private_key", text c.private_key)
    ∷ (codes "listen_port", number c.listen_port)
    ∷ (codes "max_streams", number c.max_streams)
    ∷ (codes "idle_timeout_sec", number c.idle_timeout_sec)
    ∷ (codes "auth_token", text c.auth_token)
    ∷ (codes "auth_required", truth c.auth_required)
    ∷ (codes "enabled", truth c.egress.enabled)
    ∷ (codes "max_payload_bytes", number c.egress.max_payload_bytes)
    ∷ (codes "block_private_ips", truth c.egress.block_private_ips)
    ∷ []

abbrev pub print_config : Config → Bytes
print_config c = b'{' ∷ print_entries (scalar_entries c)

scalar_entries-IsEntry : (c : Config) → IsPrintable c → All IsEntry (scalar_entries c)
unfolding IsPrintable plain
scalar_entries-IsEntry c h = (
  (plain-NoQuote (codes "transport_backend") refl, h.0),
  (
    (plain-NoQuote (codes "adnl_backend_library") refl, h.1),
    (
      (plain-NoQuote (codes "adnl_listen_address") refl, h.2),
      (
        (plain-NoQuote (codes "private_key") refl, h.3),
        (
          (plain-NoQuote (codes "listen_port") refl, tt),
          (
            (plain-NoQuote (codes "max_streams") refl, tt),
            (
              (plain-NoQuote (codes "idle_timeout_sec") refl, tt),
              (
                (plain-NoQuote (codes "auth_token") refl, h.4),
                (
                  (plain-NoQuote (codes "auth_required") refl, tt),
                  (
                    (plain-NoQuote (codes "enabled") refl, tt),
                    (
                      (plain-NoQuote (codes "max_payload_bytes") refl, tt),
                      ((plain-NoQuote (codes "block_private_ips") refl, tt), tt),
                    ),
                  ),
                ),
              ),
            ),
          ),
        ),
      ),
    ),
  ),
)

-- The configuration with the lists that a file without lists leaves.
abbrev pub default_lists : Config → Config
default_lists c = record {
  transport_backend = c.transport_backend;
  adnl_library_path = c.adnl_library_path;
  adnl_listen_address = c.adnl_listen_address;
  private_key = c.private_key;
  listen_port = c.listen_port;
  max_streams = c.max_streams;
  idle_timeout_sec = c.idle_timeout_sec;
  allowed_clients = [];
  auth_token = c.auth_token;
  auth_required = c.auth_required;
  egress = record {
    enabled = c.egress.enabled;
    max_payload_bytes = c.egress.max_payload_bytes;
    allowed_ports = default_config.egress.allowed_ports;
    block_private_ips = c.egress.block_private_ips;
  };
}

no_clients :
    (c : Config)
    → IsPrintable c
    → extract_string_array (print_config c) (codes "allowed_clients") ≡ []
unfolding extract_string_array lookup bytes_beq key_test plain
no_clients c h =
    rw
      (
        search_no_list (scalar_entries c) (scalar_entries-IsEntry c h) (codes "allowed_clients")
            refl refl,
        extract_string_array,
      )
      refl

no_ports :
    (c : Config)
    → IsPrintable c
    → extract_uint16_array (print_config c) (codes "allowed_ports") ≡ some []
unfolding extract_uint16_array lookup bytes_beq key_test plain
no_ports c h =
    rw
      (
        search_no_list (scalar_entries c) (scalar_entries-IsEntry c h) (codes "allowed_ports") refl
            refl,
        extract_uint16_array,
      )
      refl

-- A file that is printed from a configuration's settings other than its lists, whose texts hold no
-- quote and whose numbers fit their fields, is loaded as that configuration with no allowed
-- clients and the default ports.
pub load_config-print_config :
    (c : Config) → IsPrintable c → load_config (print_config c) ≡ some (default_lists c)
unfolding load_config IsPrintable lookup bytes_beq key_test plain
load_config-print_config c h =
    let es = scalar_entries c in
    let ok = scalar_entries-IsEntry c h in
    let low : u16 c.listen_port ≡ c.listen_port = omega (arith, h.5) in
    let u = extract_uint-print es ok in
    let s = extract_string-print es ok in
    let b = extract_bool-print es ok in
    rw
      (
        load_config,
        u (codes "listen_port") c.listen_port 30303 refl (omega (arith, h.5)) refl,
        u (codes "max_streams") c.max_streams 100 refl h.6 refl,
        u (codes "idle_timeout_sec") c.idle_timeout_sec 60 refl h.7 refl,
        u (codes "max_payload_bytes") c.egress.max_payload_bytes 65536 refl h.8 refl,
        no_ports c h,
        no_clients c h,
        s (codes "transport_backend") c.transport_backend (codes "adnl") refl h.0 refl,
        s (codes "adnl_backend_library") c.adnl_library_path
            (extract_string (print_config c) (codes "adnl_library_path")
              default_config.adnl_library_path)
            refl h.1 refl,
        s (codes "adnl_listen_address") c.adnl_listen_address (codes "0.0.0.0") refl h.2 refl,
        s (codes "private_key") c.private_key [] refl h.3 refl,
        s (codes "auth_token") c.auth_token [] refl h.4 refl,
        b (codes "auth_required") c.auth_required false refl refl,
        b (codes "enabled") c.egress.enabled true refl refl,
        b (codes "block_private_ips") c.egress.block_private_ips true refl refl,
        low,
      )
      refl
