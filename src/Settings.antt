-- ===== src/Settings.antt =====
-- ton-egress-node/src/config.cpp: the values that the node reads out of its configuration's text by
-- regular expressions. The text of the file is given; none is the exception of std::stoul.
pub mod Keys
pub mod Values
pub mod Search
pub mod Fields
pub mod Loading
use ton_tunnel.Base.{
  ℕ, zero, suc, ◌+◌, ◌^◌, List, [], ◌∷◌, ◌++◌, Bool, true, false, ◌&&◌, Option, none, some, Bytes,
  codes, length, is_nil, trim_front, leb, ◌==◌, if◌then◌else◌, decimal_value, u16, u32,
}
use ton_tunnel.Egress.State.{Config, EgressConfig, default_config}

-- The text behind a prefix.
unfoldable pub strip : Bytes → Bytes → Option Bytes
strip [] s = some s
strip (p ∷ ps) [] = none
strip (p ∷ ps) (x ∷ xs) = elim (p == x) [ true ↦ strip ps xs | false ↦ none ]

-- [^c]* and the c behind it: the text before, and what stands behind.
unfoldable pub until : ℕ → Bytes → Option (Bytes × Bytes)
until c [] = none
until c (x ∷ xs) = elim (x == c) [
  | true ↦ some ([], xs)
  | false ↦ elim (until c xs) [ none ↦ none | some (text, rest) ↦ some (x ∷ text, rest) ]
]

abbrev pub quoted : Bytes → Bytes
quoted s = b'"' ∷ (s ++ b'"' ∷ [])

-- "key"\s*:\s* at the start of a text: what stands behind it.
unfoldable pub match_key : Bytes → Bytes → Option Bytes
match_key key s = elim (strip (quoted key) s) [
  | none ↦ none
  | some behind ↦ elim (trim_front behind) [
    | [] ↦ none
    | c ∷ cs ↦ if c == b':' then some (trim_front cs) else none
  ]
]

-- A key, and a value behind it that `value` reads.
unfoldable pub match_field : Bytes → (Bytes → Option Bytes) → Bytes → Option Bytes
match_field key value s = elim (match_key key s) [ none ↦ none | some behind ↦ value behind ]

-- regex_search: the first place where the expression matches.
unfoldable pub search_field : Bytes → (Bytes → Option Bytes) → Bytes → Option Bytes
search_field key value [] = none
search_field key value (x ∷ xs) = elim (match_field key value (x ∷ xs)) [
  | some v ↦ some v
  | none ↦ search_field key value xs
]

-- "([^"]*)"
unfoldable pub string_value : Bytes → Option Bytes
string_value [] = none
string_value (c ∷ s) =
    if c == b'"' then elim (until b'"' s) [ none ↦ none | some (text, rest) ↦ some text ] else none

unfoldable pub is_digit : ℕ → Bool
is_digit c = leb b'0' c && leb c b'9'

unfoldable pub take_digits : Bytes → Bytes
take_digits [] = []
take_digits (c ∷ s) = elim (is_digit c) [ true ↦ c ∷ take_digits s | false ↦ [] ]

-- ([0-9]+)
unfoldable pub digits_value : Bytes → Option Bytes
digits_value s = elim (take_digits s) [ [] ↦ none | d ∷ ds ↦ some (d ∷ ds) ]

-- (true|false)
unfoldable pub bool_value : Bytes → Option Bytes
bool_value s = elim (strip (codes "true") s) [
  | some rest ↦ some (codes "true")
  | none ↦ elim (strip (codes "false") s) [ none ↦ none | some rest ↦ some (codes "false") ]
]

-- \[([^\]]*)\]
unfoldable pub list_value : Bytes → Option Bytes
list_value [] = none
list_value (c ∷ s) =
    if c == b'[' then elim (until b']' s) [ none ↦ none | some (text, rest) ↦ some text ] else none

unfoldable pub extract_string : Bytes → Bytes → Bytes → Bytes
extract_string src key fallback = elim (search_field key string_value src) [
  | none ↦ fallback
  | some s ↦ s
]

-- std::stoul: an unsigned long has 64 bits.
unfoldable pub stoul : Bytes → Option ℕ
stoul digits = if leb (2 ^ 64) (decimal_value 0 digits) then none else some (decimal_value 0 digits)

unfoldable pub extract_uint : Bytes → Bytes → ℕ → Option ℕ
extract_uint src key fallback = elim (search_field key digits_value src) [
  | none ↦ some fallback
  | some digits ↦ elim (stoul digits) [ none ↦ none | some n ↦ some (u32 n) ]
]

-- The value is "true" or not.
unfoldable pub is_true : Bytes → Bool
is_true s = elim (strip (codes "true") s) [ none ↦ false | some rest ↦ is_nil rest ]

unfoldable pub extract_bool : Bytes → Bytes → Bool → Bool
extract_bool src key fallback = elim (search_field key bool_value src) [
  | none ↦ fallback
  | some s ↦ is_true s
]

-- The matches of "([^"]*)" one after another; fuel for each byte.
unfoldable pub strings_in : ℕ → Bytes → List Bytes
strings_in zero s = []
strings_in (suc fuel) [] = []
strings_in (suc fuel) (c ∷ s) = elim (c == b'"') [
  | false ↦ strings_in fuel s
  | true ↦ elim (until b'"' s) [
    | none ↦ strings_in fuel s
    | some (text, rest) ↦ text ∷ strings_in fuel rest
  ]
]

unfoldable pub extract_string_array : Bytes → Bytes → List Bytes
extract_string_array src key = elim (search_field key list_value src) [
  | none ↦ []
  | some body ↦ strings_in (length body) body
]

-- The runs of digits, one after another; `run` is the one that is being read.
unfoldable pub digit_runs : Bytes → Bytes → List Bytes
digit_runs run [] = if is_nil run then [] else run ∷ []
digit_runs run (c ∷ s) = elim (is_digit c) [
  | true ↦ digit_runs (run ++ c ∷ []) s
  | false ↦ if is_nil run then digit_runs [] s else run ∷ digit_runs [] s
]

-- Values above 65535 are left out; they are cast to 32 bits first.
unfoldable pub keep_ports : List Bytes → Option (List ℕ)
keep_ports [] = some []
keep_ports (run ∷ runs) = elim (stoul run) [
  | none ↦ none
  | some n ↦ elim (keep_ports runs) [
    | none ↦ none
    | some ports ↦ some (if leb (u32 n) 65535 then u32 n ∷ ports else ports)
  ]
]

unfoldable pub extract_uint16_array : Bytes → Bytes → Option (List ℕ)
extract_uint16_array src key = elim (search_field key list_value src) [
  | none ↦ some []
  | some body ↦ keep_ports (digit_runs [] body)
]

infixl 5 ◌>>=◌
abbrev pub ◌>>=◌ : {A B : Type 0} → Option A → (A → Option B) → Option B
none >>= f = none
some a >>= f = f a

-- loadConfigOrThrow behind the reading of the file
unfoldable pub load_config : Bytes → Option Config
load_config raw = do
  let c = default_config
  let path = extract_string raw (codes "adnl_library_path") c.adnl_library_path
  port ← extract_uint raw (codes "listen_port") c.listen_port
  streams ← extract_uint raw (codes "max_streams") c.max_streams
  idle ← extract_uint raw (codes "idle_timeout_sec") c.idle_timeout_sec
  payload ← extract_uint raw (codes "max_payload_bytes") c.egress.max_payload_bytes
  ports ← extract_uint16_array raw (codes "allowed_ports")
  some (record {
    transport_backend = extract_string raw (codes "transport_backend") c.transport_backend;
    adnl_library_path = extract_string raw (codes "adnl_backend_library") path;
    adnl_listen_address = extract_string raw (codes "adnl_listen_address") c.adnl_listen_address;
    private_key = extract_string raw (codes "private_key") [];
    listen_port = u16 port;
    max_streams = streams;
    idle_timeout_sec = idle;
    allowed_clients = extract_string_array raw (codes "allowed_clients");
    auth_token = extract_string raw (codes "auth_token") [];
    auth_required = extract_bool raw (codes "auth_required") c.auth_required;
    egress = record {
      enabled = extract_bool raw (codes "enabled") c.egress.enabled;
      max_payload_bytes = payload;
      allowed_ports = if is_nil ports then c.egress.allowed_ports else ports;
      block_private_ips = extract_bool raw (codes "block_private_ips") c.egress.block_private_ips;
    };
  })
