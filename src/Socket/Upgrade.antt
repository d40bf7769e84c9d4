-- ===== src/Socket/Upgrade.antt =====
-- The decision on an upgrade: the first part of `handleUpgrade`, with `negotiateSubProtocol`.
pub mod Paths
pub mod Protocols
pub mod Acceptance
use Prim.Native.Char.{Char, code}
use Prim.Native.String
use Prim.Native.String.{[], ◌∷◌}
use voltron_ocpp_protocols.Common.{
  ℕ, suc, ◌+◌, Bool, true, false, not, ◌||◌, ◌&&◌, String, ◌==◌, nat_eq, string_eq, if◌then◌else◌,
  Option, none, some, or_else, List, [], ◌∷◌, ◌++◌, length,
}
use voltron_ocpp_protocols.Schemas.Timestamp.{is_space}
use voltron_ocpp_protocols.Socket.{Node}

-- The values of a header: none, one, or one for each line.
pub data Header : Type 0 where
  absent : Header
  one : String → Header
  many : List String → Header

pub record Request : Type 0 where
  pub url : Option String
  pub key : Header
  pub protocol : Header

abbrev onto_first : Char → List String → List String
onto_first c [] = []
onto_first c (w ∷ ws) = (c ∷ w) ∷ ws

-- `text.split(separator)`, for a separator of one character.
unfoldable pub split : ℕ → String → List String
split separator [] = "" ∷ []
split separator (c ∷ s) =
    let rest = split separator s in if code c == separator then "" ∷ rest else onto_first c rest

-- `filter(Boolean)`
unfoldable pub non_empty : List String → List String
non_empty [] = []
non_empty (w ∷ ws) = if w == "" then non_empty ws else w ∷ non_empty ws

-- `indexOf`
unfoldable pub index_of : String → List String → Option ℕ
index_of w [] = none
index_of w (v ∷ vs) =
    let rest = index_of w vs in
    if v == w then some 0 else elim rest [ none ↦ none | some i ↦ some (suc i) ]

-- `segments[segments.length - 1]`, of a list that is not empty.
unfoldable pub last_of : List String → String
last_of [] = ""
last_of (w ∷ []) = w
last_of (w ∷ v ∷ vs) = last_of (v ∷ vs)

unfoldable pub trim_end : String → String
trim_end [] = ""
trim_end (c ∷ s) = let rest = trim_end s in if rest == "" && is_space (code c) then "" else c ∷ rest

-- `value.trim()`
unfoldable pub trim : String → String
unfolding trim_end
trim [] = ""
trim (c ∷ s) = let rest = trim s in if is_space (code c) then rest else trim_end (c ∷ s)

-- `SUPPORTED_SUBPROTOCOLS.has(value)`
abbrev pub is_supported : String → Bool
is_supported value = value == "ocpp1.6" || value == "ocpp1.6j"

-- `header.flatMap(item => item.split(','))`
unfoldable pub flat_split : List String → List String
flat_split [] = []
flat_split (h ∷ hs) = split b',' h ++ flat_split hs

-- The first of the values, trimmed, that is supported.
unfoldable pub first_supported : List String → Option String
first_supported [] = none
first_supported (v ∷ vs) =
    let rest = first_supported vs in if is_supported (trim v) then some (trim v) else rest

-- What `negotiateSubProtocol` returns: `reject`, or else `selectedProtocol`, if there is one.
pub data Negotiation : Type 0 where
  reject : Negotiation
  agreed : Option String → Negotiation

abbrev pub chosen : Option String → Negotiation
chosen none = reject
chosen (some protocol) = agreed (some protocol)

unfoldable pub negotiate_sub_protocol : Header → Negotiation
negotiate_sub_protocol absent = agreed none
negotiate_sub_protocol (one h) = chosen (first_supported (split b',' h))
negotiate_sub_protocol (many hs) = chosen (first_supported (flat_split hs))

-- `ocppIndex`, tested, and the last segment.
unfoldable pub identity_of : List String → Option String
identity_of segments = elim (index_of "ocpp" segments) [
  | none ↦ none
  | some i ↦ if i + 2 == length segments then some (last_of segments) else none
]

-- `typeof key !== 'string'`
abbrev pub key_of : Header → Option String
key_of (one key) = some key
key_of _ = none

-- `handleUpgrade` ends with a status line, or it accepts: the identity, the key and the protocol.
pub data Decision : Type 0 where
  not_found bad_request : Decision
  accept : String → String → Option String → Decision

abbrev pub protocol_decision : String → String → Negotiation → Decision
protocol_decision identity key reject = bad_request
protocol_decision identity key (agreed protocol) = accept identity key protocol

abbrev pub key_decision : String → Option String → Header → Decision
key_decision identity none protocol = bad_request
key_decision identity (some key) protocol =
    protocol_decision identity key (negotiate_sub_protocol protocol)

abbrev pub path_decision : Option String → Header → Header → Decision
path_decision none key protocol = not_found
path_decision (some identity) key protocol = key_decision identity (key_of key) protocol

abbrev websocket_guid : String
websocket_guid = "258EAFA5-E914-47DA-95CA-C5AB0DC85B11"

unfoldable pub join : String → List String → String
join separator [] = ""
join separator (w ∷ []) = w
join separator (w ∷ v ∷ vs) = String.◌++◌ w (String.◌++◌ separator (join separator (v ∷ vs)))

module _ (node : Node) where
  open node use {path_name, sha1_base64}

  unfoldable pub segments_of : Option String → List String
  segments_of url = elim (path_name (or_else url "")) [
    | none ↦ []
    | some path ↦ non_empty (split b'/' path)
  ]

  unfoldable pub decide : Request → Decision
  decide request =
      path_decision (identity_of (segments_of request.url)) request.key request.protocol

  abbrev protocol_lines : Option String → List String
  protocol_lines none = []
  protocol_lines (some p) = if p == "" then [] else String.◌++◌ "Sec-WebSocket-Protocol: " p ∷ []

  -- `responseHeaders`
  unfoldable pub response_headers : String → Option String → List String
  response_headers key protocol =
      "HTTP/1.1 101 Switching Protocols"
      ∷ "Upgrade: websocket"
      ∷ "Connection: Upgrade"
      ∷ String.◌++◌ "Sec-WebSocket-Accept: " (sha1_base64 (String.◌++◌ key websocket_guid))
      ∷ protocol_lines protocol

  unfoldable pub response : String → Option String → String
  unfolding response_headers
  response key protocol = String.◌++◌ (join "\r\n" (response_headers key protocol)) "\r\n\r\n"
