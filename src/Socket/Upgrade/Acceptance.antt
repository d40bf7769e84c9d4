-- ===== src/Socket/Upgrade/Acceptance.antt =====
-- Which upgrades `handleUpgrade` accepts.
use voltron_ocpp_protocols.Common.{
  false, ◌≡◌, ap, ◌↔◌, String, ◌==◌, nat_eq, string_eq, Option, none, some, or_else, List, [], inl,
  inr, Option-cases,
}
use voltron_ocpp_protocols.Socket.{Node}
use voltron_ocpp_protocols.Socket.Upgrade.{
  Header, absent, one, many, Request, split, non_empty, Negotiation, reject, agreed,
  negotiate_sub_protocol, identity_of, key_of, accept, segments_of, decide, protocol_decision,
  key_decision, path_decision,
}
use voltron_ocpp_protocols.Socket.Upgrade.Paths.{
  IsStationPath, identity_of_iff, IsStationPath-IsNamed,
}
use voltron_ocpp_protocols.Socket.Upgrade.Protocols.{Agrees, negotiate_sub_protocol_iff}

-- A request that a station may make.
pub record IsAcceptable (segments : List String) (request : Request) (identity key : String)
    (protocol : Option String) : Type 0 where
  pub station : IsStationPath segments identity
  pub keyed : request.key ≡ one key
  pub spoken : Agrees request.protocol protocol

protocol_accepts :
    (i i' k k' : String) (n : Negotiation) (p : Option String)
    → (protocol_decision i' k' n ≡ accept i k p) ↔ ((i' ≡ i) × (k' ≡ k) × (n ≡ agreed p))
protocol_accepts i i' k k' reject p = (λ h. cc, λ h. cc)
protocol_accepts i i' k k' (agreed q) p = (λ h. (cc, cc, cc), λ h. cc)

key_accepts :
    (i i' k : String) (h g : Header) (p : Option String)
    → (key_decision i' (key_of h) g ≡ accept i k p) ↔ ((i' ≡ i) × (h ≡ one k) × Agrees g p)
key_accepts i i' k (one k') g p =
    let (to, from) = protocol_accepts i i' k k' (negotiate_sub_protocol g) p in
    let (agrees, settles) = negotiate_sub_protocol_iff g p in
    (λ h. let (a, b, c) = to h in (a, ap one b, agrees c), λ (a, b, c). from (a, cc, settles c))
key_accepts i i' k absent g p = (λ h. cc, λ h. cc)
key_accepts i i' k (many hs) g p = (λ h. cc, λ h. cc)

path_accepts :
    (o : Option String) (h g : Header) (i k : String) (p : Option String)
    → (path_decision o h g ≡ accept i k p) ↔ ((o ≡ some i) × (h ≡ one k) × Agrees g p)
path_accepts none h g i k p = (λ e. cc, λ e. cc)
path_accepts (some i') h g i k p =
    let (to, from) = key_accepts i i' k h g p in
    (λ e. let (a, b, c) = to e in (ap some a, b, c), λ (a, b, c). from (cc, b, c))

module _ (node : Node) where
  -- A request is accepted exactly if its path ends in `ocpp` and the identity and no earlier segment is
  -- `ocpp`, it has one key, and it offers no protocol or a supported one, of which the first is chosen.
  pub decide_iff :
      (request : Request) (identity key : String) (protocol : Option String)
      → (decide node request ≡ accept identity key protocol)
        ↔ IsAcceptable (segments_of node request.url) request identity key protocol
  unfolding decide
  decide_iff request identity key protocol =
      let segments = segments_of node request.url in
      let (to, from) =
        path_accepts (identity_of segments) request.key request.protocol identity key protocol in
      let (finds, found) = identity_of_iff segments identity in
      (
        λ e. let (a, b, c) = to e in record { station = finds a; keyed = b; spoken = c },
        λ v. from (found v.station, v.keyed, v.spoken),
      )

  segments_of-IsNamed :
      (url : Option String) (identity : String)
      → IsStationPath (segments_of node url) identity
      → (identity == "") ≡ false
  unfolding segments_of non_empty
  segments_of-IsNamed url identity v = elim (Option-cases (node.path_name (or_else url ""))) [
    | inl e ↦ IsStationPath-IsNamed [] identity (rw (segments_of, e) at v)
    | inr (path, e) ↦ IsStationPath-IsNamed (split b'/' path) identity (rw (segments_of, e) at v)
  ]

  -- A station that is accepted has an identity that is not empty.
  pub decide-IsNamed :
      (request : Request) (identity key : String) (protocol : Option String)
      → decide node request ≡ accept identity key protocol
      → (identity == "") ≡ false
  decide-IsNamed request identity key protocol e =
      segments_of-IsNamed request.url identity
        ((decide_iff request identity key protocol).0 e).station
