-- ===== src/Socket/Upgrade/Protocols.antt =====
-- The protocol that `negotiateSubProtocol` selects.
use voltron_ocpp_protocols.Common.{
  true, false, ◌≡◌, refl, ap, sym, ◌∙◌, ◌↔◌, String, nat_eq, string_eq, Option, none, some, List,
  [], ◌∷◌, ◌++◌, All, arith, inl, inr, Bool-cases,
}
use voltron_ocpp_protocols.Socket.Upgrade.{
  Header, absent, one, many, split, trim, is_supported, flat_split, first_supported, agreed,
  negotiate_sub_protocol, chosen,
}

-- A value of the header is refused.
abbrev IsRefused : String → Type 0
IsRefused value = is_supported (trim value) ≡ false

-- The first of the values that is supported, trimmed.
pub record IsChosen (values : List String) (protocol : String) : Type 0 where
  pub earlier : List String
  pub value : String
  pub later : List String
  pub parts : values ≡ earlier ++ value ∷ later
  pub refused : All IsRefused earlier
  pub supported : is_supported (trim value) ≡ true
  pub trimmed : protocol ≡ trim value

IsChosen-later :
    (v : String) (vs : List String) (p : String) → IsRefused v → IsChosen vs p → IsChosen (v ∷ vs) p
IsChosen-later v vs p h c = record {
  earlier = v ∷ c.earlier;
  value = c.value;
  later = c.later;
  parts = ap (λ ys. v ∷ ys) c.parts;
  refused = (h, c.refused);
  supported = c.supported;
  trimmed = c.trimmed;
}

first_supported-IsChosen :
    (vs : List String) (p : String) → first_supported vs ≡ some p → IsChosen vs p
unfolding first_supported
first_supported-IsChosen [] p h = cc
first_supported-IsChosen (v ∷ vs) p h = elim (Bool-cases (is_supported (trim v))) [
  | inl e ↦ record {
    earlier = [];
    value = v;
    later = vs;
    parts = refl;
    refused = tt;
    supported = e;
    trimmed = ground arith;
  }
  | inr e ↦ IsChosen-later v vs p e (first_supported-IsChosen vs p (ground arith))
]

first_supported-append :
    (earlier : List String) (value : String) (later : List String)
    → All IsRefused earlier
    → is_supported (trim value) ≡ true
    → first_supported (earlier ++ value ∷ later) ≡ some (trim value)
unfolding first_supported
first_supported-append [] value later r e = ground arith
first_supported-append (v ∷ vs) value later (r, rs) e =
    ground (arith, first_supported-append vs value later rs e)

pub first_supported_iff :
    (vs : List String) (p : String) → (first_supported vs ≡ some p) ↔ IsChosen vs p
first_supported_iff vs p = (
  first_supported-IsChosen vs p,
  λ c.
      ap first_supported c.parts
      ∙ first_supported-append c.earlier c.value c.later c.refused c.supported
      ∙ ap some (sym c.trimmed),
)

-- The values that a header offers.
abbrev pub offered : Header → List String
offered absent = []
offered (one h) = split b',' h
offered (many hs) = flat_split hs

-- Without the header there is no protocol; otherwise it is the first that is supported.
abbrev pub Agrees : Header → Option String → Type 0
Agrees absent protocol = protocol ≡ none
Agrees header protocol = (p : String) × (protocol ≡ some p) × IsChosen (offered header) p

negotiated :
    (o : Option String) (protocol : Option String)
    → (chosen o ≡ agreed protocol) ↔ ((p : String) × (protocol ≡ some p) × (o ≡ some p))
negotiated none protocol = (λ h. cc, λ h. cc)
negotiated (some q) protocol = (λ h. (q, cc, refl), λ h. cc)

chosen_iff :
    (vs : List String) (protocol : Option String)
    → (chosen (first_supported vs) ≡ agreed protocol)
      ↔ ((p : String) × (protocol ≡ some p) × IsChosen vs p)
chosen_iff vs protocol =
    let (to, from) = negotiated (first_supported vs) protocol in
    (
      λ h. let (p, e, k) = to h in (p, e, (first_supported_iff vs p).0 k),
      λ (p, e, c). from (p, e, (first_supported_iff vs p).1 c),
    )

pub negotiate_sub_protocol_iff :
    (header : Header) (protocol : Option String)
    → (negotiate_sub_protocol header ≡ agreed protocol) ↔ Agrees header protocol
unfolding negotiate_sub_protocol
negotiate_sub_protocol_iff absent protocol = (λ h. cc, λ h. cc)
negotiate_sub_protocol_iff (one h) protocol = chosen_iff (split b',' h) protocol
negotiate_sub_protocol_iff (many hs) protocol = chosen_iff (flat_split hs) protocol
