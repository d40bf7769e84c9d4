-- ===== src/Schemas/Parse/Accepts.antt =====
-- What the parsers accept.
use Prim.Native.String.{◌++◌}
use voltron_ocpp_protocols.Common.{
  ℕ, suc, ap, ◌+◌, ◌≡◌, ◌≢◌, refl, false, String, Option, none, some, List, [], ◌∷◌, arith, All,
  length,
}
use voltron_ocpp_protocols.Json.{Value, Items, nan, arr, items, member}
use voltron_ocpp_protocols.Errors.{Result, ok, >>=-eq-ok, ok_inj}
use voltron_ocpp_protocols.Schemas.Timestamp.{is_blank}
use voltron_ocpp_protocols.Schemas.Guards.{
  ensure_object, ensure_string, ensure_number, ensure_timestamp, type_violation,
}
use voltron_ocpp_protocols.Schemas.Guards.Laws.{
  IsTimestamp, ensure_string-eq-ok, ensure_timestamp-IsTimestamp, ensure_number-eq-ok,
  ensure_object-eq-ok,
}
use voltron_ocpp_protocols.Schemas.Payloads.{SampledValue, MeterValueEntry, MeterValuesPayload}
use voltron_ocpp_protocols.Schemas.Parse.{
  optional_number, parse_sampled_value, map_index, parse_array, parse_meter_value_entry,
  parse_meter_values,
}

non_empty {ℓ} :
    {A : Type ℓ} (s : String) (parsed : List A) {as' : List A}
    → elim parsed [ [] ↦ type_violation (s ++ " must be a non-empty array") | a ∷ bs ↦ ok (a ∷ bs) ]
      ≡ ok as'
    → (parsed ≡ as') × (as' ≢ [])
non_empty s [] h = cc
non_empty s (a ∷ bs) h = (ok_inj h, λ e. cc)

module _ {ℓ κ} {A : Type ℓ} {P : A → Type κ} {parse : Value → ℕ → Result A}
    (sound : (v : Value) (i : ℕ) (a : A) → parse v i ≡ ok a → P a) where
  map_index-All :
      (vs : List Value) (i : ℕ) {as' : List A}
      → map_index parse vs i ≡ ok as'
      → All P as' × (length as' ≡ length vs)
  unfolding map_index
  map_index-All [] i {as'} h = rw (← ok_inj h) (tt, refl)
  map_index-All (v ∷ vs) i {as'} h =
      let (a, p, h₁) = >>=-eq-ok (parse v i) _ h in
      let (as₁, q, h₂) = >>=-eq-ok (map_index parse vs (i + 1)) _ h₁ in
      let (rest, same) = map_index-All vs (i + 1) q in
      rw (← ok_inj h₂) ((sound v i a p, rest), ap suc same)

  -- An accepted array has one value for each element, and one at least.
  parse_array-All :
      (v : Option Value) (s : String) {as' : List A}
      → parse_array parse v s ≡ ok as'
      → All P as' × (as' ≢ []) × ((vs : _) × (v ≡ some (arr vs)) × (length as' ≡ length (items vs)))
  unfolding parse_array
  parse_array-All (some (arr vs)) s {as'} h =
      let (parsed, p, q) = >>=-eq-ok (map_index parse (items vs) 0) _ h in
      let (e, full) = non_empty s parsed q in
      let (each, same) = map_index-All (items vs) 0 p in
      (rw (← e) each, full, (vs, refl, rw (← e) same))
  parse_array-All none s h = cc
  parse_array-All (some _) s h = cc

abbrev IsSample : SampledValue → Type 0
IsSample s = is_blank s.value ≡ false

parse_sampled_value-IsSample :
    (v : Value) (i : ℕ) (s : SampledValue) → parse_sampled_value v i ≡ ok s → IsSample s
unfolding parse_sampled_value
parse_sampled_value-IsSample v i s h =
    let (entry, _, h₁) = >>=-eq-ok (ensure_object (some v) _) _ h in
    let (value, p, h₂) = >>=-eq-ok (ensure_string (member entry "value") "value") _ h₁ in
    ground (arith, ensure_string-eq-ok (member entry "value") "value" p)

-- A reading of a meter: when it was taken, and one sampled value at least, none of them blank.
pub record IsEntry (e : MeterValueEntry) : Type 0 where
  pub stamped : IsTimestamp e.timestamp
  pub filled : e.sampled_value ≢ []
  pub samples : All IsSample e.sampled_value

parse_meter_value_entry-IsEntry :
    (v : Value) (i : ℕ) (e : MeterValueEntry) → parse_meter_value_entry v i ≡ ok e → IsEntry e
unfolding parse_meter_value_entry
parse_meter_value_entry-IsEntry v i e h =
    let (entry, _, h₁) = >>=-eq-ok (ensure_object (some v) _) _ h in
    let (samples, p, h₂) =
      >>=-eq-ok (parse_array parse_sampled_value (member entry "sampledValue") _) _ h₁ in
    let (timestamp, q, h₃) =
      >>=-eq-ok (ensure_timestamp (member entry "timestamp") "timestamp") _ h₂ in
    let (each, full, _) =
      parse_array-All parse_sampled_value-IsSample (member entry "sampledValue") _ p in
    let (_, _, _, stamped, _) = ensure_timestamp-IsTimestamp (member entry "timestamp") _ q in
    rw (← ok_inj h₃) (record { stamped = stamped; filled = full; samples = each })

-- Accepted meter values name a connector by a number, and hold one reading for each element of the
-- array `meterValue`, one at least. Each reading has a timestamp with a zone and one sample at least,
-- and no sample's value is blank.
pub parse_meter_values-valid :
    (v : Option Value) (p : MeterValuesPayload)
    → parse_meter_values v ≡ ok p
    → (p.connector_id ≢ nan)
      × (p.meter_value ≢ [])
      × All IsEntry p.meter_value
      × ((body : Value) × (v ≡ some body)
          × ((vs : Items) × (member body "meterValue" ≡ some (arr vs))
              × (length p.meter_value ≡ length (items vs))))
unfolding parse_meter_values
parse_meter_values-valid v p h =
    let (body, o, h₁) = >>=-eq-ok (ensure_object v _) _ h in
    let (values, q, h₂) =
      >>=-eq-ok (parse_array parse_meter_value_entry (member body "meterValue") _) _ h₁ in
    let (connector, r, h₃) = >>=-eq-ok (ensure_number (member body "connectorId") _) _ h₂ in
    let (transaction, s, h₄) = >>=-eq-ok (optional_number (member body "transactionId") _) _ h₃ in
    let (each, full, counted) =
      parse_array-All parse_meter_value_entry-IsEntry (member body "meterValue") _ q in
    let (_, a_number) = ensure_number-eq-ok (member body "connectorId") _ r in
    rw (← ok_inj h₄) (a_number, full, each, (body, (ensure_object-eq-ok v _ o).0, counted))
