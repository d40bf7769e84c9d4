-- ===== src/Schemas/Timestamp/Zones.antt =====
-- Appending a zone to a timestamp that has none.
use Prim.Native.Char.{Char, code}
use Prim.Native.String.{[], ◌∷◌, ◌++◌}
use text.Mathlib.TextLemmas.{cons-append}
use mathlib.Core.Path.{subst}
use voltron_ocpp_protocols.Common.{
  ◌≡◌, refl, sym, ap, ◌∙◌, true, false, ◌||◌, String, ◌==◌, nat_eq, some, ◌>>=◌, >>=-eq-some,
  Bool-cases, Option-cases, inl, inr, arith, List, [], ◌∷◌,
}
use voltron_ocpp_protocols.Schemas.Timestamp.{
  Class, d, accepts, front, date_time, skip_digits, fraction, is_empty, is_offset, is_z,
  is_iso_date, is_blank, ends_with_offset, ends_with_z, has_zone,
}

-- What a matcher leaves is an end of the text.
data IsEnd : String → String → Type 0 where
  all : {s : String} → IsEnd s s
  skip : {r s : String} (c : Char) → IsEnd r s → IsEnd r (c ∷ s)

IsEnd-eq : {r s : String} → s ≡ r → IsEnd r s
IsEnd-eq {r} {s} e = subst (λ r. IsEnd r s) e all

some_inj : {r s : String} → some r ≡ some s → r ≡ s
some_inj e = cc

front-IsEnd : (ps : List Class) (s : String) {r : String} → front ps s ≡ some r → IsEnd r s
unfolding front
front-IsEnd [] s h = IsEnd-eq (cc)
front-IsEnd (p ∷ ps) [] h = cc
front-IsEnd (p ∷ ps) (c ∷ s) h = elim (Bool-cases (accepts p (code c))) [
  | inl e ↦ skip c (front-IsEnd ps s (rw e at h))
  | inr e ↦ absurd (ground arith)
]

front-append :
    (ps : List Class) (s t : String) {r : String}
    → front ps s ≡ some r
    → front ps (s ++ t) ≡ some (r ++ t)
unfolding front
front-append [] s t h = ground arith
front-append (p ∷ ps) [] t h = cc
front-append (p ∷ ps) (c ∷ s) t {r} h = elim (Bool-cases (accepts p (code c))) [
  | inl e ↦ rw (cons-append c s t, front, e) (front-append ps s t (rw e at h))
  | inr e ↦ absurd (ground arith)
]

skip_digits-IsEnd : (s : String) → IsEnd (skip_digits s) s
unfolding skip_digits
skip_digits-IsEnd [] = all
skip_digits-IsEnd (c ∷ s) = elim (Bool-cases (accepts d (code c))) [
  | inl e ↦ rw e (skip c (skip_digits-IsEnd s))
  | inr e ↦ rw e all
]

skip_digits-append : (s : String) → skip_digits (s ++ "Z") ≡ skip_digits s ++ "Z"
unfolding skip_digits accepts
skip_digits-append [] = refl
skip_digits-append (c ∷ s) = rw (cons-append c s "Z") (elim (Bool-cases (accepts d (code c))) [
  | inl e ↦ rw (skip_digits, e) (skip_digits-append s)
  | inr e ↦ rw (skip_digits, e) (sym (cons-append c s "Z"))
])

IsEnd-trans : {q r s : String} → IsEnd q r → IsEnd r s → IsEnd q s
IsEnd-trans e all = e
IsEnd-trans e (skip c f) = skip c (IsEnd-trans e f)

fraction-IsEnd : (s : String) {r : String} → fraction s ≡ some r → IsEnd r s
unfolding fraction
fraction-IsEnd [] h = IsEnd-eq (cc)
fraction-IsEnd (c ∷ s) {r} h = elim (Bool-cases (code c == b'.')) [
  | inl e ↦
      let (rest, p, q) = >>=-eq-some (front (d ∷ []) s) _ (rw e at h) in
      let left : skip_digits rest ≡ r = cc in
      skip c (IsEnd-trans (rw left at (skip_digits-IsEnd rest)) (front-IsEnd (d ∷ []) s p))
  | inr e ↦ let left : c ∷ s ≡ r = some_inj (rw e at h) in IsEnd-eq left
]

fraction-append :
    (s : String) {r : String} → fraction s ≡ some r → fraction (s ++ "Z") ≡ some (r ++ "Z")
unfolding fraction
fraction-append [] h = ap (λ r. some (r ++ "Z")) (some_inj h)
fraction-append (c ∷ s) {r} h =
    rw (cons-append c s "Z", fraction)
      (elim (Bool-cases (code c == b'.')) [
        | inl e ↦
            let (rest, p, q) = >>=-eq-some (front (d ∷ []) s) _ (rw e at h) in
            rw (e, front-append (d ∷ []) s "Z" p)
              (ap some (skip_digits-append rest) ∙ ap (λ r. some (r ++ "Z")) (some_inj q))
        | inr e ↦
            rw e (
              ap some (sym (cons-append c s "Z"))
              ∙ ap (λ r. some (r ++ "Z")) (some_inj (rw e at h)))
      ])

ends_with_z-IsEnd : {r s : String} → IsEnd r s → ends_with_z r ≡ true → ends_with_z s ≡ true
unfolding ends_with_z
ends_with_z-IsEnd all h = h
ends_with_z-IsEnd (skip c e) h = ground (arith, ends_with_z-IsEnd e h)

ends_with_offset-IsEnd :
    {r s : String} → IsEnd r s → ends_with_offset r ≡ true → ends_with_offset s ≡ true
unfolding ends_with_offset
ends_with_offset-IsEnd all h = h
ends_with_offset-IsEnd (skip c e) h = ground (arith, ends_with_offset-IsEnd e h)

ends_with_z-of_is_z : (s : String) → is_z s ≡ true → ends_with_z s ≡ true
unfolding ends_with_z is_z
ends_with_z-of_is_z [] h = cc
ends_with_z-of_is_z (c ∷ s) h = ground arith

ends_with_offset-of_is_offset : (s : String) → is_offset s ≡ true → ends_with_offset s ≡ true
unfolding ends_with_offset is_offset front
ends_with_offset-of_is_offset [] h = h
ends_with_offset-of_is_offset (c ∷ s) h = ground arith

ends_with_z-append : (s : String) → ends_with_z (s ++ "Z") ≡ true
unfolding ends_with_z is_z is_empty
ends_with_z-append [] = refl
ends_with_z-append (c ∷ s) =
    rw (cons-append c s "Z", ends_with_z) (ground (arith, ends_with_z-append s))

pub has_zone-append : (s : String) → has_zone (s ++ "Z") ≡ true
unfolding has_zone
has_zone-append s = ground (arith, ends_with_z-append s)

pub is_blank-append : (s : String) → is_blank (s ++ "Z") ≡ false
unfolding is_blank
is_blank-append [] = refl
is_blank-append (c ∷ s) = rw (cons-append c s "Z", is_blank) (ground (arith, is_blank-append s))

-- A text that the pattern accepts and that has no zone ends with its seconds.
zone_missing :
    (s : String) {rest : String}
    → IsEnd rest s
    → has_zone s ≡ false
    → is_empty rest || is_z rest || is_offset rest ≡ true
    → rest ≡ ""
unfolding has_zone is_empty
zone_missing s {rest = []} e h k = refl
zone_missing s {rest = c ∷ r} e h k = elim (Bool-cases (is_z (c ∷ r))) [
  | inl z ↦ absurd (ground (arith, ends_with_z-IsEnd e (ends_with_z-of_is_z (c ∷ r) z)))
  | inr z ↦
      let o : is_offset (c ∷ r) ≡ true = ground arith in
      absurd (ground (arith, ends_with_offset-IsEnd e (ends_with_offset-of_is_offset (c ∷ r) o)))
]

zone_z : is_empty "Z" || is_z "Z" || is_offset "Z" ≡ true
unfolding is_empty is_z
zone_z = refl

pub is_iso_date-append :
    (s : String) → is_iso_date s ≡ true → has_zone s ≡ false → is_iso_date (s ++ "Z") ≡ true
unfolding is_iso_date
is_iso_date-append s h k = elim (Option-cases (do rest ← front date_time s; fraction rest)) [
  | inl e ↦ absurd (cc)
  | inr (rest, e) ↦
      let (r, p, q) = >>=-eq-some (front date_time s) fraction e in
      let gone =
        zone_missing s (IsEnd-trans (fraction-IsEnd r q) (front-IsEnd date_time s p)) k
          (rw (e, is_iso_date) at h) in
      let read : fraction (r ++ "Z") ≡ some "Z" =
        fraction-append r q ∙ ap (λ (t : String). some (t ++ "Z")) gone in
      rw (front-append date_time s "Z" p, is_iso_date) (rw (read, is_iso_date) zone_z)
]
