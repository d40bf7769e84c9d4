-- ===== src/Socket/Upgrade/Paths.antt =====
-- The paths that `handleUpgrade` takes for a station's.
use voltron_ocpp_protocols.Common.{
  ℕ, suc, ◌+◌, false, ◌≡◌, refl, ap, sym, ◌∙◌, ◌↔◌, String, ◌==◌, nat_eq, string_eq, if◌then◌else◌,
  none, some, List, [], ◌∷◌, ◌++◌, length, length-append, All, eq_iff, arith, inl, inr, Bool-cases,
  Option-cases,
}
use mathlib.Core.Path.{subst}
use voltron_ocpp_protocols.Socket.Upgrade.{non_empty, index_of, last_of, identity_of}

-- The path ends in `ocpp` and the identity, and no other segment before is `ocpp`.
pub record IsStationPath (segments : List String) (identity : String) : Type 0 where
  pub before : List String
  pub ends : segments ≡ before ++ "ocpp" ∷ identity ∷ []
  pub first : index_of "ocpp" before ≡ none

index_of-append :
    (w : String) (xs ys : List String)
    → index_of w xs ≡ none
    → index_of w (xs ++ w ∷ ys) ≡ some (length xs)
unfolding index_of
index_of-append w [] ys h = ground (arith, eq_iff w w)
index_of-append w (x ∷ xs) ys h = ground (arith, eq_iff x w, index_of-append w xs ys)

-- Where `indexOf` finds a segment.
record IsFirst (w : String) (xs : List String) (i : ℕ) : Type 0 where
  before : List String
  after : List String
  parts : xs ≡ before ++ w ∷ after
  place : length before ≡ i
  none_before : index_of w before ≡ none

IsFirst-later :
    (w x : String) (xs : List String) (i : ℕ)
    → (x == w) ≡ false
    → IsFirst w xs i
    → IsFirst w (x ∷ xs) (suc i)
unfolding index_of
IsFirst-later w x xs i d v = record {
  before = x ∷ v.before;
  after = v.after;
  parts = ap (λ ys. x ∷ ys) v.parts;
  place = ap suc v.place;
  none_before = ground (arith, v.none_before);
}

index_of-IsFirst : (w : String) (xs : List String) (i : ℕ) → index_of w xs ≡ some i → IsFirst w xs i
unfolding index_of
index_of-IsFirst w [] i h = cc
index_of-IsFirst w (x ∷ xs) i h = elim (Bool-cases (x == w)) [
  | inl e ↦ record {
    before = [];
    after = xs;
    parts = ap (λ y. y ∷ xs) ((string_eq.same_iff x w).0 e);
    place = ground arith;
    none_before = refl;
  }
  | inr d ↦ elim (Option-cases (index_of w xs)) [
    | inl e ↦ ground arith
    | inr (j, e) ↦
        let i_lem : suc j ≡ i = ground arith in
        subst (IsFirst w (x ∷ xs)) i_lem (IsFirst-later w x xs j d (index_of-IsFirst w xs j e))
  ]
]

last_of-append : (xs : List String) (w v : String) → last_of (xs ++ w ∷ v ∷ []) ≡ v
unfolding last_of
last_of-append [] w v = refl
last_of-append (x ∷ []) w v = refl
last_of-append (x ∷ y ∷ ys) w v = last_of-append (y ∷ ys) w v

-- A list of two ends in its second.
pair_of : (w : String) (after : List String) → length after ≡ 1 → (v : String) × (after ≡ v ∷ [])
pair_of w [] h = ground arith
pair_of w (v ∷ []) h = (v, refl)
pair_of w (v ∷ x ∷ xs) h = ground arith

identity_of-found :
    (segments : List String) (i : ℕ)
    → index_of "ocpp" segments ≡ some i
    → identity_of segments ≡ (if i + 2 == length segments then some (last_of segments) else none)
unfolding identity_of
identity_of-found segments i e = rw (e, identity_of) refl

identity_of-lost :
    (segments : List String) → index_of "ocpp" segments ≡ none → identity_of segments ≡ none
unfolding identity_of
identity_of-lost segments e = rw (e, identity_of) refl

path_of_parts :
    (segments : List String) (identity : String) (i : ℕ)
    → IsFirst "ocpp" segments i
    → i + 2 ≡ length segments
    → last_of segments ≡ identity
    → IsStationPath segments identity
path_of_parts segments identity i v l e =
    let (w, a) =
      pair_of "" v.after
        (omega (arith, ap length v.parts, length-append v.before ("ocpp" ∷ v.after), v.place)) in
    let ends : segments ≡ v.before ++ "ocpp" ∷ w ∷ [] =
      v.parts ∙ ap (λ x. v.before ++ "ocpp" ∷ x) a in
    let named : w ≡ identity = sym (last_of-append v.before "ocpp" w) ∙ sym (ap last_of ends) ∙ e in
    record {
      before = v.before;
      ends = ends ∙ ap (λ x. v.before ++ "ocpp" ∷ x ∷ []) named;
      first = v.none_before;
    }

identity_of-IsStationPath :
    (segments : List String) (identity : String)
    → identity_of segments ≡ some identity
    → IsStationPath segments identity
identity_of-IsStationPath segments identity h = elim (Option-cases (index_of "ocpp" segments)) [
  | inl e ↦ absurd (cc (h, identity_of-lost segments e))
  | inr (i, e) ↦
      let h' = sym (identity_of-found segments i e) ∙ h in
      path_of_parts segments identity i (index_of-IsFirst "ocpp" segments i e) (ground (arith, h'))
        (ground (arith, h'))
]

IsStationPath-identity_of :
    (segments : List String) (identity : String)
    → IsStationPath segments identity
    → identity_of segments ≡ some identity
IsStationPath-identity_of segments identity v = rw v.ends (
    identity_of-found (v.before ++ "ocpp" ∷ identity ∷ []) (length v.before)
      (index_of-append "ocpp" v.before (identity ∷ []) v.first)
    ∙ ground (
      arith,
      length-append v.before ("ocpp" ∷ identity ∷ []),
      last_of-append v.before "ocpp" identity,
    ))

pub identity_of_iff :
    (segments : List String) (identity : String)
    → (identity_of segments ≡ some identity) ↔ IsStationPath segments identity
identity_of_iff segments identity =
    (identity_of-IsStationPath segments identity, IsStationPath-identity_of segments identity)

abbrev IsNamed : String → Type 0
IsNamed w = (w == "") ≡ false

non_empty-IsNamed : (ws : List String) → All IsNamed (non_empty ws)
unfolding non_empty
non_empty-IsNamed [] = tt
non_empty-IsNamed (w ∷ ws) = elim (Bool-cases (w == "")) [
  | inl e ↦ rw e (non_empty-IsNamed ws)
  | inr e ↦ rw e (e, non_empty-IsNamed ws)
]

All-last : (xs : List String) (w v : String) → All IsNamed (xs ++ w ∷ v ∷ []) → IsNamed v
All-last [] w v h = h.1.0
All-last (x ∷ xs) w v h = All-last xs w v h.1

-- The identity of a path of segments that are not empty is not empty.
pub IsStationPath-IsNamed :
    (ws : List String) (identity : String)
    → IsStationPath (non_empty ws) identity
    → (identity == "") ≡ false
IsStationPath-IsNamed ws identity v =
    All-last v.before "ocpp" identity (subst (All IsNamed) v.ends (non_empty-IsNamed ws))
