-- ===== src/Json.antt =====
-- The values of `JSON.parse`, as the program of src/modules/ocpp/ inspects them. A number is told apart
-- by what the code can observe of it: equality, `NaN`, being an integer, and its text. `-0` is `nat 0`,
-- which `===` and a `Map` do not tell from it. `undefined` is `none` of `Option Value`.
use voltron_ocpp_protocols.Common.{
  ℕ, zero, suc, ◌+◌, ◌/◌, ◌%◌, ◌≡◌, refl, ◌↔◌, Bool, true, false, String, Eq, ◌==◌, nat_eq,
  string_eq, if◌then◌else◌, ltb, Option, none, some, List, [], ◌∷◌, arith, eq_iff,
}
use Prim.Native.String

-- `negative n` is -(n + 1); a `fraction` is a finite number that is no integer, by its text.
pub data Number : Type 0 where
  nat negative : ℕ → Number
  fraction : String → Number
  infinity minus_infinity nan : Number

-- A `Map`'s comparison of keys. `===` differs at `NaN` alone, which the code compares with no `NaN`.
abbrev number_beq : Number → Number → Bool
number_beq (nat a) (nat b) = a == b
number_beq (negative a) (negative b) = a == b
number_beq (fraction a) (fraction b) = a == b
number_beq infinity infinity = true
number_beq minus_infinity minus_infinity = true
number_beq nan nan = true
number_beq _ _ = false

pub number_beq_iff : (a b : Number) → (number_beq a b ≡ true) ↔ (a ≡ b)
number_beq_iff (nat a) (nat b) = ground arith
number_beq_iff (fraction a) (fraction b) = ground (arith, eq_iff a b)
number_beq_iff _ _ = ground arith

instance abbrev pub number_eq : Eq Number
number_eq = record { same = number_beq; same_iff = number_beq_iff }

mutual
  pub data Value : Type 0 where
    null : Value
    bool : Bool → Value
    num : Number → Value
    str : String → Value
    arr : Items → Value
    obj : Fields → Value

  -- The members of an object, in order.
  pub data Fields : Type 0 where
    field : String → Value → Fields → Fields
    no_fields : Fields

  -- The elements of an array.
  pub data Items : Type 0 where
    item : Value → Items → Items
    no_items : Items

unfoldable pub items : Items → List Value
items no_items = []
items (item v vs) = v ∷ items vs

-- `data[name]` on the own fields of an object.
unfoldable pub entry : Fields → String → Option Value
entry no_fields name = none
entry (field key v rest) name = if key == name then some v else entry rest name

-- `data.name`, for a name that is no property of `Object.prototype` or `Array.prototype`: an array has
-- no such entry.
unfoldable pub member : Value → String → Option Value
member (obj fields) name = entry fields name
member _ name = none

abbrev digit : ℕ → String
digit n =
    if n == 0
    then "0"
    else if n == 1
    then "1"
    else if n == 2
    then "2"
    else if n == 3
    then "3"
    else if n == 4
    then "4"
    else if n == 5
    then "5"
    else if n == 6
    then "6"
    else if n == 7
    then "7"
    else if n == 8
    then "8"
    else "9"

-- The decimal digits of a number below `10 ^ fuel`.
decimal_fuel : ℕ → ℕ → String
decimal_fuel zero n = ""
decimal_fuel (suc f) n =
    let rest = decimal_fuel f (n / 10) in
    if ltb n 10 then digit n else String.◌++◌ rest (digit (n % 10))

-- `${n}`
unfoldable pub decimal : ℕ → String
unfolding decimal_fuel
decimal n = decimal_fuel (n + 1) n

-- `${number}`, below 10^21, from where JavaScript writes an exponent.
unfoldable pub number_text : Number → String
number_text (nat n) = decimal n
number_text (negative n) = String.◌++◌ "-" (decimal (n + 1))
number_text (fraction t) = t
number_text infinity = "Infinity"
number_text minus_infinity = "-Infinity"
number_text nan = "NaN"

decimal_test : decimal 1200 ≡ "1200"
unfolding decimal
decimal_test = refl
