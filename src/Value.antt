-- ===== src/Value.antt =====
-- The values of JavaScript that reach the storage layer, as data.
use jumpgate_bridge.Prelude.{
  ℕ, ◌^◌, ◌-◌, ◌==◌, list_eq, nat_eq, Bool, Option, none, some, leb, if◌then◌else◌,
}
use jumpgate_bridge.Prelude.Text.{Text}

-- A double, as far as the program tells doubles apart: a natural number, a natural number and a
-- proper fraction (its digits are kept), a number below zero, or no finite number.
pub data Number : Type 0 where
  natural : ℕ → Number
  fraction : ℕ → ℕ → Number
  negative infinite not_a_number : Number

-- `other` is a function, a symbol, a bigint, a proxy, or an object that is not a plain object of
-- enumerable data properties.
mutual
  pub data Value : Type 0 where
    undefined null other : Value
    boolean : Bool → Value
    number : Number → Value
    string : Text → Value
    array : Items → Value
    object : Fields → Value

  pub data Items : Type 0 where
    end : Items
    item : Value → Items → Items

  pub data Fields : Type 0 where
    empty : Fields
    field : Text → Value → Fields → Fields

-- object[key]
unfoldable pub property : Fields → Text → Value
property empty k = undefined
property (field j v fs) k = if j == k then v else property fs k

-- Number.MAX_SAFE_INTEGER
abbrev pub max_safe_integer : ℕ
max_safe_integer = 2 ^ 53 - 1

-- Number.isSafeInteger(value) && value >= 0
unfoldable pub safe_natural : Value → Option ℕ
safe_natural (number (natural n)) = if leb n max_safe_integer then some n else none
safe_natural _ = none
