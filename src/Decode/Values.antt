-- ===== src/Decode/Values.antt =====
-- The JavaScript values that decode.js takes apart.
use io_t_billing_service.Base.{Bool, Option, none, some, List, [], ◌∷◌, Text, ℤ}
use io_t_billing_service.Js.{decimal_ℤ}

-- A Number: an integer of magnitude below 10 ^ 21, or any other one by the text that String()
-- gives of it.
pub data Number : Type 0 where
  int : ℤ → Number
  non_int : Text → Number

unfoldable pub number_text : Number → Text
number_text (int z) = decimal_ℤ z
number_text (non_int t) = t

-- BigInt(n) of a Number; `none` is a RangeError.
abbrev pub bigint_of_number : Number → Option ℤ
bigint_of_number (int z) = some z
bigint_of_number (non_int t) = none

-- What scValToNative gives. An object is known by its String().
pub data Native : Type 0 where
  text_value : Text → Native
  bigint : ℤ → Native
  number : Number → Native
  boolean : Bool → Native
  null_value : Native
  object : Text → Native

-- `X` is the SDK's type of XDR values. `falsy` is null, undefined and the other falsy values. A
-- plain object has its `type`, if that is a string, and its `value`. Arrays and other objects
-- carry the text that String() gives of them.
mutual
  pub data ScVal (X : Type 0) : Type 0 where
    falsy : ScVal X
    xdr : X → ScVal X
    plain : Option Text → Field X → ScVal X

  pub data Field (X : Type 0) : Type 0 where
    undefined : Field X
    null : Field X
    str : Text → Field X
    num : Number → Field X
    big : ℤ → Field X
    array : Text → ScVals X → Field X
    other : Text → Field X

  pub data ScVals (X : Type 0) : Type 0 where
    nil : ScVals X
    cons : ScVal X → ScVals X → ScVals X

abbrev pub elements : {X : Type 0} → ScVals X → List (ScVal X)
elements nil = []
elements (cons v vs) = v ∷ elements vs

-- What decode.js calls of the SDK: scValToNative, where `none` is an exception, the test
-- `val.switch().name === 'scvVec'`, and `val.vec() ?? []`.
pub record Sdk (X : Type 0) : Type 0 where
  pub to_native : X → Option Native
  pub is_vec : X → Bool
  pub vec : X → List X
