-- ===== src/Calculator.antt =====
-- src/service/calculator_service.cpp: the service of the demos, over the message classes that
-- protobuf generates. A result that is no int, which C++
-- does not define, wraps around here; a double and what C++ computes with it are parameters.
pub mod Calls
use my_mprpc.Prelude.{
  ◌≡◌, refl, zero, suc, Bool, true, false, Option, none, some, Bytes, codes, if◌then◌else◌,
  bytes_eq,
}
use my_mprpc.Prelude.Int.{ℤ, pos, negsuc, int32, ◌+ℤ◌, ◌-ℤ◌, ◌*ℤ◌}
use my_mprpc.Core.Protocol.{MessageClass}
use my_mprpc.Core.Server.{MethodResult, unparsed, returned, Service}

-- AddRequest, SubRequest, MultiRequest and DivideRequest
pub record Operands : Type 0 where
  pub a : ℤ
  pub b : ℤ

unfoldable pub add : Operands → ℤ
add request = int32 (request.a +ℤ request.b)

unfoldable pub sub : Operands → ℤ
sub request = int32 (request.a -ℤ request.b)

unfoldable pub mul : Operands → ℤ
mul request = int32 (request.a *ℤ request.b)

abbrev pub is_zero : ℤ → Bool
is_zero (pos zero) = true
is_zero (pos (suc n)) = false
is_zero (negsuc n) = false

-- static_cast<double>, the division, and -1.0
pub record Doubles (D : Type 0) : Type 0 where
  pub to_double : ℤ → D
  pub divide : D → D → D
  pub minus_one : D

-- The values that set_result is called with, the last of which stays.
module _ {D : Type 0} (doubles : Doubles D) where
  abbrev pub set_result : D → D → D
  set_result old result = result

  unfoldable pub div : Operands → D → D
  div request response =
      let response' =
        if is_zero request.b then set_result response doubles.minus_one else response in
      set_result response'
        (doubles.divide (doubles.to_double request.a) (doubles.to_double request.b))

-- The classes of the requests and the responses; a new response has a result of 0.
pub record CalculatorClasses (D : Type 0) : Type 0 where
  pub add_request : MessageClass Operands
  pub add_response : MessageClass ℤ
  pub sub_request : MessageClass Operands
  pub sub_response : MessageClass ℤ
  pub multi_request : MessageClass Operands
  pub multi_response : MessageClass ℤ
  pub divide_request : MessageClass Operands
  pub divide_response : MessageClass D
  pub zero_double : D

abbrev pub answer_parsed : {Q R : Type 0} → MessageClass R → (Q → R) → Option Q → MethodResult
answer_parsed responses f none = unparsed
answer_parsed responses f (some request) = returned (responses.serialize_to_string (f request))

-- A method on the bytes of its request.
unfoldable pub on_bytes :
    {Q R : Type 0} → MessageClass Q → MessageClass R → (Q → R) → Bytes → MethodResult
on_bytes requests responses f bytes = answer_parsed responses f (requests.parse_from_array bytes)

module _ {D : Type 0} (doubles : Doubles D) (classes : CalculatorClasses D) where
  -- FindMethodByName, and the method
  unfoldable pub find_calculator_method : Bytes → Option (Bytes → MethodResult)
  find_calculator_method name =
      if bytes_eq.beq name (codes "Add")
      then some (on_bytes classes.add_request classes.add_response add)
      else if bytes_eq.beq name (codes "Sub")
      then some (on_bytes classes.sub_request classes.sub_response sub)
      else if bytes_eq.beq name (codes "Mul")
      then some (on_bytes classes.multi_request classes.multi_response mul)
      else if bytes_eq.beq name (codes "Div")
      then some (
          on_bytes classes.divide_request classes.divide_response
            (λ request. div doubles request classes.zero_double))
      else none

  unfoldable pub calculator_service : Service
  unfolding find_calculator_method
  calculator_service = record {
    name = codes "CalculatorService";
    find_method = find_calculator_method;
  }
