-- ===== src/Calculator/Calls.antt =====
-- A call of the calculator of src/service/calculator_service.cpp through the server.
use my_mprpc.Prelude.{◌≡◌, refl, ◌∙◌, some, [], Bytes, codes, bytes_eq}
use my_mprpc.Prelude.Result.{ok}
use my_mprpc.Prelude.Int.{ℤ, pos, int32_lem, InInt32, ◌+ℤ◌, ◌-ℤ◌, ◌*ℤ◌}
use my_mprpc.Core.Protocol.{MessageClass, MessageLaws}
use my_mprpc.Core.Server.{register_service, call_service_method, run_method}
use my_mprpc.Calculator.{
  Operands, add, sub, mul, Doubles, CalculatorClasses, on_bytes, find_calculator_method,
  calculator_service,
}

-- The methods on integers.
pub data Operation : Type 0 where
  addition subtraction multiplication : Operation

abbrev pub method_of : Operation → Bytes
method_of addition = codes "Add"
method_of subtraction = codes "Sub"
method_of multiplication = codes "Mul"

-- What a method should compute.
abbrev pub exact : Operation → ℤ → ℤ → ℤ
exact addition a b = a +ℤ b
exact subtraction a b = a -ℤ b
exact multiplication a b = a *ℤ b

abbrev pub computed : Operation → Operands → ℤ
computed addition request = add request
computed subtraction request = sub request
computed multiplication request = mul request

computed-exact :
    (o : Operation) (a b : ℤ)
    → InInt32 (exact o a b)
    → computed o (record { a = a; b = b }) ≡ exact o a b
unfolding add sub mul
computed-exact addition a b h = int32_lem (a +ℤ b) h
computed-exact subtraction a b h = int32_lem (a -ℤ b) h
computed-exact multiplication a b h = int32_lem (a *ℤ b) h

module _ {D : Type 0} (classes : CalculatorClasses D) where
  abbrev pub requests_of : Operation → MessageClass Operands
  requests_of addition = classes.add_request
  requests_of subtraction = classes.sub_request
  requests_of multiplication = classes.multi_request

  abbrev pub responses_of : Operation → MessageClass ℤ
  responses_of addition = classes.add_response
  responses_of subtraction = classes.sub_response
  responses_of multiplication = classes.multi_response

  found_method :
      (doubles : Doubles D) (o : Operation)
      → find_calculator_method doubles classes (method_of o)
        ≡ some (on_bytes (requests_of o) (responses_of o) (computed o))
  unfolding find_calculator_method
  found_method doubles addition = refl
  found_method doubles subtraction = refl
  found_method doubles multiplication = refl

  called :
      (doubles : Doubles D) (o : Operation) (bytes : Bytes)
      → call_service_method
          (register_service (calculator_service doubles classes) [])
          (codes "CalculatorService")
          (method_of o)
          bytes
        ≡ run_method (on_bytes (requests_of o) (responses_of o) (computed o) bytes)
  unfolding call_service_method register_service calculator_service
  called doubles o bytes = rw (found_method doubles o) refl

  answered :
      (o : Operation) (bytes answer : Bytes) (request : Operands) (result : ℤ)
      → (requests_of o).parse_from_array bytes ≡ some request
      → computed o request ≡ result
      → (responses_of o).serialize_to_string result ≡ some answer
      → run_method (on_bytes (requests_of o) (responses_of o) (computed o) bytes) ≡ ok answer
  unfolding run_method on_bytes
  answered o bytes answer request result p c w = rw (p, c, w) refl

  -- A server with the calculator answers the bytes of a request of Add, Sub or Mul with the bytes of
  -- a response that protobuf reads as the sum, the difference or the product, when this is an int.
  pub call_service_method-exact :
      (doubles : Doubles D) (o : Operation) (a b : ℤ)
      (requests : MessageLaws (requests_of o) (record { a = pos 0; b = pos 0 }))
      (responses : MessageLaws (responses_of o) (pos 0))
      → requests.IsValid (record { a = a; b = b })
      → responses.IsValid (exact o a b)
      → InInt32 (exact o a b)
      → (bytes : Bytes) × (answer : Bytes) × ((requests_of o).serialize_to_string
            (record { a = a; b = b })
          ≡ some bytes)
        × (call_service_method
              (register_service (calculator_service doubles classes) [])
              (codes "CalculatorService")
              (method_of o)
              bytes
            ≡ ok answer)
        × ((responses_of o).parse_from_array answer ≡ some (exact o a b))
  call_service_method-exact doubles o a b requests responses v w h =
      let (bytes, e, p) = requests.written (record { a = a; b = b }) v in
      let (answer, f, q) = responses.written (exact o a b) w in
      (
        bytes,
        answer,
        e,
        called doubles o bytes
            ∙ answered o bytes answer (record { a = a; b = b }) (exact o a b) p
                (computed-exact o a b h) f,
        q,
      )
