-- ===== src/Tests/Calculator.antt =====
-- The calculator of src/service/calculator_service.cpp, over messages that write a number as two.
use my_mprpc.Prelude.{ℕ, zero, suc, ◌≡◌, refl, Option, none, some, [], ◌∷◌, Bytes, codes, arith}
use my_mprpc.Prelude.Result.{ok}
use my_mprpc.Prelude.Int.{ℤ, pos, negsuc, ◌*ℤ◌}
use my_mprpc.Core.Protocol.{MessageClass, MessageLaws}
use my_mprpc.Core.Server.{register_service, call_service_method}
use my_mprpc.Calculator.{Operands, Doubles, CalculatorClasses, calculator_service}
use my_mprpc.Calculator.Calls.{multiplication, call_service_method-exact}

abbrev write_number : ℤ → Bytes → Bytes
write_number (pos n) rest = 0 ∷ n ∷ rest
write_number (negsuc n) rest = 1 ∷ n ∷ rest

-- A tag of 0 stands for pos, one of 1 for negsuc.
abbrev read_number : ℕ → ℕ → ℤ
read_number zero n = pos n
read_number (suc tag) n = negsuc n

abbrev read_operands : Bytes → Option Operands
read_operands (tag ∷ m ∷ tag' ∷ n ∷ []) =
    some (record { a = read_number tag m; b = read_number tag' n })
read_operands _ = none

abbrev read_result : Bytes → Option ℤ
read_result (tag ∷ n ∷ []) = some (read_number tag n)
read_result _ = none

abbrev operands : MessageClass Operands
operands = record {
  serialize_to_string = λ r. some (write_number r.a (write_number r.b []));
  parse_from_array = read_operands;
}

abbrev results : MessageClass ℤ
results = record {
  serialize_to_string = λ n. some (write_number n []);
  parse_from_array = read_result;
}

written_operands :
    (a b : ℤ) → read_operands (write_number a (write_number b [])) ≡ some (record { a = a; b = b })
written_operands (pos m) (pos n) = refl
written_operands (pos m) (negsuc n) = refl
written_operands (negsuc m) (pos n) = refl
written_operands (negsuc m) (negsuc n) = refl

written_result : (n : ℤ) → read_result (write_number n []) ≡ some n
written_result (pos n) = refl
written_result (negsuc n) = refl

abbrev zeros : Operands
zeros = record { a = pos 0; b = pos 0 }

never_empty : {A : Type 0} (n : ℤ) (rest : Bytes) → some (write_number n rest) ≡ some [] → A
never_empty (pos n) rest e = absurd (cc e)
never_empty (negsuc n) rest e = absurd (cc e)

operand_laws : MessageLaws operands zeros
operand_laws = record {
  IsValid = λ p. Unit;
  written = λ p v. (write_number p.a (write_number p.b []), refl, written_operands p.a p.b);
  written_empty = λ p e. never_empty p.a (write_number p.b []) e;
}

result_laws : MessageLaws results (pos 0)
result_laws = record {
  IsValid = λ p. Unit;
  written = λ p v. (write_number p [], refl, written_result p);
  written_empty = λ p e. never_empty p [] e;
}

-- Doubles that forget their value.
abbrev doubles : Doubles (Unit {0})
doubles = record { to_double = λ n. tt; divide = λ x y. tt; minus_one = tt }

abbrev quotients : MessageClass (Unit {0})
quotients = record { serialize_to_string = λ d. some []; parse_from_array = λ bytes. some tt }

abbrev classes : CalculatorClasses (Unit {0})
classes = record {
  add_request = operands;
  add_response = results;
  sub_request = operands;
  sub_response = results;
  multi_request = operands;
  multi_response = results;
  divide_request = operands;
  divide_response = quotients;
  zero_double = tt;
}

call_service_method-exact_example :
    (bytes : Bytes) × (answer : Bytes) × (operands.serialize_to_string
        (record { a = pos 6; b = negsuc 6 })
      ≡ some bytes)
    × (call_service_method
          (register_service (calculator_service doubles classes) [])
          (codes "CalculatorService")
          (codes "Mul")
          bytes
        ≡ ok answer)
    × (results.parse_from_array answer ≡ some (pos 6 *ℤ negsuc 6))
call_service_method-exact_example =
    call_service_method-exact classes doubles multiplication (pos 6) (negsuc 6) operand_laws
      result_laws (unfold operand_laws in tt) (unfold result_laws in tt)
      (unfold ◌*ℤ◌ in omega arith)
