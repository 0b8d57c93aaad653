-- ===== src/Prelude/Decimal.antt =====
-- std::to_string of unsigned integers, and the digits that std::stoi and std::stoull read.
use Prim.Native.Nat.{ℕ, zero, suc, ◌+◌, ◌-◌, ◌*◌, ◌/◌, ◌%◌, ◌≤◌, ◌<◌}
use mathlib.Core.Path.{◌≡◌, refl, ◌∙◌}
use mathlib.Core.Logic.{inl, inr}
use mathlib.Core.Bool.{Bool, ◌&&◌}
use mathlib.Core.List.{[], ◌∷◌, ◌++◌}
use native.Mathlib.Omega.{arith}
use my_mprpc.Prelude.Tests.{ltb, leb, if◌then◌else◌, Bool-cases}
use my_mprpc.Prelude.Lists.{length, length-append, All, All-append}
use my_mprpc.Prelude.Equality.{Bytes}

-- A number has fewer digits than its successor, which is fuel enough.
unfoldable pub digits : ℕ → ℕ → Bytes
digits zero n = []
digits (suc fuel) n =
    let front = digits fuel (n / 10) ++ (b'0' + n % 10) ∷ [] in
    if ltb n 10 then (b'0' + n) ∷ [] else front

unfoldable pub to_string : ℕ → Bytes
unfolding digits
to_string n = digits (suc n) n

abbrev pub is_digit : ℕ → Bool
is_digit c = leb b'0' c && leb c b'9'

abbrev pub IsDigit : ℕ → Type 0
IsDigit c = (b'0' ≤ c) × (c ≤ b'9')

-- The number that the digits at the front spell behind `n`.
unfoldable pub read_digits : ℕ → Bytes → ℕ
read_digits n [] = n
read_digits n (c ∷ s) =
    let rest = read_digits (n * 10 + (c - b'0')) s in if is_digit c then rest else n

digits-IsDigit : (fuel n : ℕ) → All IsDigit (digits fuel n)
unfolding digits
digits-IsDigit zero n = tt
digits-IsDigit (suc fuel) n = ground (
  arith,
  All-append IsDigit (digits fuel (n / 10)) ((b'0' + n % 10) ∷ []) (digits-IsDigit fuel (n / 10))
      (omega arith),
)

pub to_string_nonempty : (n : ℕ) → 0 < length (to_string n)
unfolding to_string digits
to_string_nonempty n = ground (arith, length-append (digits n (n / 10)) ((b'0' + n % 10) ∷ []))

pub to_string-IsDigit : (n : ℕ) → All IsDigit (to_string n)
unfolding to_string
to_string-IsDigit n = digits-IsDigit (suc n) n

read_digits-append :
    (n : ℕ) (s t : Bytes) → All IsDigit s → read_digits n (s ++ t) ≡ read_digits (read_digits n s) t
unfolding read_digits
read_digits-append n [] t h = refl
read_digits-append n (c ∷ s) t (hc, h) =
    ground (arith, read_digits-append (n * 10 + (c - b'0')) s t h)

read_digits_last : (n d : ℕ) → d < 10 → read_digits n ((b'0' + d) ∷ []) ≡ n * 10 + d
unfolding read_digits
read_digits_last n d h = ground arith

read_digits-digits : (fuel n : ℕ) → n < fuel → read_digits 0 (digits fuel n) ≡ n
unfolding digits
read_digits-digits zero n h = absurd (omega arith)
read_digits-digits (suc fuel) n h = elim (Bool-cases (ltb n 10)) [
  | inl low ↦ rw low (read_digits_last 0 n (ground arith) ∙ omega arith)
  | inr high ↦ rw high (
      read_digits-append 0 (digits fuel (n / 10)) ((b'0' + n % 10) ∷ [])
        (digits-IsDigit fuel (n / 10))
      ∙ read_digits_last (read_digits 0 (digits fuel (n / 10))) (n % 10) (omega arith)
      ∙ omega (arith, read_digits-digits fuel (n / 10) (ground arith)))
]

-- Reading what was printed gives the number back.
pub read_digits-to_string : (n : ℕ) → read_digits 0 (to_string n) ≡ n
unfolding to_string
read_digits-to_string n = read_digits-digits (suc n) n (omega arith)

to_string_8080 : to_string 8080 ≡ 56 ∷ 48 ∷ 56 ∷ 48 ∷ []
unfolding to_string
to_string_8080 = refl
