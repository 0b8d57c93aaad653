-- ===== src/Prelude/Parse.antt =====
-- std::stoi and std::stoull; `none` stands for the exceptions that they throw.
use Prim.Native.Nat.{ℕ, ◌+◌, ◌-◌, ◌%◌, ◌^◌, ◌≤◌, ◌<◌}
use mathlib.Core.Path.{◌≡◌, ap, ◌∙◌}
use mathlib.Core.Bool.{Bool, ◌&&◌, ◌||◌}
use mathlib.Core.List.{[], ◌∷◌}
use mathlib.Core.Option
use mathlib.Core.Option.{Option, none, some}
use native.Mathlib.Omega.{arith}
use my_mprpc.Prelude.Tests.{leb, ◌==◌, if◌then◌else◌}
use my_mprpc.Prelude.Lists.{All, length}
use my_mprpc.Prelude.Equality.{Bytes}
use my_mprpc.Prelude.Int.{ℤ, pos, negsuc, sub_ℕ, InInt32}
use my_mprpc.Prelude.Decimal.{
  read_digits, is_digit, IsDigit, to_string, read_digits-to_string, to_string-IsDigit,
  to_string_nonempty,
}

abbrev pub is_space : ℕ → Bool
is_space c = c == 32 || leb 9 c && leb c 13

abbrev pub skip_spaces : Bytes → Bytes
skip_spaces [] = []
skip_spaces (c ∷ s) = let rest = skip_spaces s in if is_space c then rest else c ∷ s

-- At least one digit, and no more than the bound.
abbrev pub magnitude : ℕ → Bytes → Option ℕ
magnitude bound [] = none
magnitude bound (c ∷ s) =
    let n = read_digits 0 (c ∷ s) in if is_digit c && leb n bound then some n else none

abbrev pub signed {ℓ} : {A : Type ℓ} → (Bytes → Option A) → (Bytes → Option A) → Bytes → Option A
signed minus plus [] = none
signed minus plus (c ∷ s) =
    if c == b'-' then minus s else if c == b'+' then plus s else plus (c ∷ s)

-- -2147483648 to 2147483647
unfoldable pub stoi : Bytes → Option ℤ
unfolding read_digits
stoi s =
    signed (λ t. Option.map (sub_ℕ 0) (magnitude 2147483648 t))
      (λ t. Option.map pos (magnitude 2147483647 t)) (skip_spaces s)

-- A minus sign negates the result in 64 bits.
unfoldable pub stoull : Bytes → Option ℕ
unfolding read_digits
stoull s =
    let bound = 2 ^ 64 - 1 in
    signed (λ t. Option.map (λ n. (2 ^ 64 - n) % 2 ^ 64) (magnitude bound t)) (magnitude bound)
      (skip_spaces s)

-- std::to_string of an int.
unfoldable pub to_string_int : ℤ → Bytes
unfolding to_string
to_string_int (pos n) = to_string n
to_string_int (negsuc n) = b'-' ∷ to_string (n + 1)

-- A string of digits that spells a number.
Spells : ℕ → Bytes → Type 0
Spells n s = (0 < length s) × All IsDigit s × (read_digits 0 s ≡ n)

to_string-Spells : (n : ℕ) → Spells n (to_string n)
unfolding Spells
to_string-Spells n = (to_string_nonempty n, to_string-IsDigit n, read_digits-to_string n)

magnitude-Spells : (bound n : ℕ) (s : Bytes) → Spells n s → n ≤ bound → magnitude bound s ≡ some n
unfolding Spells
magnitude-Spells bound n [] (l, d, e) h = absurd (omega arith)
magnitude-Spells bound n (c ∷ s) (l, (d, ds), e) h = ground (arith, e, d)

signed-Spells {ℓ} :
    {A : Type ℓ} (minus plus : Bytes → Option A) (n : ℕ) (s : Bytes)
    → Spells n s
    → signed minus plus (skip_spaces s) ≡ plus s
unfolding Spells
signed-Spells minus plus n [] (l, d, e) = absurd (omega arith)
signed-Spells minus plus n (c ∷ s) (l, (d, ds), e) = ground (arith, d)

pub stoull-to_string : (n : ℕ) → n < 2 ^ 64 → stoull (to_string n) ≡ some n
unfolding stoull
stoull-to_string n h =
    signed-Spells (λ t. Option.map (λ n. (2 ^ 64 - n) % 2 ^ 64) (magnitude (2 ^ 64 - 1) t))
      (magnitude (2 ^ 64 - 1)) n (to_string n) (to_string-Spells n)
    ∙ magnitude-Spells (2 ^ 64 - 1) n (to_string n) (to_string-Spells n) (omega arith)

abbrev minus_int : Bytes → Option ℤ
minus_int t = Option.map (sub_ℕ 0) (magnitude 2147483648 t)

abbrev plus_int : Bytes → Option ℤ
plus_int t = Option.map pos (magnitude 2147483647 t)

pub stoi-to_string_int : (n : ℤ) → InInt32 n → stoi (to_string_int n) ≡ some n
unfolding stoi to_string_int
stoi-to_string_int (pos n) h =
    signed-Spells minus_int plus_int n (to_string n) (to_string-Spells n)
    ∙ ap (Option.map pos)
        (magnitude-Spells 2147483647 n (to_string n) (to_string-Spells n) (omega arith))
stoi-to_string_int (negsuc n) h =
    ap (Option.map (sub_ℕ 0)) (
      magnitude-Spells 2147483648 (n + 1) (to_string (n + 1)) (to_string-Spells (n + 1))
        (omega arith))
    ∙ ap some (ground arith)
