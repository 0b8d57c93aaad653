-- ===== src/Prelude/Memory.antt =====
-- Arrays of bytes in memory: a range that is read, and a write that stays within the array.
use Prim.Native.Nat.{ℕ, ◌+◌, ◌-◌, ◌≤◌}
use mathlib.Core.Path.{◌≡◌, sym, ap, ◌∙◌}
use mathlib.Core.List.{List, [], ◌++◌, append_assoc}
use mathlib.Core.Option.{Option, none, some}
use native.Mathlib.Omega.{arith}
use my_mprpc.Prelude.Tests.{leb, if◌then◌else◌}
use my_mprpc.Prelude.Lists.{
  length, take, drop, length-append, length-take, length-drop, take-append-drop, take-length-append,
  drop-length-append, drop-append_of_le, drop_all, take-append-add, take-drop, take-take_of_le,
}

module _ {ℓ} {A : Type ℓ} where
  -- The elements from index `i` up to index `j`.
  abbrev pub slice : ℕ → ℕ → List A → List A
  slice i j xs = drop i (take j xs)

  -- memcpy into an array at an index; `none` if it would write past the end.
  abbrev pub write_at : ℕ → List A → List A → Option (List A)
  write_at i d xs =
      if leb (i + length d) (length xs)
      then some (take i xs ++ (d ++ drop (i + length d) xs))
      else none

  pub length-slice : (i j : ℕ) (xs : List A) → j ≤ length xs → length (slice i j xs) ≡ j - i
  length-slice i j xs h = omega (arith, length-drop i (take j xs), length-take j xs)

  pub slice_empty : (i j : ℕ) (xs : List A) → j ≤ i → slice i j xs ≡ []
  slice_empty i j xs h = drop_all i (take j xs) (omega (arith, length-take j xs))

  pub slice-append :
      (i j k : ℕ) (xs : List A)
      → i ≤ j
      → j ≤ k
      → k ≤ length xs
      → slice i j xs ++ slice j k xs ≡ slice i k xs
  slice-append i j k xs h g l =
      sym (drop-append_of_le i (take j xs) (drop j (take k xs)) (omega (arith, length-take j xs)))
      ∙ ap (λ ys. drop i (ys ++ drop j (take k xs))) (sym (take-take_of_le j k xs g))
      ∙ ap (drop i) (take-append-drop j (take k xs))

  pub length-write :
      (i : ℕ) (d xs : List A)
      → i + length d ≤ length xs
      → length (take i xs ++ (d ++ drop (i + length d) xs)) ≡ length xs
  length-write i d xs h = omega (
    arith,
    length-append (take i xs) (d ++ drop (i + length d) xs),
    length-append d (drop (i + length d) xs),
    length-take i xs,
    length-drop (i + length d) xs,
  )

  -- A write right behind a range extends the range.
  pub slice-write_after :
      (i j : ℕ) (d xs : List A)
      → i ≤ j
      → j + length d ≤ length xs
      → slice i (j + length d) (take j xs ++ (d ++ drop (j + length d) xs)) ≡ slice i j xs ++ d
  slice-write_after i j d xs h g =
      ap (drop i) (
        ap (take (j + length d)) (sym (append_assoc (take j xs) d (drop (j + length d) xs)))
        ∙ take-length-append (take j xs ++ d) (drop (j + length d) xs) (j + length d)
            (omega (arith, length-append (take j xs) d, length-take j xs)))
      ∙ drop-append_of_le i (take j xs) d (omega (arith, length-take j xs))

  -- A write right in front of a range extends it too.
  pub slice-write_before :
      (i j : ℕ) (d xs : List A)
      → i + length d ≤ j
      → j ≤ length xs
      → slice i j (take i xs ++ (d ++ drop (i + length d) xs)) ≡ d ++ slice (i + length d) j xs
  slice-write_before i j d xs h g =
      ap (drop i) (
        take-append-add (take i xs) (d ++ drop (i + length d) xs) (j - i) j
          (omega (arith, length-take i xs)))
      ∙ drop-length-append (take i xs) (take (j - i) (d ++ drop (i + length d) xs)) i
          (omega (arith, length-take i xs))
      ∙ take-append-add d (drop (i + length d) xs) (j - (i + length d)) (j - i) (omega arith)
      ∙ ap (◌++◌ d) (
          take-drop (j - (i + length d)) (i + length d) xs
          ∙ ap (λ k. drop (i + length d) (take k xs)) (omega arith))
