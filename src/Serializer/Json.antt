-- ===== src/Serializer/Json.antt =====
-- What the JSON serializer of src/serializer/json_serializer.cpp makes of its own text.
use my_mprpc.Prelude.{
  ℕ, ◌+◌, ◌≡◌, refl, sym, ap, ◌∙◌, Bool, true, false, [], ◌∷◌, ◌++◌, Bytes, codes, if◌then◌else◌,
  ◌==◌, arith, append_assoc, drop, Bool-cases, inl, inr,
}
use my_mprpc.Serializer.{
  MessageOperations, starts_with, contains, count_byte, type_key, data_key, is_valid_json,
  message_to_json, json_to_message, json_serialize, json_deserialize,
}

starts_with-append : (part rest : Bytes) → starts_with part (part ++ rest) ≡ true
starts_with-append [] rest = refl
starts_with-append (c ∷ part) rest =
    let same : (c == c) ≡ true = ground arith in rw (same, starts_with-append part rest) refl

contains-append : (before part rest : Bytes) → contains part (before ++ (part ++ rest)) ≡ true
contains-append [] part rest = at_front part rest
  where
    at_front : (part rest : Bytes) → contains part (part ++ rest) ≡ true
    at_front [] [] = refl
    at_front [] (c ∷ rest) = refl
    at_front (c ∷ part) rest = rw (starts_with-append (c ∷ part) rest) refl
contains-append (c ∷ before) part rest =
    elim (Bool-cases (starts_with part (c ∷ before ++ (part ++ rest)))) [
      | inl h ↦ rw h refl
      | inr h ↦ rw (h, contains-append before part rest) refl
    ]

count_byte-append :
    (c : ℕ) (xs ys : Bytes) → count_byte c (xs ++ ys) ≡ count_byte c xs + count_byte c ys
count_byte-append c [] ys = omega arith
count_byte-append c (x ∷ xs) ys = omega (arith, count_byte-append c xs ys)

or_later : (b : Bool) {x : Bool} → x ≡ true → (if b then true else x) ≡ true
or_later true h = refl
or_later false h = h

same_test : (n k : ℕ) → (if 1 + n == 1 + k then true else false) ≡ (n == k)
same_test n k = ground arith

-- A text with one more brace on each side than counted.
is_valid_json_lem :
    (c : ℕ) (text : Bytes) (n k : ℕ)
    → count_byte b'{' (c ∷ text) ≡ 1 + n
    → count_byte b'}' (c ∷ text) ≡ 1 + k
    → contains type_key (c ∷ text) ≡ true
    → is_valid_json (c ∷ text) ≡ (n == k)
unfolding is_valid_json
is_valid_json_lem c text n k h g t = rw (h, g, t) (same_test n k)

module _ {M : Type 0} (ops : MessageOperations M) where
  open_braces :
      (m : M)
      → count_byte b'{' (json_serialize ops m)
        ≡ 1 + count_byte b'{' (ops.type_name m ++ ops.short_debug_string m)
  unfolding json_serialize message_to_json
  open_braces m = omega (
    arith,
    count_byte-append b'{' (ops.type_name m)
        (codes "\"," ++ (data_key ++ (codes ":\"" ++ (ops.short_debug_string m ++ codes "\"}")))),
    count_byte-append b'{' (ops.short_debug_string m) (codes "\"}"),
    count_byte-append b'{' (ops.type_name m) (ops.short_debug_string m),
  )

  close_braces :
      (m : M)
      → count_byte b'}' (json_serialize ops m)
        ≡ 1 + count_byte b'}' (ops.type_name m ++ ops.short_debug_string m)
  unfolding json_serialize message_to_json
  close_braces m = omega (
    arith,
    count_byte-append b'}' (ops.type_name m)
        (codes "\"," ++ (data_key ++ (codes ":\"" ++ (ops.short_debug_string m ++ codes "\"}")))),
    count_byte-append b'}' (ops.short_debug_string m) (codes "\"}"),
    count_byte-append b'}' (ops.type_name m) (ops.short_debug_string m),
  )

  has_type : (m : M) → contains type_key (json_serialize ops m) ≡ true
  unfolding json_serialize message_to_json
  has_type m = refl

  has_data : (m : M) → contains data_key (json_serialize ops m) ≡ true
  unfolding json_serialize message_to_json
  has_data m =
      let text =
        codes "\"," ++ (data_key ++ (codes ":\"" ++ (ops.short_debug_string m ++ codes "\"}"))) in
      let inside : contains data_key (ops.type_name m ++ text) ≡ true =
        ap (contains data_key) (sym (append_assoc (ops.type_name m) (codes "\",") (drop 2 text)))
        ∙ contains-append (ops.type_name m ++ codes "\",") data_key
            (codes ":\"" ++ (ops.short_debug_string m ++ codes "\"}")) in
      or_later (starts_with (drop 1 data_key) (ops.type_name m ++ text)) inside

  -- deserialize looks at no field: of the text that serialize makes of one message it returns
  -- whether as many braces open as close in the type name and the debug text, and leaves the other
  -- message as it was.
  pub json_deserialize-json_serialize :
      (sent message : M)
      → json_deserialize ops (json_serialize ops sent) message ≡ (
        count_byte b'{' (ops.type_name sent ++ ops.short_debug_string sent)
            == count_byte b'}' (ops.type_name sent ++ ops.short_debug_string sent),
        message,
      )
  unfolding json_deserialize json_to_message
  json_deserialize-json_serialize sent message =
      let shown = ops.type_name sent ++ ops.short_debug_string sent in
      let valid : is_valid_json (json_serialize ops sent)
          ≡ (count_byte b'{' shown == count_byte b'}' shown) =
        unfold json_serialize message_to_json in
        is_valid_json_lem b'{' (drop 1 (json_serialize ops sent)) (count_byte b'{' shown)
          (count_byte b'}' shown) (open_braces sent) (close_braces sent) (has_type sent) in
      elim (Bool-cases (count_byte b'{' shown == count_byte b'}' shown)) [
        | inl same ↦ rw (valid, has_type sent, has_data sent, same) refl
        | inr other ↦ rw (valid, other) refl
      ]
