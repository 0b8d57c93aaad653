-- ===== src/Serializer/RoundTrip.antt =====
-- What the protobuf serializer of src/serializer/protobuf_serializer.cpp reads of its own bytes.
use my_mprpc.Prelude.{◌≡◌, refl, Bool, true, false, some, [], ◌∷◌, Bytes}
use my_mprpc.Serializer.{
  MessageOperations, is_valid_message, protobuf_serialize, protobuf_deserialize,
}

-- What protobuf documents: the bytes of an initialized message are read back as this message.
pub record OperationLaws {M : Type 0} (ops : MessageOperations M) : Type 0 where
  pub written :
      (m : M)
      → ops.is_initialized m ≡ true
      → (bytes : Bytes) × (ops.serialize_to_string m ≡ some bytes)
        × ((old : M) → ops.parse_from_string bytes old ≡ (true, m))

-- How a message with these bytes is read over an old one.
abbrev pub ReadBack : {M : Type 0} → M → M → Bytes → Bool × M → Type 0
ReadBack m old [] r = r ≡ (false, old)
ReadBack m old (b ∷ bytes) r = r ≡ (true, m)

module _ {M : Type 0} (ops : MessageOperations M) where
  read_back :
      (m old : M) (bytes : Bytes)
      → ops.parse_from_string bytes old ≡ (true, m)
      → ReadBack m old bytes (protobuf_deserialize ops bytes old)
  unfolding protobuf_deserialize
  read_back m old [] e = refl
  read_back m old (b ∷ bytes) e = e

  -- An initialized message is written as the bytes that protobuf makes of it, and read back as it
  -- was, unless there are no bytes: a message whose fields have their defaults is not read.
  pub protobuf_deserialize-protobuf_serialize :
      (laws : OperationLaws ops) (m old : M)
      → ops.is_initialized m ≡ true
      → (ops.serialize_to_string m ≡ some (protobuf_serialize ops m))
        × ReadBack m old
            (protobuf_serialize ops m)
            (protobuf_deserialize ops (protobuf_serialize ops m) old)
  unfolding protobuf_serialize is_valid_message
  protobuf_deserialize-protobuf_serialize laws m old v =
      let (bytes, e, back) = laws.written m v in
      let made : protobuf_serialize ops m ≡ bytes = rw (v, e) refl in
      rw made (e, read_back m old bytes (back old))
