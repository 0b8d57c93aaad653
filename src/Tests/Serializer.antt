-- ===== src/Tests/Serializer.antt =====
-- src/serializer over messages that are one text.
use my_mprpc.Prelude.{◌≡◌, refl, true, some, [], ◌++◌, Bytes, codes, ◌==◌}
use my_mprpc.Serializer.{
  MessageOperations, protobuf_serialize, protobuf_deserialize, json_serialize, json_deserialize,
  count_byte, create_serializer, get_serializer, is_registered, is_supported,
  initialize_default_serializers, make_manager,
}
use my_mprpc.Serializer.Json.{json_deserialize-json_serialize}
use my_mprpc.Serializer.RoundTrip.{OperationLaws, ReadBack, protobuf_deserialize-protobuf_serialize}
use my_mprpc.Serializer.Table.{get_serializer-create_serializer}

texts : MessageOperations Bytes
texts = record {
  type_name = λ m. codes "Text";
  short_debug_string = λ m. m;
  is_initialized = λ m. true;
  serialize_to_string = λ m. some m;
  parse_from_string = λ bytes old. (true, bytes);
}

laws : OperationLaws texts
unfolding texts
laws = record { written = λ m v. (m, refl, λ old. refl) }

protobuf_deserialize-protobuf_serialize_example :
    (texts.serialize_to_string (codes "a") ≡ some (protobuf_serialize texts (codes "a")))
    × ReadBack
        (codes "a")
        []
        (protobuf_serialize texts (codes "a"))
        (protobuf_deserialize texts (protobuf_serialize texts (codes "a")) [])
protobuf_deserialize-protobuf_serialize_example =
    protobuf_deserialize-protobuf_serialize texts laws (codes "a") [] (unfold texts in refl)

-- A text with a brace is not accepted.
json_deserialize-json_serialize_example :
    json_deserialize texts (json_serialize texts (codes "{")) [] ≡ (
      count_byte b'{' (texts.type_name (codes "{") ++ texts.short_debug_string (codes "{"))
          == count_byte b'}' (texts.type_name (codes "{") ++ texts.short_debug_string (codes "{")),
      [],
    )
json_deserialize-json_serialize_example = json_deserialize-json_serialize texts (codes "{") []

get_serializer-create_serializer_example :
    let m = initialize_default_serializers make_manager in
    (get_serializer (codes "xml") m ≡ create_serializer (codes "xml"))
    × (is_registered (codes "xml") m ≡ is_supported (codes "xml"))
get_serializer-create_serializer_example = get_serializer-create_serializer (codes "xml")
