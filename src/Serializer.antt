-- ===== src/Serializer.antt =====
-- src/serializer: the two serializers, the factory and the table of serializers. What protobuf
-- makes of a message is a parameter.
pub mod Json
pub mod RoundTrip
pub mod Table
use my_mprpc.Prelude.{
  ℕ, suc, ◌+◌, ◌≡◌, refl, Bool, true, false, ◌&&◌, not, Option, none, some, List, [], ◌∷◌, ◌++◌,
  Bytes, codes, length, if◌then◌else◌, bytes_eq, ◌==◌,
}
use my_mprpc.Prelude.Map.{Map, find, put, erase, has, keys}

-- The classes, and their getName.
pub data Serializer : Type 0 where
  protobuf_serializer json_serializer : Serializer

abbrev pub get_name : Serializer → Bytes
get_name protobuf_serializer = codes "protobuf"
get_name json_serializer = codes "json"

-- SerializerFactory; the tests are made in this order.
unfoldable pub create_serializer : Bytes → Option Serializer
create_serializer name =
    if bytes_eq.beq name (codes "protobuf")
    then some protobuf_serializer
    else if bytes_eq.beq name (codes "json")
    then some json_serializer
    else none

abbrev pub get_supported_serializer : List Bytes
get_supported_serializer = codes "protobuf" ∷ codes "json" ∷ []

-- std::find
abbrev pub is_among : Bytes → List Bytes → Bool
is_among name [] = false
is_among name (n ∷ names) = if bytes_eq.beq n name then true else is_among name names

unfoldable pub is_supported : Bytes → Bool
is_supported name = is_among name get_supported_serializer

-- SerializerManager: serializers by name.
pub record SerializerManager : Type 0 where
  pub serializers : Map Bytes Serializer

pub make_manager : SerializerManager
make_manager = record { serializers = [] }

unfoldable pub register_serializer :
    Bytes → Option Serializer → SerializerManager → Bool × SerializerManager
register_serializer name none m = (false, m)
register_serializer [] (some serializer) m = (false, m)
register_serializer (b ∷ name) (some serializer) m =
    if has (b ∷ name) m.serializers
    then (false, m)
    else (true, record m { serializers = put (b ∷ name) serializer m.serializers })

unfoldable pub get_serializer : Bytes → SerializerManager → Option Serializer
get_serializer name m = find name m.serializers

unfoldable pub remove_serializer : Bytes → SerializerManager → Bool × SerializerManager
remove_serializer name m =
    if has name m.serializers
    then (true, record m { serializers = erase name m.serializers })
    else (false, m)

pub get_registered_serializers : SerializerManager → List Bytes
get_registered_serializers m = keys m.serializers

pub clear : SerializerManager → SerializerManager
clear m = record m { serializers = [] }

unfoldable pub initialize_default_serializers : SerializerManager → SerializerManager
unfolding register_serializer
initialize_default_serializers m =
    let (_, m') = register_serializer (codes "protobuf") (some protobuf_serializer) m in
    let (_, m'') = register_serializer (codes "json") (some json_serializer) m' in m''

unfoldable pub is_registered : Bytes → SerializerManager → Bool
is_registered name m = has name m.serializers

pub get_serializer_count : SerializerManager → ℕ
get_serializer_count m = length m.serializers

-- What protobuf makes of a message: GetTypeName, ShortDebugString, IsInitialized,
-- SerializeToString and ParseFromString, which leaves the message as it stands or cleared when it
-- fails. GetDescriptor is never null for a generated class.
pub record MessageOperations (M : Type 0) : Type 0 where
  pub type_name : M → Bytes
  pub short_debug_string : M → Bytes
  pub is_initialized : M → Bool
  pub serialize_to_string : M → Option Bytes
  pub parse_from_string : Bytes → M → Bool × M

-- std::string::find with a result that is not npos
abbrev pub starts_with : Bytes → Bytes → Bool
starts_with [] text = true
starts_with (c ∷ part) [] = false
starts_with (c ∷ part) (d ∷ text) = c == d && starts_with part text

abbrev pub contains : Bytes → Bytes → Bool
contains part [] = starts_with part []
contains part (c ∷ text) = if starts_with part (c ∷ text) then true else contains part text

-- std::count
abbrev pub count_byte : ℕ → Bytes → ℕ
count_byte c [] = 0
count_byte c (d ∷ text) = (if c == d then 1 else 0) + count_byte c text

abbrev pub type_key : Bytes
type_key = codes "\"message_type\""

abbrev pub data_key : Bytes
data_key = codes "\"data\""

unfoldable pub is_valid_json : Bytes → Bool
is_valid_json [] = false
is_valid_json (c ∷ json) =
    if count_byte b'{' (c ∷ json) == count_byte b'}' (c ∷ json)
    then contains type_key (c ∷ json)
    else false

abbrev pub or_nothing : Option Bytes → Bytes
or_nothing none = []
or_nothing (some bytes) = bytes

module _ {M : Type 0} (ops : MessageOperations M) where
  unfoldable pub message_to_json : M → Bytes
  message_to_json message =
      b'{'
      ∷ (type_key
          ++ (codes ":\""
              ++ (ops.type_name message
                  ++ (codes "\","
                      ++ (data_key
                          ++ (codes ":\"" ++ (ops.short_debug_string message ++ codes "\"}")))))))

  -- The result, and the message, which is not looked at.
  unfoldable pub json_to_message : Bytes → M → Bool × M
  json_to_message json message = (contains type_key json && contains data_key json, message)

  unfoldable pub json_serialize : M → Bytes
  unfolding message_to_json
  json_serialize message = message_to_json message

  unfoldable pub json_deserialize : Bytes → M → Bool × M
  unfolding is_valid_json json_to_message
  json_deserialize bytes message =
      if is_valid_json bytes then json_to_message bytes message else (false, message)

  unfoldable pub is_valid_message : M → Bool
  is_valid_message message = ops.is_initialized message

  -- Nothing is what a failure returns.
  unfoldable pub protobuf_serialize : M → Bytes
  unfolding is_valid_message
  protobuf_serialize message =
      if is_valid_message message then or_nothing (ops.serialize_to_string message) else []

  unfoldable pub protobuf_deserialize : Bytes → M → Bool × M
  protobuf_deserialize [] message = (false, message)
  protobuf_deserialize (b ∷ bytes) message = ops.parse_from_string (b ∷ bytes) message
