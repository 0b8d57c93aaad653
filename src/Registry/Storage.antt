-- ===== src/Registry/Storage.antt =====
-- serializeInstance and deserializeInstance of src/registry/zookeeper_registry.cpp: what a node of
-- the registry holds for an instance.
pub mod Lines
use mathlib.Core.Option
use my_mprpc.Prelude.{
  ℕ, suc, ◌+◌, ◌-◌, ◌%◌, ◌^◌, ◌≡◌, refl, Bool, true, false, Option, none, some, List, [], ◌∷◌, ◌++◌,
  Bytes, codes, if◌then◌else◌, bytes_eq, ◌==◌, length,
}
use my_mprpc.Prelude.Int.{ℤ, pos, negsuc}
use my_mprpc.Prelude.Map.{Map, put}
use my_mprpc.Prelude.Decimal.{to_string}
use my_mprpc.Prelude.Parse.{stoi, stoull, to_string_int}
use my_mprpc.Registry.Instance.{ServiceInstance, default_instance}

abbrev pub end_line : Bytes → Bytes → Bytes
end_line line rest = line ++ 10 ∷ rest

unfoldable pub serialize_metadata : Map Bytes Bytes → Bytes
serialize_metadata [] = []
serialize_metadata ((key, value) ∷ more) = end_line (key ++ b'=' ∷ value) (serialize_metadata more)

unfoldable pub serialize_instance : ServiceInstance → Bytes
unfolding to_string_int serialize_metadata
serialize_instance s = end_line s.service_name (
    end_line s.host (
      end_line (to_string s.port) (
        end_line (to_string_int s.weight) (
          end_line (if s.is_healthy then codes "1" else codes "0")
            (end_line (to_string s.last_heartbeat) (serialize_metadata s.metadata))))))

-- What std::getline reads until it fails: the text between the newlines, and what is behind the
-- last one if there is anything.
unfoldable pub lines_from : Bytes → Bytes → List Bytes
lines_from [] [] = []
lines_from (c ∷ line) [] = (c ∷ line) ∷ []
lines_from line (c ∷ bytes) =
    let at_end = lines_from [] bytes in
    let within = lines_from (line ++ c ∷ []) bytes in if c == 10 then line ∷ at_end else within

unfoldable pub lines : Bytes → List Bytes
unfolding lines_from
lines bytes = lines_from [] bytes

-- line.find('='), and the text on both sides.
unfoldable pub split_key : Bytes → Option (Bytes × Bytes)
split_key [] = none
split_key (c ∷ line) =
    let later = Option.map (λ p. (c ∷ p.0, p.1)) (split_key line) in
    if c == b'=' then some ([], line) else later

abbrev pub put_entry : Option (Bytes × Bytes) → Map Bytes Bytes → Map Bytes Bytes
put_entry none metadata = metadata
put_entry (some (key, value)) metadata = put key value metadata

unfoldable pub read_metadata : List Bytes → Map Bytes Bytes → Map Bytes Bytes
unfolding split_key
read_metadata [] metadata = metadata
read_metadata (line ∷ more) metadata = read_metadata more (put_entry (split_key line) metadata)

-- The conversion of an int to a uint16_t.
unfoldable pub to_uint16 : ℤ → ℕ
to_uint16 (pos n) = n % 65536
to_uint16 (negsuc n) = 65535 - n % 65536

-- What stoi or stoull throws ends the function.
abbrev pub or_stop : {A B : Type 0} → Option A → (A → Option B) → Option B
or_stop none next = none
or_stop (some a) next = next a

-- The fields one line after the other, as long as there are lines; `none` when stoi or stoull
-- throws.
unfoldable pub read_heartbeat : List Bytes → ServiceInstance → Option ServiceInstance
unfolding stoull read_metadata
read_heartbeat [] s = some s
read_heartbeat (line ∷ more) s =
    or_stop (stoull line)
      (λ n. some (record s { last_heartbeat = n; metadata = read_metadata more s.metadata }))

unfoldable pub read_health : List Bytes → ServiceInstance → Option ServiceInstance
unfolding read_heartbeat
read_health [] s = some s
read_health (line ∷ more) s =
    read_heartbeat more (record s { is_healthy = bytes_eq.beq line (codes "1") })

unfoldable pub read_weight : List Bytes → ServiceInstance → Option ServiceInstance
unfolding stoi read_health
read_weight [] s = some s
read_weight (line ∷ more) s = or_stop (stoi line) (λ n. read_health more (record s { weight = n }))

unfoldable pub read_port : List Bytes → ServiceInstance → Option ServiceInstance
unfolding stoi read_weight to_uint16
read_port [] s = some s
read_port (line ∷ more) s =
    or_stop (stoi line) (λ n. read_weight more (record s { port = to_uint16 n }))

unfoldable pub read_host : List Bytes → ServiceInstance → Option ServiceInstance
unfolding read_port
read_host [] s = some s
read_host (line ∷ more) s = read_port more (record s { host = line })

unfoldable pub read_name : List Bytes → ServiceInstance → Option ServiceInstance
unfolding read_host
read_name [] s = some s
read_name (line ∷ more) s = read_host more (record s { service_name = line })

unfoldable pub deserialize_instance : Bytes → Option ServiceInstance
unfolding lines read_name default_instance
deserialize_instance bytes = read_name (lines bytes) default_instance
