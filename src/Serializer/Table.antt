-- ===== src/Serializer/Table.antt =====
-- The serializers that src/serializer/serializer_manager.cpp finds by name.
use my_mprpc.Prelude.{
  ◌≡◌, refl, Bool, true, false, none, some, [], ◌∷◌, Bytes, codes, if◌then◌else◌, bytes_eq, arith,
}
use my_mprpc.Serializer.{
  protobuf_serializer, json_serializer, create_serializer, is_supported, make_manager,
  register_serializer, get_serializer, initialize_default_serializers, is_registered,
}

beq_comm : (x y : Bytes) → bytes_eq.beq x y ≡ bytes_eq.beq y x
beq_comm [] [] = refl
beq_comm [] (c ∷ ys) = refl
beq_comm (c ∷ xs) [] = refl
beq_comm (c ∷ xs) (d ∷ ys) = ground (arith, beq_comm xs ys)

two_names :
    (p j : Bool)
    → elim (if p then some protobuf_serializer else if j then some json_serializer else none) [
      | none ↦ false
      | some v ↦ true
    ]
      ≡ (if p then true else if j then true else false)
two_names true j = refl
two_names false true = refl
two_names false false = refl

-- After initializeDefaultSerializers a new manager gives under each name the serializer that the
-- factory creates under it, and the names that are registered are those that the factory supports.
pub get_serializer-create_serializer :
    (name : Bytes)
    → let m = initialize_default_serializers make_manager in
      (get_serializer name m ≡ create_serializer name) × (is_registered name m ≡ is_supported name)
unfolding initialize_default_serializers make_manager register_serializer get_serializer
    create_serializer is_registered is_supported
get_serializer-create_serializer name = (
  rw (beq_comm (codes "protobuf") name, beq_comm (codes "json") name) refl,
  two_names (bytes_eq.beq (codes "protobuf") name) (bytes_eq.beq (codes "json") name),
)
