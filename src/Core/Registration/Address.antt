-- ===== src/Core/Registration/Address.antt =====
-- Under which address a service is registered.
use my_mprpc.Prelude.{◌≡◌, refl, Bool, Option, some, [], ◌∷◌, Bytes, codes}
use my_mprpc.Registry.Instance.{ServiceInstance, get_id, make_instance}
use my_mprpc.Core.Registration.{
  RpcServerConfig, register_asked, unregister_asked, register_to_registry, unregister_from_registry,
  instance_id_of, assign_host,
}

-- Whatever host is configured, registerToRegistry registers an instance with the host 127.0.0.1 and
-- leaves this host in the configuration, so that unregisterFromRegistry names the id of that
-- instance.
pub unregister-register_to_registry :
    (register : ServiceInstance → Option Bool) (unregister : Bytes → Bytes → Option Bool)
    (service_name : Bytes) (config : RpcServerConfig)
    → let (_, config', asked) = register_to_registry (some register) service_name config in
      (config'.host ≡ codes "127.0.0.1")
      × ((s : ServiceInstance) × (asked ≡ register_asked s ∷ [])
          × (s.host ≡ codes "127.0.0.1")
          × (s.service_name ≡ service_name)
          × ((unregister_from_registry (some unregister) service_name config').1
              ≡ unregister_asked service_name (get_id s) ∷ []))
unfolding register_to_registry unregister_from_registry instance_id_of assign_host make_instance
    get_id
unregister-register_to_registry register unregister service_name config = (
  refl,
  (
    make_instance service_name (codes "127.0.0.1") config.port config.service_weight,
    refl,
    refl,
    refl,
    refl,
  ),
)
