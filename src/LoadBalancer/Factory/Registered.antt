-- ===== src/LoadBalancer/Factory/Registered.antt =====
-- Which creator a name stands for.
use my_mprpc.Prelude.{
  ◌≡◌, refl, sym, ap, ◌∙◌, Option, none, some, [], ◌∷◌, ◌++◌, Bytes, codes, bytes_eq, append-nil,
  append_assoc, inl, inr, Bool-cases,
}
use my_mprpc.Prelude.Map.{
  find, has, put_new, find-append, first_some, find_of_not_has, find_append_taken,
}
use my_mprpc.LoadBalancer.Interface.{round_robin}
use my_mprpc.LoadBalancer.RoundRobin.{make_round_robin}
use my_mprpc.LoadBalancer.Factory.{
  Config, LoadBalancerCreator, Creators, register_creator, register_all, create, create_from,
  built_in, make_factory, built,
}

-- A registration under a name that is taken changes nothing, and a new one comes last.
find-register_creator :
    (name other : Bytes) (creator : LoadBalancerCreator) (creators : Creators)
    → find other (register_creator name creator creators).1
      ≡ find other (creators ++ (name, creator) ∷ [])
unfolding register_creator
find-register_creator name other creator creators = elim (Bool-cases (has name creators)) [
  | inl taken ↦ rw taken (sym (find_append_taken name other creator creators taken))
  | inr free ↦
      rw free (ap (find other) (put_new name creator creators (find_of_not_has name creators free)))
]

find-register_all :
    (other : Bytes) (more creators : Creators)
    → find other (register_all more creators) ≡ find other (creators ++ more)
unfolding register_all
find-register_all other [] creators = ap (find other) (sym (append-nil creators))
find-register_all other ((name, creator) ∷ more) creators =
    let next = (register_creator name creator creators).1 in
    find-register_all other more next
    ∙ find-append other next more
    ∙ ap (λ f. first_some f (find other more)) (find-register_creator name other creator creators)
    ∙ sym (find-append other (creators ++ (name, creator) ∷ []) more)
    ∙ ap (find other) (append_assoc creators ((name, creator) ∷ []) more)

-- The creator that was registered first under a name, or else that of the round robin.
abbrev pub chosen : Option LoadBalancerCreator → LoadBalancerCreator
chosen (some creator) = creator
chosen none = λ config. built (round_robin make_round_robin)

create_from-chosen :
    (found : Option LoadBalancerCreator) (config : Config)
    → create_from found (some (λ c. built (round_robin make_round_robin))) config
      ≡ chosen found config
create_from-chosen none config = refl
create_from-chosen (some creator) config = refl

find-make_factory :
    (name : Bytes) (more : Creators)
    → find name (register_all more make_factory) ≡ find name (built_in ++ more)
unfolding make_factory
find-make_factory name more =
    find-register_all name more make_factory
    ∙ find-append name make_factory more
    ∙ ap (λ f. first_some f (find name more)) (find-register_all name built_in [])
    ∙ sym (find-append name built_in more)

round_robin_built_in :
    (more : Creators)
    → find (codes "round_robin") (built_in ++ more)
      ≡ some (λ c. built (round_robin make_round_robin))
unfolding built_in
round_robin_built_in more = refl

-- Whatever is registered after the built-in creators, create does what the first creator under the
-- name does, the built-in ones before the others, with the configuration it was given; for a name
-- without one it returns a round robin.
pub create_lem :
    (name : Bytes) (config : Config) (more : Creators)
    → create name config (register_all more make_factory)
      ≡ chosen (find name (built_in ++ more)) config
unfolding create
create_lem name config more =
    ap (λ f. create_from f (find (codes "round_robin") (register_all more make_factory)) config)
      (find-make_factory name more)
    ∙ ap (λ d. create_from (find name (built_in ++ more)) d config)
        (find-make_factory (codes "round_robin") more ∙ round_robin_built_in more)
    ∙ create_from-chosen (find name (built_in ++ more)) config
