-- ===== src/LoadBalancer/Weighted/Smooth.antt =====
-- Whom the weighted round robin selects.
use my_mprpc.Prelude.{refl, List, ◌∷◌}
use my_mprpc.Registry.Instance.{ServiceInstance}
use my_mprpc.LoadBalancer.Healthy.{
  Selected, Chooses, checked-Selected, with_id_or, with_id_or-Among,
}
use my_mprpc.LoadBalancer.Weighted.{
  WeightedRoundRobin, choose, select, visit_all, start_round, init_weights,
}

choose-Chooses : Chooses choose
unfolding choose
choose-Chooses h hs b =
    let r = visit_all (h ∷ hs) (start_round (init_weights (h ∷ hs) b.current_weights)) in
    (with_id_or h r.selected_id (h ∷ hs), refl, with_id_or-Among h hs r.selected_id)

-- select throws exactly when there is no instance, or none that is healthy; else it returns one of
-- the healthy instances.
pub select-Selected :
    (instances : List ServiceInstance) (b : WeightedRoundRobin)
    → Selected instances (select instances b).0
unfolding select
select-Selected instances b = checked-Selected choose instances b choose-Chooses
