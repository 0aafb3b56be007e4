-- ===== src/Tests/Monitoring.antt =====
-- The metrics at a concrete registry, a list of names.
use judge_it.Prelude.{◌≡◌, refl, List, [], ◌∷◌, ◌++◌, map, if◌then◌else◌}
use judge_it.Prelude.Actions.{Action}
use judge_it.Prelude.Results.{done, thrown}
use judge_it.Prelude.Text.{Text, text}
use judge_it.Monitoring.Registration.{
  Metric, Registry, Laws, has_text, metrics, service, new_service, register_all,
}

abbrev register_in : Metric → Action (List Text) Text (Unit {0})
register_in m names =
    if has_text m.name names
    then (thrown (text "already registered"), names)
    else (done tt, names ++ m.name ∷ [])

abbrev registry : Registry (List Text)
registry = record { names = λ s. s; register_metric = register_in }

registry-Laws : Laws registry
registry-Laws = record {
  register_taken = λ m s h. (text "already registered", rw h refl);
  register_fresh = λ m s h. (s ++ m.name ∷ [], rw h refl, refl);
}

-- A second service in the same registry is refused.
registered_twice :
    (new_service registry (map (λ m. m.name) (metrics service))).0
    ≡ thrown (text "already registered")
unfolding new_service register_all
registered_twice = refl
