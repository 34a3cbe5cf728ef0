-- ===== src/States/Tests.antt =====
-- Two nodes, of which one runs an app.
use hostit.Common.{
  String, true, false, List, [], ◌∷◌, ◌++◌, ◌+◌, ◌≤◌, ◌≡◌, inr, refl, arith, lookup,
}
use hostit.States.{
  State, ControlStates, Probe, running_states, route_states, cached_states, end_refresh,
  invalidate_state, state_ttl,
}
use hostit.States.Reports.{ingest_all, reports_on, lookup-ingest_all, end_refresh-invalidate_state}
use hostit.States.Measures.{ShowsStopped, IsInactive, route_states-ShowsStopped}

abbrev up : State
up = record {
  running = true;
  app_running = true;
  app_state = "running";
  memory_mb = 10;
  cpu_percent = 1;
  started_at = 5;
  app_started_at = 5;
}

abbrev known : ControlStates
known = record { states = ("blog", up) ∷ []; fresh = 100; refreshing = false }

abbrev hosted : String → List String
hosted node = "blog" ∷ []

lookup-ingest_all_example :
    lookup "blog"
      (ingest_all hosted
        (record { node = "a"; measured = ("blog", up) ∷ []; at = 1 } ∷ [])
        known).states
    ≡ lookup "blog"
        (ingest_all hosted
          (reports_on hosted "blog"
            (record { node = "a"; measured = ("blog", up) ∷ []; at = 1 } ∷ []))
          known).states
lookup-ingest_all_example =
    lookup-ingest_all hosted "blog"
      (record { node = "a"; measured = ("blog", up) ∷ []; at = 1 } ∷ []) known

recent : 300 ≤ 200 + state_ttl
unfolding state_ttl
recent = omega arith

end_refresh-invalidate_state_example :
    (cached_states
        (end_refresh (("blog", up) ∷ []) 200 (invalidate_state "blog" known))
        300
        ("blog" ∷ [])
      ≡ (("blog", up) ∷ [], false))
    × ((cached_states
          (invalidate_state "blog" (end_refresh (("blog", up) ∷ []) 200 known))
          300
          ("blog" ∷ [])).1
        ≡ true)
end_refresh-invalidate_state_example =
    end_refresh-invalidate_state known (("blog", up) ∷ []) "blog" 200 300 refl recent

-- The app's unit is active on the first node, and unknown on the second.
abbrev first_node : Probe
first_node = record {
  is_active = λ units. "active" ∷ [];
  breadcrumb = λ name. ("running", 5);
  started = λ name. 5;
  usage = [];
}

abbrev second_node : Probe
second_node = record {
  is_active = λ units. "inactive" ∷ [];
  breadcrumb = λ name. ("", 0);
  started = λ name. 0;
  usage = [];
}

stopped_there : IsInactive "blog" (running_states ("blog" ∷ []) ("inactive" ∷ []))
unfolding running_states
stopped_there = (inr refl, tt)

route_states-ShowsStopped_example :
    ShowsStopped "blog" (route_states (first_node ∷ [] ++ second_node ∷ []) ("blog" ∷ []) [])
route_states-ShowsStopped_example =
    route_states-ShowsStopped (first_node ∷ []) second_node ("blog" ∷ []) [] "blog" refl
      stopped_there
