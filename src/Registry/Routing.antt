-- ===== src/Registry/Routing.antt =====
-- Which node a call reaches, and what each node is sent of the desired state.
use hostit.Common.{
  ℕ, String, Bool, true, false, List, [], ◌∷◌, Option, none, some, ◌≡◌, refl, ap, ◌∙◌, ◌⊎◌, inl,
  inr, All, Bool-cases, str_eq, str_eq→eq,
}
use hostit.Store.{App, find_app}
use hostit.Registry.{
  Agents, agent_of, host_or_local, agent_for, to_agent, reached, is_archived, route_app, route,
  route_runnable_app, route_runnable, Verb, call, slice_desired, send_to, reconcile_ids, reconcile,
  ids_of, ensure, up, power_on, restart, start_app, restart_app, exec, screenshot,
  run_assistant_turn, answer_assistant, terminal, take_snapshot, rollback,
}

-- The calls that make an app run, work inside it, or take a new snapshot of it. A rollback does two of
-- these: it takes a snapshot for safety first, and starts the app at its end.
unfoldable pub makes_run : Verb → Bool
makes_run v = elim v [
  | ensure ↦ true
  | up ↦ true
  | power_on ↦ true
  | restart ↦ true
  | start_app ↦ true
  | restart_app ↦ true
  | exec ↦ true
  | screenshot ↦ true
  | run_assistant_turn ↦ true
  | answer_assistant ↦ true
  | terminal ↦ true
  | take_snapshot ↦ true
  | rollback ↦ true
  | _ ↦ false
]

unfoldable pub is_rollback : Verb → Bool
is_rollback v = elim v [ rollback ↦ true | _ ↦ false ]

module _ (agents : Agents) (apps : List App) (name : String) (n : ℕ) where
  -- The app is there, its host's agent is the one reached, and `needed` says that it may be archived.
  pub record Reaches (running : Bool) : Type 0 where
    pub app : App
    pub found : find_app apps name ≡ some app
    pub hosted : agent_of agents (host_or_local app.host) ≡ some n
    pub allowed : (running ≡ false) ⊎ (app.archived ≡ false)

-- An archived app whose host's agent is connected is rolled back like any other, though nothing else
-- may start it.
pub rollback_archived :
    (agents : Agents) (apps : List App) (name : String) (n : ℕ) (a : App)
    → find_app apps name ≡ some a
    → a.archived ≡ true
    → agent_of agents (host_or_local a.host) ≡ some n
    → (call rollback agents apps name ≡ reached n) × (call start_app agents apps name ≡ is_archived)
unfolding call route route_app route_runnable route_runnable_app agent_for to_agent
rollback_archived agents apps name n a found archived hosted =
    (rw (found, hosted) refl, rw (found, archived) refl)

-- What an agent is sent: every app of it is one whose host's agent it is.
abbrev pub IsHostedBy : Agents → ℕ → String × String → Type 0
IsHostedBy agents n (name, host) = agent_of agents (host_or_local host) ≡ some n

slice_desired-hosted :
    (agents : Agents) (n : ℕ) (desired : List (String × String)) (id : String)
    → agent_of agents id ≡ some n
    → All (IsHostedBy agents n) (slice_desired desired id)
unfolding slice_desired
slice_desired-hosted agents n [] id h = tt
slice_desired-hosted agents n ((name, host) ∷ apps) id h =
    elim (Bool-cases (str_eq (host_or_local host) id)) [
      | inl here ↦ rw here (
        ap (agent_of agents) (str_eq→eq (host_or_local host) id here) ∙ h,
        slice_desired-hosted agents n apps id h,
      )
      | inr apart ↦ rw apart (slice_desired-hosted agents n apps id h)
    ]

abbrev pub AllHosted : Agents → List (ℕ × List (String × String)) → Type 0
AllHosted agents sent =
    All (λ (p : ℕ × List (String × String)). All (IsHostedBy agents p.0) p.1) sent

send_to-hosted :
    (agents : Agents) (desired : List (String × String)) (id : String) (o : Option ℕ)
    (rest : List (ℕ × List (String × String)))
    → agent_of agents id ≡ o
    → AllHosted agents rest
    → AllHosted agents (send_to o (slice_desired desired id) rest)
send_to-hosted agents desired id none rest e h = h
send_to-hosted agents desired id (some a) rest e h = (slice_desired-hosted agents a desired id e, h)

reconcile_ids-hosted :
    (agents : Agents) (desired : List (String × String)) (ids : List String)
    → AllHosted agents (reconcile_ids agents desired ids)
unfolding reconcile_ids
reconcile_ids-hosted agents desired [] = tt
reconcile_ids-hosted agents desired (id ∷ ids) =
    send_to-hosted agents desired id (agent_of agents id) (reconcile_ids agents desired ids) refl
      (reconcile_ids-hosted agents desired ids)

-- Reconciling hands an agent only apps whose host's agent it is, whatever the desired state lists.
pub reconcile-hosted :
    (agents : Agents) (desired : List (String × String))
    → AllHosted agents (reconcile agents desired)
unfolding reconcile
reconcile-hosted agents desired = reconcile_ids-hosted agents desired (ids_of agents)
