-- ===== src/States/Measures.antt =====
-- What comes of asking every node for every app.
use hostit.Common.{
  ℕ, String, Bool, true, false, List, [], ◌∷◌, ◌++◌, some, ◌≡◌, ◌⊎◌, inl, inr, refl, ap, sym, subst,
  ◌∙◌, arith, Bool-cases, if_elim, str_eq, str_eq→eq, contains, lookup,
}
use hostit.Common.Text.{trim_space}
use hostit.States.{
  State, States, drop_state, put_state, merge_states, state_or_zero, no_state, Probe,
  running_states, measured_state, measure_each, add_usage, machine_states, route_states, is_known,
}
use hostit.States.Reports.{lookup-put_state}

-- What is known of the app says that it does not run.
abbrev pub ShowsStopped : String → States → Type 0
ShowsStopped name states = (s : State) × (lookup name states ≡ some s) × (s.running ≡ false)

-- No entry of the name says that it runs.
abbrev pub NeverRunning : String → States → Type 0
NeverRunning name [] = Unit
NeverRunning name ((n, s) ∷ states) =
    ((str_eq n name ≡ false) ⊎ (s.running ≡ false)) × NeverRunning name states

drop_state-NeverRunning :
    (name n : String) (states : States)
    → NeverRunning name states
    → NeverRunning name (drop_state n states)
unfolding drop_state
drop_state-NeverRunning name n [] h = h
drop_state-NeverRunning name n ((j, s) ∷ states) (p, h) =
    if_elim (NeverRunning name) (str_eq j n) (drop_state-NeverRunning name n states h)
      (p, drop_state-NeverRunning name n states h)

put_state-NeverRunning :
    (name n : String) (s : State) (states : States)
    → (str_eq n name ≡ false) ⊎ (s.running ≡ false)
    → NeverRunning name states
    → NeverRunning name (put_state n s states)
unfolding put_state
put_state-NeverRunning name n s states p h = (p, drop_state-NeverRunning name n states h)

lookup-NeverRunning :
    (name : String) (states : States)
    → NeverRunning name states
    → (state_or_zero (lookup name states)).running ≡ false
unfolding state_or_zero no_state
lookup-NeverRunning name [] h = refl
lookup-NeverRunning name ((n, s) ∷ states) (p, h) = elim (Bool-cases (str_eq n name)) [
  | inl here ↦ rw here (elim p [ inl other ↦ cc (sym here ∙ other) | inr stopped ↦ stopped ])
  | inr there ↦ rw there (lookup-NeverRunning name states h)
]

put_state-ShowsStopped :
    (name n : String) (s : State) (states : States)
    → (str_eq n name ≡ false) ⊎ (s.running ≡ false)
    → ShowsStopped name states
    → ShowsStopped name (put_state n s states)
put_state-ShowsStopped name n s states p (t, found, stopped) = elim (Bool-cases (str_eq n name)) [
  | inl here ↦ (
    s,
    lookup-put_state n name s states ∙ rw here refl,
    elim p [ inl other ↦ cc (sym here ∙ other) | inr halted ↦ halted ],
  )
  | inr there ↦ (t, lookup-put_state n name s states ∙ rw there found, stopped)
]

merge_states-ShowsStopped :
    (name : String) (more states : States)
    → NeverRunning name more
    → ShowsStopped name states
    → ShowsStopped name (merge_states more states)
unfolding merge_states
merge_states-ShowsStopped name [] states h shown = shown
merge_states-ShowsStopped name ((n, s) ∷ more) states (p, h) shown =
    merge_states-ShowsStopped name more (put_state n s states) h
      (put_state-ShowsStopped name n s states p shown)

-- A list that knows the name, and never as running, stops it.
merge_states-stops :
    (name : String) (more states : States)
    → NeverRunning name more
    → is_known (lookup name more) ≡ true
    → ShowsStopped name (merge_states more states)
unfolding merge_states
merge_states-stops name [] states h known = cc
merge_states-stops name ((n, s) ∷ more) states (p, h) known = elim (Bool-cases (str_eq n name)) [
  | inl here ↦ merge_states-ShowsStopped name more (put_state n s states) h (
    s,
    lookup-put_state n name s states ∙ rw here refl,
    elim p [ inl other ↦ cc (sym here ∙ other) | inr halted ↦ halted ],
  )
  | inr there ↦ merge_states-stops name more (put_state n s states) h (rw there at known)
]

-- systemd says of no unit of this name that it is active.
abbrev pub IsInactive : String → List (String × Bool) → Type 0
IsInactive name [] = Unit
IsInactive name ((n, r) ∷ rest) = ((str_eq n name ≡ false) ⊎ (r ≡ false)) × IsInactive name rest

abbrev Answers : String → States → Type 0
Answers name states = is_known (lookup name states) ≡ true

put_state-Answers :
    (name n : String) (s : State) (states : States)
    → Answers name states
    → Answers name (put_state n s states)
put_state-Answers name n s states h = ap is_known (lookup-put_state n name s states) ∙ ground arith

put_state-Answers_self :
    (name n : String) (s : State) (states : States)
    → str_eq n name ≡ true
    → Answers name (put_state n s states)
put_state-Answers_self name n s states here =
    ap is_known (lookup-put_state n name s states) ∙ rw here refl

measured_state-running :
    (p : Probe) (name : String) (r : Bool) → (measured_state p name r).running ≡ r
unfolding measured_state
measured_state-running p name r = refl

module _ (p : Probe) (name : String) where
  measure_each-NeverRunning :
      (rs : List (String × Bool)) (states : States)
      → IsInactive name rs
      → NeverRunning name states
      → NeverRunning name (measure_each p rs states)
  unfolding measure_each measured_state
  measure_each-NeverRunning [] states i h = h
  measure_each-NeverRunning ((n, r) ∷ rs) states (q, i) h =
      measure_each-NeverRunning rs (put_state n (measured_state p n r) states) i
        (put_state-NeverRunning name n (measured_state p n r) states q h)

  measure_each-Answers :
      (rs : List (String × Bool)) (states : States)
      → Answers name states
      → Answers name (measure_each p rs states)
  unfolding measure_each
  measure_each-Answers [] states h = h
  measure_each-Answers ((n, r) ∷ rs) states h =
      measure_each-Answers rs (put_state n (measured_state p n r) states)
        (put_state-Answers name n (measured_state p n r) states h)

  measured_or_later :
      (n : String) (r : Bool) (names lines : List String) (states : States)
      → (str_eq n name ≡ true) ⊎ (str_eq n name ≡ false)
      → contains (n ∷ names) name ≡ true
      → ((s : States)
          → contains names name ≡ true
          → Answers name (measure_each p (running_states names lines) s))
      → Answers name
          (measure_each p (running_states names lines) (put_state n (measured_state p n r) states))
  measured_or_later n r names lines states (inl here) h later =
      measure_each-Answers (running_states names lines) (put_state n (measured_state p n r) states)
        (put_state-Answers_self name n (measured_state p n r) states here)
  measured_or_later n r names lines states (inr there) h later =
      later (put_state n (measured_state p n r) states) (rw there at h)

  -- Every name that is asked for is answered.
  measure_each-asked :
      (names lines : List String) (states : States)
      → contains names name ≡ true
      → Answers name (measure_each p (running_states names lines) states)
  unfolding measure_each running_states
  measure_each-asked [] lines states h = cc
  measure_each-asked (n ∷ names) [] states h =
      measured_or_later n false names [] states (Bool-cases (str_eq n name)) h
        (λ s. measure_each-asked names [] s)
  measure_each-asked (n ∷ names) (line ∷ lines) states h =
      measured_or_later n (str_eq (trim_space line) "active") names lines states
        (Bool-cases (str_eq n name)) h (λ s. measure_each-asked names lines s)

  add_usage-NeverRunning :
      (usage : List (String × (ℕ × ℕ))) (states : States)
      → NeverRunning name states
      → NeverRunning name (add_usage usage states)
  unfolding add_usage
  add_usage-NeverRunning [] states h = h
  add_usage-NeverRunning ((n, (mb, cpu)) ∷ usage) states h =
      let used = record (state_or_zero (lookup n states)) { memory_mb = mb; cpu_percent = cpu } in
      add_usage-NeverRunning usage (put_state n used states) (
        put_state-NeverRunning name n used states
          (elim (Bool-cases (str_eq n name)) [
            | inr there ↦ inl there
            | inl here ↦ inr (
                ap (λ k. (state_or_zero (lookup k states)).running) (str_eq→eq n name here)
                ∙ lookup-NeverRunning name states h)
          ])
          h)

  add_usage-Answers :
      (usage : List (String × (ℕ × ℕ))) (states : States)
      → Answers name states
      → Answers name (add_usage usage states)
  unfolding add_usage
  add_usage-Answers [] states h = h
  add_usage-Answers ((n, (mb, cpu)) ∷ usage) states h =
      let used = record (state_or_zero (lookup n states)) { memory_mb = mb; cpu_percent = cpu } in
      add_usage-Answers usage (put_state n used states) (put_state-Answers name n used states h)

pub route_states-append :
    (nodes : List Probe) (p : Probe) (names : List String) (merged : States)
    → route_states (nodes ++ p ∷ []) names merged
      ≡ merge_states (machine_states p names) (route_states nodes names merged)
unfolding route_states
route_states-append [] p names merged = refl
route_states-append (q ∷ nodes) p names merged =
    route_states-append nodes p names (merge_states (machine_states q names) merged)

-- Every node answers for every app that it is asked for, and the last one's answer stands: if
-- systemd on the last of the connected nodes knows of no active unit of an app, the states that all
-- the nodes give together say that the app does not run, on whatever node it runs.
pub route_states-ShowsStopped :
    (nodes : List Probe) (p : Probe) (names : List String) (merged : States) (name : String)
    → contains names name ≡ true
    → IsInactive name (running_states names (p.is_active names))
    → ShowsStopped name (route_states (nodes ++ p ∷ []) names merged)
unfolding machine_states
route_states-ShowsStopped nodes p [] merged name asked inactive = cc
route_states-ShowsStopped nodes p (n ∷ names) merged name asked inactive =
    let all = n ∷ names in
    let measured = measure_each p (running_states all (p.is_active all)) [] in
    subst (ShowsStopped name) (sym (route_states-append nodes p all merged)) (
      merge_states-stops name (add_usage p.usage measured) (route_states nodes all merged)
        (add_usage-NeverRunning p name p.usage measured
          (measure_each-NeverRunning p name (running_states all (p.is_active all)) [] inactive tt))
        (add_usage-Answers p name p.usage measured
          (measure_each-asked p name all (p.is_active all) [] asked)))
