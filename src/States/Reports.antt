-- ===== src/States/Reports.antt =====
-- Whose reports the state that control shows of an app comes from.
use hostit.Common.{
  ℕ, ◌+◌, ◌-◌, ◌≤◌, String, true, false, List, [], ◌∷◌, Option, none, some, ◌≡◌, inl, inr, refl, ap,
  sym, ◌∙◌, arith, Bool-cases, ltb, if◌then◌else◌, str_eq, str_eq_self, contains, lookup,
}
use text.Mathlib.TextEquality.{eq_iff}
use hostit.States.{
  State, States, drop_state, put_state, put_known, merge_states, ControlStates, ingest_states,
  scope_states, invalidate_state, refresh_states, end_refresh, cached_states, states_of, all_known,
  state_or_zero, state_ttl,
}

lookup-drop_state :
    (name other : String) (states : States)
    → lookup other (drop_state name states)
      ≡ (if str_eq name other then none else lookup other states)
unfolding drop_state
lookup-drop_state name other [] = ground arith
lookup-drop_state name other ((n, s) ∷ states) =
    ground
      (arith, lookup-drop_state name other states, eq_iff n name, eq_iff n other, eq_iff name other)

pub lookup-put_state :
    (name other : String) (s : State) (states : States)
    → lookup other (put_state name s states)
      ≡ (if str_eq name other then some s else lookup other states)
unfolding put_state
lookup-put_state name other s states = ground (arith, lookup-drop_state name other states)

-- A list without a name leaves that name's state alone.
pub lookup-merge_states_other :
    (more states : States) (name : String)
    → lookup name more ≡ none
    → lookup name (merge_states more states) ≡ lookup name states
unfolding merge_states
lookup-merge_states_other [] states name h = refl
lookup-merge_states_other ((n, s) ∷ more) states name h = elim (Bool-cases (str_eq n name)) [
  | inl here ↦ cc (rw here at h)
  | inr there ↦
      lookup-merge_states_other more (put_state n s states) name (rw there at h)
      ∙ lookup-put_state n name s states
      ∙ rw there refl
]

-- What a list makes of a name depends on nothing else that is known.
lookup-merge_states_same :
    (more a b : States) (name : String)
    → lookup name a ≡ lookup name b
    → lookup name (merge_states more a) ≡ lookup name (merge_states more b)
unfolding merge_states
lookup-merge_states_same [] a b name h = h
lookup-merge_states_same ((n, s) ∷ more) a b name h =
    lookup-merge_states_same more (put_state n s a) (put_state n s b) name (
      lookup-put_state n name s a
      ∙ ap (λ o. if str_eq n name then some s else o) h
      ∙ sym (lookup-put_state n name s b))

lookup-put_known :
    (name other : String) (o : Option State) (keep : States)
    → str_eq name other ≡ false
    → lookup other (put_known name o keep) ≡ lookup other keep
unfolding put_known
lookup-put_known name other none keep h = refl
lookup-put_known name other (some s) keep h = lookup-put_state name other s keep ∙ rw h refl

-- Nothing is kept of a node's answer for a name that it was not asked for.
lookup-scope_states :
    (states : States) (allowed : List String) (name : String)
    → contains allowed name ≡ false
    → lookup name (scope_states states allowed) ≡ none
unfolding scope_states
lookup-scope_states states [] name h = refl
lookup-scope_states states (n ∷ allowed) name h =
    lookup-put_known n name (lookup n states) (scope_states states allowed) (ground arith)
    ∙ lookup-scope_states states allowed name (ground arith)

-- A poll of a node: what it answered, and when.
pub record Report : Type 0 where
  pub node : String
  pub measured : States
  pub at : ℕ

-- `pollNodeOnce`: a node is asked for the apps that it hosts, and is heard on no others.
unfoldable pub ingest_report : (String → List String) → Report → ControlStates → ControlStates
unfolding ingest_states scope_states
ingest_report hosted r c = ingest_states (scope_states r.measured (hosted r.node)) r.at c

unfoldable pub ingest_all : (String → List String) → List Report → ControlStates → ControlStates
unfolding ingest_report
ingest_all hosted [] c = c
ingest_all hosted (r ∷ rs) c = ingest_all hosted rs (ingest_report hosted r c)

-- The reports of the nodes that host an app.
abbrev pub reports_on : (String → List String) → String → List Report → List Report
reports_on hosted name [] = []
reports_on hosted name (r ∷ rs) =
    if contains (hosted r.node) name
    then r ∷ reports_on hosted name rs
    else reports_on hosted name rs

ingest_all_same :
    (hosted : String → List String) (name : String) (rs : List Report) (c d : ControlStates)
    → lookup name c.states ≡ lookup name d.states
    → lookup name (ingest_all hosted rs c).states
      ≡ lookup name (ingest_all hosted (reports_on hosted name rs) d).states
unfolding ingest_all ingest_report ingest_states
ingest_all_same hosted name [] c d h = h
ingest_all_same hosted name (r ∷ rs) c d h =
    let told = scope_states r.measured (hosted r.node) in
    elim (Bool-cases (contains (hosted r.node) name)) [
      | inl own ↦ rw own (
          ingest_all_same hosted name rs (ingest_report hosted r c) (ingest_report hosted r d)
            (lookup-merge_states_same told c.states d.states name h))
      | inr other ↦ rw other (
          ingest_all_same hosted name rs (ingest_report hosted r c) d (
            lookup-merge_states_other told c.states name
              (lookup-scope_states r.measured (hosted r.node) name other)
            ∙ h))
    ]

-- After any reports, what control knows of an app is what it would know if only the nodes that host
-- the app had reported: whatever another node answers changes nothing of it.
pub lookup-ingest_all :
    (hosted : String → List String) (name : String) (rs : List Report) (c : ControlStates)
    → lookup name (ingest_all hosted rs c).states
      ≡ lookup name (ingest_all hosted (reports_on hosted name rs) c).states
lookup-ingest_all hosted name rs c = ingest_all_same hosted name rs c c refl

-- A refresh has begun and measured, as the node says that an app has changed, and ends afterwards.
-- The next read answers what was measured before the change, and starts no other refresh for as
-- long as the measurement counts as fresh; had the refresh ended first, the read would start one.
pub end_refresh-invalidate_state :
    (c : ControlStates) (measured : States) (name : String) (ended now : ℕ) {old : State}
    → lookup name measured ≡ some old
    → now ≤ ended + state_ttl
    → (cached_states (end_refresh measured ended (invalidate_state name c)) now (name ∷ [])
        ≡ ((name, old) ∷ [], false))
      × ((cached_states (invalidate_state name (end_refresh measured ended c)) now (name ∷ [])).1
          ≡ true)
unfolding cached_states end_refresh refresh_states invalidate_state states_of all_known
    state_or_zero put_state drop_state
end_refresh-invalidate_state c measured name ended now {old} found recent =
    let early : ltb state_ttl (now - ended) ≡ false = ground arith in
    (
      rw found (rw early refl),
      rw (lookup-drop_state name name measured) (rw (str_eq_self name) (ground arith)),
    )
