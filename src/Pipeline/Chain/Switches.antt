-- ===== src/Pipeline/Chain/Switches.antt =====
-- internal/pipeline/filter.go: the switch of each resource.
use tekton_events_relay.Prelude.{
  Bool, true, false, not, ◌||◌, ◌≡◌, ◌⊎◌, inl, inr, refl, arith, eq_iff, ◌==◌, Bool-cases,
}
use tekton_events_relay.Domain.{Resource}
use tekton_events_relay.Pipeline.Links.{EventFilter, resource_allowed}

abbrev pub is_known : Resource → Bool
is_known r = r == "taskrun" || (r == "pipelinerun" || (r == "customrun" || r == "eventlistener"))

-- The switch of the configuration for a resource.
pub data Switched (f : EventFilter) (on : Bool) : Resource → Type 0 where
  task_runs : f.allow_task_run ≡ on → Switched f on "taskrun"
  pipeline_runs : f.allow_pipeline_run ≡ on → Switched f on "pipelinerun"
  custom_runs : f.allow_custom_run ≡ on → Switched f on "customrun"
  event_listeners : f.allow_event_listener ≡ on → Switched f on "eventlistener"
  unknown : (r : Resource) → is_known r ≡ false → f.ignore_unknown ≡ not on → Switched f on r

double_negation : (b : Bool) → not (not b) ≡ b
double_negation true = refl
double_negation false = refl

pub resource_allowed-Switched :
    (f : EventFilter) (on : Bool) (r : Resource) → Switched f on r → resource_allowed f r ≡ on
unfolding resource_allowed
resource_allowed-Switched f on _ (task_runs h) = h
resource_allowed-Switched f on _ (pipeline_runs h) = h
resource_allowed-Switched f on _ (custom_runs h) = h
resource_allowed-Switched f on _ (event_listeners h) = h
resource_allowed-Switched f on r (unknown _ k h) = ground (arith, double_negation on)

-- A switch is on or off.
either_way :
    (f : EventFilter) (r : Resource) (b : Bool)
    → ((on : Bool) → b ≡ on → Switched f on r)
    → Switched f true r ⊎ Switched f false r
either_way f r true h = inl (h true refl)
either_way f r false h = inr (h false refl)

pub Switched-cases : (f : EventFilter) (r : Resource) → Switched f true r ⊎ Switched f false r
Switched-cases f r = elim (Bool-cases (r == "taskrun")) [
  | inl t ↦ rw ((eq_iff r "taskrun").0 t) (either_way f _ f.allow_task_run (λ on h. task_runs h))
  | inr not_t ↦ elim (Bool-cases (r == "pipelinerun")) [
    | inl p ↦
        rw ((eq_iff r "pipelinerun").0 p)
          (either_way f _ f.allow_pipeline_run (λ on h. pipeline_runs h))
    | inr not_p ↦ elim (Bool-cases (r == "customrun")) [
      | inl c ↦
          rw ((eq_iff r "customrun").0 c)
            (either_way f _ f.allow_custom_run (λ on h. custom_runs h))
      | inr not_c ↦ elim (Bool-cases (r == "eventlistener")) [
        | inl l ↦
            rw ((eq_iff r "eventlistener").0 l)
              (either_way f _ f.allow_event_listener (λ on h. event_listeners h))
        | inr not_l ↦
            let k : is_known r ≡ false = rw (not_t, not_p, not_c, not_l) refl in
            elim (Bool-cases f.ignore_unknown) [
              | inl i ↦ inr (unknown r k i)
              | inr i ↦ inl (unknown r k i)
            ]
      ]
    ]
  ]
]
