-- ===== src/Pipeline/Chain/Reasons.antt =====
-- What an event needs to get through the chain, in terms of the event and of the configuration alone.
use mathlib.Core.Bool.{false≢true}
use tekton_events_relay.Prelude.{
  sym, String, true, false, ◌≡◌, ◌≢◌, ◌⊎◌, inl, inr, ◌∙◌, ends_with, is_empty, eq_iff, ◌==◌,
  Bool-cases,
}
use tekton_events_relay.Domain.{Envelope}
use tekton_events_relay.Pipeline.Links.Namespaces.{match_namespace}
use tekton_events_relay.Pipeline.Chain.{Setup}
use tekton_events_relay.Pipeline.Chain.Switches.{Switched, Switched-cases}

text-cases : (s t : String) → (s ≡ t) ⊎ (s ≢ t)
text-cases s t = elim (Bool-cases (s == t)) [
  | inl same ↦ inl ((eq_iff s t).0 same)
  | inr other ↦ inr (λ e. absurd (false≢true (sym other ∙ (eq_iff s t).1 e)))
]

module _ {S : Type 0} (c : Setup S) (env : Envelope) where
  -- Why an event is refused: each is a part of `Admitted` that fails.
  pub data Refused : Type 0 where
    no_id : env.cloud_event_id ≡ "" → Refused
    no_provider : env.report.resource ≢ "eventlistener" → env.report.provider ≡ "" → Refused
    no_name : env.report.run_name ≡ "" → Refused
    unknown_type :
        c.filter.ignore_unknown ≡ true
        → ends_with env.cloud_event_type ".unknown.v1" ≡ true
        → Refused
    switched_off : Switched c.filter false env.report.resource → Refused
    denied :
        match_namespace c.path_match env.report.namespace c.filter.deny_namespaces ≡ true → Refused
    not_allowed :
        is_empty c.filter.allow_namespaces ≡ false
        → match_namespace c.path_match env.report.namespace c.filter.allow_namespaces ≡ false
        → Refused

  -- What an event needs to get through.
  pub record Admitted : Type 0 where
    pub has_id : env.cloud_event_id ≢ ""
    pub has_provider : (env.report.resource ≡ "eventlistener") ⊎ (env.report.provider ≢ "")
    pub has_name : env.report.run_name ≢ ""
    pub known_type :
        (c.filter.ignore_unknown ≡ false) ⊎ (ends_with env.cloud_event_type ".unknown.v1" ≡ false)
    pub switched_on : Switched c.filter true env.report.resource
    pub not_denied :
        match_namespace c.path_match env.report.namespace c.filter.deny_namespaces ≡ false
    pub in_allowed :
        (is_empty c.filter.allow_namespaces ≡ true)
        ⊎ (match_namespace c.path_match env.report.namespace c.filter.allow_namespaces ≡ true)

  -- A required text of the event is there, or the event is refused.
  texts_or_refused :
      ((env.cloud_event_id ≢ "")
        × ((env.report.resource ≡ "eventlistener") ⊎ (env.report.provider ≢ ""))
        × (env.report.run_name ≢ ""))
      ⊎ Refused
  texts_or_refused = elim (text-cases env.cloud_event_id "") [
    | inl id ↦ inr (no_id id)
    | inr id ↦ elim (text-cases env.report.run_name "") [
      | inl name ↦ inr (no_name name)
      | inr name ↦ elim (text-cases env.report.resource "eventlistener") [
        | inl l ↦ inl (id, inl l, name)
        | inr l ↦ elim (text-cases env.report.provider "") [
          | inl p ↦ inr (no_provider l p)
          | inr p ↦ inl (id, inr p, name)
        ]
      ]
    ]
  ]

  type_or_refused :
      ((c.filter.ignore_unknown ≡ false) ⊎ (ends_with env.cloud_event_type ".unknown.v1" ≡ false))
      ⊎ Refused
  type_or_refused = elim (Bool-cases c.filter.ignore_unknown) [
    | inr off ↦ inl (inl off)
    | inl on ↦ elim (Bool-cases (ends_with env.cloud_event_type ".unknown.v1")) [
      | inl u ↦ inr (unknown_type on u)
      | inr u ↦ inl (inr u)
    ]
  ]

  allowed_or_refused :
      ((is_empty c.filter.allow_namespaces ≡ true)
        ⊎ (match_namespace c.path_match env.report.namespace c.filter.allow_namespaces ≡ true))
      ⊎ Refused
  allowed_or_refused = elim (Bool-cases (is_empty c.filter.allow_namespaces)) [
    | inl none_ ↦ inl (inl none_)
    | inr some_ ↦
        elim (Bool-cases
          (match_namespace c.path_match env.report.namespace c.filter.allow_namespaces)) [
            | inl m ↦ inl (inr m)
            | inr m ↦ inr (not_allowed some_ m)
          ]
  ]

  pub admitted_or_refused : Admitted ⊎ Refused
  admitted_or_refused = elim texts_or_refused [
    | inr r ↦ inr r
    | inl (id, provider, name) ↦ elim type_or_refused [
      | inr r ↦ inr r
      | inl t ↦ elim (Switched-cases c.filter env.report.resource) [
        | inr off ↦ inr (switched_off off)
        | inl on ↦
            elim (Bool-cases
              (match_namespace c.path_match env.report.namespace c.filter.deny_namespaces)) [
                | inl d ↦ inr (denied d)
                | inr d ↦ elim allowed_or_refused [
                  | inr r ↦ inr r
                  | inl a ↦ inl (record {
                    has_id = id;
                    has_provider = provider;
                    has_name = name;
                    known_type = t;
                    switched_on = on;
                    not_denied = d;
                    in_allowed = a;
                  })
                ]
              ]
      ]
    ]
  ]
