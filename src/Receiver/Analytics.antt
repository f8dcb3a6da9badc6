-- ===== src/Receiver/Analytics.antt =====
-- dlqAnalyticsHandler of internal/http/dlq.go: what the dead letter queue holds, counted.
use tekton_events_relay.Prelude.{
  ℕ, suc, ◌+◌, ◌*◌, String, Bool, false, Option, none, some, List, [], ◌∷◌, ◌≡◌, ◌≢◌, refl, ap, ◌∙◌,
  arith, Map, lookup, insert, lookup-insert, or_else, eq_iff, ltb, min, length, take, length-take,
  ◌==◌, if◌then◌else◌,
}
use tekton_events_relay.Domain.{Time, Envelope}
use tekton_events_relay.Errors.{Result, ok, err}
use tekton_events_relay.Dlq.{DeadEvent, Queue}

abbrev dlq_analytics_top_causes_limit : ℕ
dlq_analytics_top_causes_limit = 10

-- An hour, in nanoseconds.
abbrev hour : ℕ
hour = 3600000000000

-- The counters of the handler; its three buckets of ages are fields.
record Counters : Type 0 where
  pub causes : Map ℕ
  pub by_provider : Map ℕ
  pub by_state : Map ℕ
  pub lt_1h : ℕ
  pub lt_24h : ℕ
  pub gt_24h : ℕ
  pub total : ℕ

abbrev no_counts : Counters
no_counts = record {
  causes = [];
  by_provider = [];
  by_state = [];
  lt_1h = 0;
  lt_24h = 0;
  gt_24h = 0;
  total = 0;
}

abbrev count_at : String → Map ℕ → ℕ
count_at key m = or_else (lookup key m) 0

-- `m[key]++`
unfoldable bump : String → Map ℕ → Map ℕ
bump key m = insert key (count_at key m + 1) m

abbrev bump_named : String → Map ℕ → Map ℕ
unfolding bump
bump_named key m = if key == "" then m else bump key m

abbrev count_report : Option Envelope → Counters → Counters
count_report none c = c
count_report (some env) c = record c {
  by_provider = bump_named env.report.provider c.by_provider;
  by_state = bump_named env.report.state c.by_state;
}

-- The age is below a bound exactly where now is before the failure and the bound.
abbrev count_age : Time → DeadEvent → Counters → Counters
count_age now e c =
    if ltb now (e.failed_at + hour)
    then record c { lt_1h = c.lt_1h + 1 }
    else if ltb now (e.failed_at + 24 * hour)
    then record c { lt_24h = c.lt_24h + 1 }
    else record c { gt_24h = c.gt_24h + 1 }

-- The callback of Scan.
unfoldable count_event : Time → DeadEvent → Counters → Counters
unfolding bump
count_event now e c =
    count_age now e
      (count_report e.envelope (record c { total = c.total + 1; causes = bump e.cause c.causes }))

unfoldable count_events : Time → List DeadEvent → Counters → Counters
unfolding count_event
count_events now [] c = c
count_events now (e ∷ es) c = count_events now es (count_event now e c)

-- `sorted` is what sort.Slice makes of the causes and their counts.
unfoldable top_causes : (List (String × ℕ) → List (String × ℕ)) → Map ℕ → List (String × ℕ)
top_causes sorted causes =
    if ltb dlq_analytics_top_causes_limit (length (sorted causes))
    then take dlq_analytics_top_causes_limit (sorted causes)
    else sorted causes

record Analysis : Type 0 where
  pub top : List (String × ℕ)
  pub counters : Counters

abbrev analysis_of :
    (List (String × ℕ) → List (String × ℕ)) → Time → Result (List DeadEvent) → Result Analysis
unfolding count_events top_causes
analysis_of sorted now (err e) = err e
analysis_of sorted now (ok es) =
    let c = count_events now es no_counts in
    ok (record { top = top_causes sorted c.causes; counters = c })

-- dlqAnalyticsHandler, for a GET: an error is answered 500.
unfoldable analytics :
    {Q : Type 0}
    → (List (String × ℕ) → List (String × ℕ))
    → Queue Q
    → Time
    → Q
    → Result Analysis × Q
unfolding count_events top_causes
analytics sorted queue now q = let (es, q') = queue.scan q in (analysis_of sorted now es, q')

abbrev is_of : String → Option Envelope → Bool
is_of p none = false
is_of p (some env) = env.report.provider == p

-- How many of the events are of a provider.
unfoldable events_of : String → List DeadEvent → ℕ
events_of p [] = 0
events_of p (e ∷ es) = let rest = events_of p es in if is_of p e.envelope then suc rest else rest

total-count_event :
    (now : Time) (e : DeadEvent) (c : Counters) → (count_event now e c).total ≡ c.total + 1
unfolding count_event
total-count_event now e c = elim e.envelope [ none ↦ ground arith | some env ↦ ground arith ]

buckets-count_event :
    (now : Time) (e : DeadEvent) (c : Counters)
    → c.lt_1h + c.lt_24h + c.gt_24h ≡ c.total
    → let d = count_event now e c in d.lt_1h + d.lt_24h + d.gt_24h ≡ d.total
unfolding count_event
buckets-count_event now e c h = elim e.envelope [ none ↦ ground arith | some env ↦ ground arith ]

-- Every event is counted in one bucket of ages.
buckets-count_events :
    (now : Time) (es : List DeadEvent) (c : Counters)
    → c.lt_1h + c.lt_24h + c.gt_24h ≡ c.total
    → let d = count_events now es c in
      (d.lt_1h + d.lt_24h + d.gt_24h ≡ d.total) × (d.total ≡ c.total + length es)
unfolding count_events
buckets-count_events now [] c h = (h, omega arith)
buckets-count_events now (e ∷ es) c h =
    let (buckets, all) =
      buckets-count_events now es (count_event now e c) (buckets-count_event now e c h) in
    (buckets, all ∙ ground (arith, total-count_event now e c))

count_at-bump_named :
    (p key : String) (m : Map ℕ)
    → p ≢ ""
    → count_at p (bump_named key m) ≡ (if key == p then suc (count_at p m) else count_at p m)
unfolding bump
count_at-bump_named p key m named =
    ground
      (arith, lookup-insert key p (count_at key m + 1) m, eq_iff key "", eq_iff key p, eq_iff p "")

by_provider-count_age :
    (now : Time) (e : DeadEvent) (c : Counters) → (count_age now e c).by_provider ≡ c.by_provider
by_provider-count_age now e c = ground arith

by_provider-count_report :
    (p : String) (env : Option Envelope) (c : Counters)
    → p ≢ ""
    → count_at p (count_report env c).by_provider
      ≡ (if is_of p env then suc (count_at p c.by_provider) else count_at p c.by_provider)
by_provider-count_report p none c named = refl
by_provider-count_report p (some env) c named =
    count_at-bump_named p env.report.provider c.by_provider named

by_provider-count_event :
    (now : Time) (p : String) (e : DeadEvent) (c : Counters)
    → p ≢ ""
    → count_at p (count_event now e c).by_provider
      ≡ (if is_of p e.envelope then suc (count_at p c.by_provider) else count_at p c.by_provider)
unfolding count_event
by_provider-count_event now p e c named =
    let counted : Counters = record c { total = c.total + 1; causes = bump e.cause c.causes } in
    ap (count_at p) (by_provider-count_age now e (count_report e.envelope counted))
    ∙ by_provider-count_report p e.envelope counted named

-- A provider is counted as often as events of it are in the queue.
by_provider-count_events :
    (now : Time) (p : String) (es : List DeadEvent) (c : Counters)
    → p ≢ ""
    → count_at p (count_events now es c).by_provider ≡ count_at p c.by_provider + events_of p es
unfolding count_events events_of
by_provider-count_events now p [] c named = omega arith
by_provider-count_events now p (e ∷ es) c named = ground (
  arith,
  by_provider-count_events now p es (count_event now e c) named,
  by_provider-count_event now p e c named,
)

length-top_causes :
    (sorted : List (String × ℕ) → List (String × ℕ)) (causes : Map ℕ)
    → length (top_causes sorted causes) ≡ min 10 (length (sorted causes))
unfolding top_causes
length-top_causes sorted causes = ground (arith, length-take 10 (sorted causes))
