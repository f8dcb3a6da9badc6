-- ===== src/Status/Ring/Window.antt =====
-- The ring of internal/pipeline/status.go as a window on the outcomes of a handler.
use tekton_events_relay.Prelude.{
  ℕ, suc, ◌+◌, ◌-◌, Bool, false, List, [], ◌∷◌, ◌++◌, ◌≡◌, refl, sym, ap, ◌∙◌, ◌⊎◌, inl, inr, arith,
  length, take, take_all, drop, length-append, append_assoc, append-nil, min, subst,
}
use tekton_events_relay.Status.Ring.{
  HandlerRing, new_ring, replicate, set, record_outcome, count_failures, failures,
}

-- The outcomes of a handler, in their order.
unfoldable pub record_all : HandlerRing → List Bool → HandlerRing
record_all r [] = r
record_all r (o ∷ os) = record_all (record_outcome o r) os

-- The ring after the outcomes `h`, cut where the next one goes: not yet full, it holds them all in
-- front of the cut; full, it holds the newest ones, the oldest of them behind the cut.
record Layout (h : List Bool) (r : HandlerRing) : Type 0 where
  older : List Bool
  before : List Bool
  next : Bool
  after : List Bool
  entries : r.entries ≡ before ++ next ∷ after
  index : r.index ≡ length before
  size : length before + suc (length after) ≡ 100
  held :
      ((r.count ≡ length before) × (h ≡ before))
      ⊎ ((r.count ≡ 100) × (h ≡ older ++ (next ∷ after ++ before)))

set-append : (xs ys : List Bool) (y v : Bool) → set (xs ++ y ∷ ys) (length xs) v ≡ xs ++ v ∷ ys
set-append [] ys y v = refl
set-append (x ∷ xs) ys y v = ap (λ l. x ∷ l) (set-append xs ys y v)

count_failures-append :
    (xs ys : List Bool) → count_failures (xs ++ ys) ≡ count_failures xs + count_failures ys
unfolding count_failures
count_failures-append [] ys = ground arith
count_failures-append (x ∷ xs) ys = ground (arith, count_failures-append xs ys)

take-before : (xs ys : List Bool) → take (length xs) (xs ++ ys) ≡ xs
take-before [] ys = ground arith
take-before (x ∷ xs) ys = ap (λ l. x ∷ l) (take-before xs ys)

drop-before : (xs ys : List Bool) → drop (length xs) (xs ++ ys) ≡ ys
drop-before [] ys = ground arith
drop-before (x ∷ xs) ys = drop-before xs ys

shift :
    (o r b : List Bool) (x v : Bool)
    → (o ++ x ∷ (r ++ b)) ++ v ∷ [] ≡ (o ++ x ∷ []) ++ (r ++ (b ++ v ∷ []))
shift o r b x v =
    append_assoc o (x ∷ (r ++ b)) (v ∷ [])
    ∙ ap (λ l. o ++ x ∷ l) (append_assoc r b (v ∷ []))
    ∙ sym (append_assoc o (x ∷ []) (r ++ (b ++ v ∷ [])))

-- What one more outcome writes.
written :
    (v : Bool) (r : HandlerRing) (before after : List Bool) (next : Bool)
    → r.entries ≡ before ++ next ∷ after
    → r.index ≡ length before
    → set r.entries r.index v ≡ before ++ v ∷ after
written v r before after next e i =
    ap (λ (p : List Bool × ℕ). set p.0 p.1 v) (λ k. (e k, i k)) ∙ set-append before after next v

Held : List Bool → ℕ → List Bool → List Bool → List Bool → Type 0
Held h count older before behind =
    ((count ≡ length before) × (h ≡ before)) ⊎ ((count ≡ 100) × (h ≡ older ++ (behind ++ before)))

step_inside :
    (h : List Bool) (v : Bool) (r : HandlerRing) (older before : List Bool) (next y : Bool)
    (ys : List Bool)
    → r.entries ≡ before ++ next ∷ y ∷ ys
    → r.index ≡ length before
    → length before + suc (suc (length ys)) ≡ 100
    → Held h r.count older before (next ∷ y ∷ ys)
    → Layout (h ++ v ∷ []) (record_outcome v r)
unfolding record_outcome Held
step_inside h v r older before next y ys e i size held = record {
  older = older ++ next ∷ [];
  before = before ++ v ∷ [];
  next = y;
  after = ys;
  entries = written v r before (y ∷ ys) next e i ∙ sym (append_assoc before (v ∷ []) (y ∷ ys));
  index = ground (arith, i, length-append before (v ∷ []));
  size = omega (arith, length-append before (v ∷ []));
  held = elim held [
    | inl (c, same) ↦
        inl (ground (arith, c, length-append before (v ∷ [])), ap (λ l. l ++ v ∷ []) same)
    | inr (c, same) ↦
        inr (ground (arith, c), ap (λ l. l ++ v ∷ []) same ∙ shift older (y ∷ ys) before next v)
  ];
}

step_round :
    (h : List Bool) (v : Bool) (r : HandlerRing) (older : List Bool) (b : Bool) (bs : List Bool)
    (next : Bool)
    → r.entries ≡ (b ∷ bs) ++ next ∷ []
    → r.index ≡ length (b ∷ bs)
    → length (b ∷ bs) + 1 ≡ 100
    → Held h r.count older (b ∷ bs) (next ∷ [])
    → Layout (h ++ v ∷ []) (record_outcome v r)
unfolding record_outcome Held
step_round h v r older b bs next e i size (inl (c, same)) = record {
  older = [];
  before = [];
  next = b;
  after = bs ++ v ∷ [];
  entries = written v r (b ∷ bs) [] next e i;
  index = ground (arith, i);
  size = omega (arith, length-append bs (v ∷ []));
  held =
      inr (ground (arith, c), ap (λ l. l ++ v ∷ []) same ∙ sym (append-nil ((b ∷ bs) ++ v ∷ [])));
}
step_round h v r older b bs next e i size (inr (c, same)) = record {
  older = older ++ next ∷ [];
  before = [];
  next = b;
  after = bs ++ v ∷ [];
  entries = written v r (b ∷ bs) [] next e i;
  index = ground (arith, i);
  size = omega (arith, length-append bs (v ∷ []));
  held = inr (
    ground (arith, c),
    ap (λ l. l ++ v ∷ []) same
        ∙ shift older [] (b ∷ bs) next v
        ∙ ap (λ l. (older ++ next ∷ []) ++ l) (sym (append-nil ((b ∷ bs) ++ v ∷ []))),
  );
}

step_from :
    (h : List Bool) (v : Bool) (r : HandlerRing) (older before : List Bool) (next : Bool)
    (after : List Bool)
    → r.entries ≡ before ++ next ∷ after
    → r.index ≡ length before
    → length before + suc (length after) ≡ 100
    → Held h r.count older before (next ∷ after)
    → Layout (h ++ v ∷ []) (record_outcome v r)
step_from h v r older before next (y ∷ ys) e i size held =
    step_inside h v r older before next y ys e i size held
step_from h v r older (b ∷ bs) next [] e i size held =
    step_round h v r older b bs next e i (omega (arith, size)) held
step_from h v r older [] next [] e i size held = absurd (omega (arith, size))

Layout-record_outcome :
    (h : List Bool) (v : Bool) (r : HandlerRing)
    → Layout h r
    → Layout (h ++ v ∷ []) (record_outcome v r)
unfolding Held
Layout-record_outcome h v r l =
    step_from h v r l.older l.before l.next l.after l.entries l.index l.size l.held

Layout-record_all :
    (h os : List Bool) (r : HandlerRing) → Layout h r → Layout (h ++ os) (record_all r os)
unfolding record_all
Layout-record_all h [] r l = subst (λ hs. Layout hs r) (sym (append-nil h)) l
Layout-record_all h (o ∷ os) r l =
    subst (λ hs. Layout hs (record_all (record_outcome o r) os)) (append_assoc h (o ∷ []) os)
      (Layout-record_all (h ++ o ∷ []) os (record_outcome o r) (Layout-record_outcome h o r l))

Layout-new : Layout [] new_ring
Layout-new = record {
  older = [];
  before = [];
  next = false;
  after = replicate 99 false;
  entries = refl;
  index = refl;
  size = refl;
  held = inl (refl, refl);
}

-- The newest hundred outcomes.
abbrev pub newest : List Bool → List Bool
newest os = drop (length os - 100) os

newest-older :
    (older behind before : List Bool)
    → length behind + length before ≡ 100
    → newest (older ++ (behind ++ before)) ≡ behind ++ before
newest-older older behind before size =
    ap (λ n. drop n (older ++ (behind ++ before)))
      (omega (arith, length-append older (behind ++ before), length-append behind before))
    ∙ drop-before older (behind ++ before)

failures-filling :
    (r : HandlerRing) (before behind : List Bool)
    → r.entries ≡ before ++ behind
    → r.count ≡ length before
    → failures r ≡ count_failures before
unfolding failures
failures-filling r before behind e c =
    ap (λ (p : ℕ × List Bool). count_failures (take p.0 p.1)) (λ k. (c k, e k))
    ∙ ap count_failures (take-before before behind)

failures-full :
    (r : HandlerRing) (before behind : List Bool)
    → r.entries ≡ before ++ behind
    → r.count ≡ 100
    → length before + length behind ≡ 100
    → failures r ≡ count_failures (behind ++ before)
unfolding failures
failures-full r before behind e c size =
    ap (λ (p : ℕ × List Bool). count_failures (take p.0 p.1)) (λ k. (c k, e k))
    ∙ ap count_failures
        (take_all 100 (before ++ behind) (omega (arith, length-append before behind, size)))
    ∙ omega (arith, count_failures-append before behind, count_failures-append behind before)

window_of :
    (h : List Bool) (r : HandlerRing) (older before behind : List Bool)
    → r.entries ≡ before ++ behind
    → length before + length behind ≡ 100
    → Held h r.count older before behind
    → (r.count ≡ min (length h) 100) × (failures r ≡ count_failures (newest h))
unfolding Held
window_of h r older before behind e size (inl (c, same)) =
    let none_dropped : 0 ≡ length before - 100 = omega (arith, size) in
    rw same (
      omega (arith, c, size),
      failures-filling r before behind e c ∙ ap (λ n. count_failures (drop n before)) none_dropped,
    )
window_of h r older before behind e size (inr (c, same)) = rw same (
  omega (arith, c, size, length-append older (behind ++ before), length-append behind before),
  failures-full r before behind e c size
      ∙ ap count_failures (sym (newest-older older behind before (omega (arith, size)))),
)

-- After any outcomes, the ring counts as many as there were, up to a hundred, and its failures are
-- those among the newest hundred of them.
pub failures-record_all :
    (os : List Bool)
    → let r = record_all new_ring os in
      (r.count ≡ min (length os) 100) × (failures r ≡ count_failures (newest os))
unfolding Held
failures-record_all os =
    let l = Layout-record_all [] os new_ring Layout-new in
    window_of os (record_all new_ring os) l.older l.before (l.next ∷ l.after) l.entries l.size
      l.held
