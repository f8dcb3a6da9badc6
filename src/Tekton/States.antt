-- ===== src/Tekton/States.antt =====
-- What a decoded run event says.
use Prim.Native.String.{String}
use Prim.Native.Char.{code}
use tekton_events_relay.Prelude.{
  ℕ, zero, suc, ◌-◌, ◌≤◌, Bool, true, false, Option, none, some, ◌≡◌, refl, arith, ends_with,
  rune_count, rune_count-append, if◌then◌else◌, ◌∙◌,
}
use tekton_events_relay.Tekton.{
  RunObject, width, byte_length, byte_prefix, broken, shortened, described, condition_message,
  default_description, description_for,
}

rune_count-byte_length : (s : String) → rune_count s ≤ byte_length s
unfolding rune_count byte_length
rune_count-byte_length String.[] = ground arith
rune_count-byte_length (String.◌∷◌ c s) = ground (arith, rune_count-byte_length s)

rune_count-broken : (n : ℕ) → rune_count (broken n) ≡ n
unfolding rune_count broken
rune_count-broken zero = refl
rune_count-broken (suc n) = rune_count-append "�" (broken n) ∙ ground (arith, rune_count-broken n)

rune_count-byte_prefix : (n : ℕ) (s : String) → rune_count (byte_prefix n s) ≤ n
unfolding rune_count byte_prefix
rune_count-byte_prefix n String.[] = ground arith
rune_count-byte_prefix n (String.◌∷◌ c s) =
    ground (arith, rune_count-byte_prefix (n - width (code c)) s, rune_count-broken n)

rune_count-shortened : (m : String) → rune_count (shortened m) ≤ 140
unfolding rune_count
rune_count-shortened m = ground (
  arith,
  rune_count-byte_length m,
  rune_count-append (byte_prefix 137 m) "...",
  rune_count-byte_prefix 137 m,
)

record Short (s : String) : Type 0 where
  short : rune_count s ≤ 140

Short-if : {s t : String} (b : Bool) → Short s → Short t → Short (if b then s else t)
Short-if true hs ht = hs
Short-if false hs ht = ht

rune_count-default : (t : String) → Short (default_description t)
unfolding rune_count
rune_count-default t =
    let final : Short "" = record { short = ground arith } in
    let failed : Short "Failed" = record { short = ground arith } in
    let queued : Short "Queued" = record { short = ground arith } in
    let started : Short "Started" = record { short = ground arith } in
    let running : Short "Running" = record { short = ground arith } in
    let succeeded : Short "Succeeded" = record { short = ground arith } in
    let canceled : Short "Canceled" = record { short = ground arith } in
    let error : Short "Error" = record { short = ground arith } in
    Short-if (ends_with t ".queued.v1") queued (
      Short-if (ends_with t ".started.v1") started (
        Short-if (ends_with t ".running.v1") running (
          Short-if (ends_with t ".successful.v1") succeeded (
            Short-if (ends_with t ".failed.v1") failed (
              Short-if (ends_with t ".cancelled.v1") canceled
                (Short-if (ends_with t ".error.v1") error final))))))

described-bound : (m : Option String) (t : String) → rune_count (described m t) ≤ 140
described-bound none t = (rune_count-default t).short
described-bound (some m) t = rune_count-shortened m

-- Whatever message the run carries, its description has at most 140 characters.
pub description_for-bound :
    (obj : RunObject) (t : String) → rune_count (description_for obj t) ≤ 140
unfolding description_for
description_for-bound obj t = described-bound (condition_message obj.status.conditions) t
