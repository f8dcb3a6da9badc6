-- ===== src/Dlq/File/Bounds.antt =====
-- The size bound of the file: which lines writeAll drops.
use tekton_events_relay.Prelude.{
  ℕ, zero, suc, ◌+◌, ◌-◌, ◌≤◌, List, [], ◌∷◌, ◌≡◌, refl, ap, ◌∙◌, arith, map, ltb, drop, length,
  length-drop, Bool-cases, inl, inr,
}
use tekton_events_relay.Dlq.{DeadEvent}
use tekton_events_relay.Dlq.File.{Codec, FileQueue, bytes, drop_oldest, encode}

module _ {Line : Type 0} (codec : Codec Line) (max_bytes : ℕ) where
  -- The loop starts from the size of its lines.
  abbrev kept : List Line → List Line
  kept ls = drop_oldest codec max_bytes (bytes codec ls) ls

  kept-cons :
      (l : Line) (ls : List Line)
      → drop_oldest codec max_bytes (bytes codec (l ∷ ls) - (codec.size l + 1)) ls ≡ kept ls
  kept-cons l ls = ap (λ n. drop_oldest codec max_bytes n ls) (omega arith)

  -- What writeAll keeps fits the bound.
  bytes-kept : (ls : List Line) → bytes codec (kept ls) ≤ max_bytes
  unfolding drop_oldest
  bytes-kept [] = omega arith
  bytes-kept (l ∷ ls) = ground (arith, kept-cons l ls, bytes-kept ls)

  length-kept-le : (ls : List Line) → length (kept ls) ≤ length ls
  unfolding drop_oldest
  length-kept-le [] = omega arith
  length-kept-le (l ∷ ls) = ground (arith, kept-cons l ls, length-kept-le ls)

  drop-kept : (ls : List Line) → (n : ℕ) × (kept ls ≡ drop n ls)
  unfolding drop_oldest
  drop-kept [] = (0, refl)
  drop-kept (l ∷ ls) =
      let (n, e) = drop-kept ls in
      elim (Bool-cases (ltb max_bytes (bytes codec (l ∷ ls)))) [
        | inl over ↦ (suc n, rw over (kept-cons l ls ∙ e))
        | inr fits ↦ (0, rw fits)
      ]

  kept-largest :
      (ls : List Line) (k : ℕ)
      → bytes codec (drop k ls) ≤ max_bytes
      → length (drop k ls) ≤ length (kept ls)
  unfolding drop_oldest
  kept-largest [] zero h = omega arith
  kept-largest [] (suc k) h = omega arith
  kept-largest (l ∷ ls) zero h = ground (arith)
  kept-largest (l ∷ ls) (suc k) h =
      ground (arith, kept-cons l ls, kept-largest ls k, length-drop k ls)

  kept-all : (ls : List Line) → bytes codec ls ≤ max_bytes → kept ls ≡ ls
  unfolding drop_oldest
  kept-all [] h = refl
  kept-all (l ∷ ls) h = ground arith

module _ {Line : Type 0} (q : FileQueue Line) (entries : List DeadEvent) where
  -- The lines that writeAll writes are the newest ones, in their order, and fit the size bound.
  pub encode_fits :
      (n : ℕ) × (encode q entries ≡ drop n (map q.codec.marshal entries))
      × (bytes q.codec (encode q entries) ≤ q.max_bytes)
  unfolding encode
  encode_fits =
      let ls = map q.codec.marshal entries in
      let (n, e) = drop-kept q.codec q.max_bytes ls in (n, e, bytes-kept q.codec q.max_bytes ls)

  -- No longer row of newest lines would fit the bound than the one that writeAll keeps: it drops
  -- no more than it must.
  pub encode_largest :
      (k : ℕ)
      → bytes q.codec (drop k (map q.codec.marshal entries)) ≤ q.max_bytes
      → length (drop k (map q.codec.marshal entries)) ≤ length (encode q entries)
  unfolding encode
  encode_largest = kept-largest q.codec q.max_bytes (map q.codec.marshal entries)

  pub encode_all :
      bytes q.codec (map q.codec.marshal entries) ≤ q.max_bytes
      → encode q entries ≡ map q.codec.marshal entries
  unfolding encode
  encode_all = kept-all q.codec q.max_bytes (map q.codec.marshal entries)
