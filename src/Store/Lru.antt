-- ===== src/Store/Lru.antt =====
-- The cache of github.com/hashicorp/golang-lru as the program uses it, a parameter of the models.
use tekton_events_relay.Prelude.{String, Option, none, some, ◌≡◌, ◌==◌, ◌⊎◌, if◌then◌else◌}

-- `peek` is what the cache holds at a key, without the use of it counting. Its documentation: Get
-- returns that, and counts as a use; Add puts the value in, and may evict entries of other keys;
-- Remove takes one out; Purge takes all out. That an entry expires is a step between the calls.
pub record LruCache (C : Type 0) (V : Type 0) : Type 0 where
  pub get : String → C → Option V × C
  pub add : String → V → C → C
  pub remove : String → C → C
  pub purge : C → C
  pub peek : String → C → Option V
  pub get-peek : (k : String) (c : C) → (get k c).0 ≡ peek k c
  pub peek-get : (k j : String) (c : C) → peek j (get k c).1 ≡ peek j c
  pub peek-add_self : (k : String) (v : V) (c : C) → peek k (add k v c) ≡ some v
  pub peek-add_other :
      (k j : String) (v : V) (c : C)
      → (peek j (add k v c) ≡ peek j c) ⊎ (peek j (add k v c) ≡ none) ⊎ (k ≡ j)
  pub peek-remove :
      (k j : String) (c : C) → peek j (remove k c) ≡ (if k == j then none else peek j c)
  pub peek-purge : (j : String) (c : C) → peek j (purge c) ≡ none
