-- ===== src/Scenarios/Rings.antt =====
-- The ring of outcomes, run.
use tekton_events_relay.Prelude.{[], ◌∷◌, true, false, ◌≡◌}
use tekton_events_relay.Status.Ring.{new_ring, failures, count_failures}
use tekton_events_relay.Status.Ring.Window.{record_all, failures-record_all}

failures-record_all_example :
    ((record_all new_ring (true ∷ false ∷ [])).count ≡ 2)
    × (failures (record_all new_ring (true ∷ false ∷ [])) ≡ count_failures (true ∷ false ∷ []))
failures-record_all_example = failures-record_all (true ∷ false ∷ [])
