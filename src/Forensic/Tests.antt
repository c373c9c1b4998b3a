-- ===== src/Forensic/Tests.antt =====
-- Six events and a tick.
use sentinelai_v.Prelude.{◌≡◌, ◌<◌, refl, List, [], ◌∷◌, length, All}
use sentinelai_v.Prelude.Result.{ok}
use sentinelai_v.Forensic.{audit_event, flush_tick, flush_threshold, Action, event, tick, run}
use sentinelai_v.Forensic.Order.{recorded, events, IsBatch, empty_auditor, audit_keeps_events}

abbrev actions : List Action
actions =
    event "1" ∷ tick ∷ event "2" ∷ event "3" ∷ event "4" ∷ event "5" ∷ event "6" ∷ event "7" ∷ []

two_batches :
    run actions empty_auditor
    ≡ record { buffer = "7" ∷ []; spawned = ("1" ∷ []) ∷ ("2" ∷ "3" ∷ "4" ∷ "5" ∷ "6" ∷ []) ∷ [] }
unfolding run audit_event flush_tick
two_batches = refl

audit_keeps_events_example :
    (recorded (run actions empty_auditor) ≡ events actions)
    × All IsBatch (run actions empty_auditor).spawned
    × (length (run actions empty_auditor).buffer < flush_threshold)
    × ((audit_event "8" (run actions empty_auditor)).0 ≡ ok tt)
audit_keeps_events_example = audit_keeps_events actions "8"
