-- ===== src/Gateway/Command.antt =====
-- What the operator's FROZEN does, through Redis and the gate, to the transfers that arrive.
use sentinelai_v.Prelude.{
  String, ◌≡◌, refl, sym, subst, Bool, true, false, Option, none, some, Option-cases, Bool-cases,
  inl, inr, List, [], ◌∷◌, All, ◌==◌,
}
use sentinelai_v.Prelude.Result.{ok}
use sentinelai_v.Float.{Float}
use sentinelai_v.Database.{Db}
use sentinelai_v.RustCore.{Core}
use sentinelai_v.Gateway.{
  frozen, RecoveryState, parse_mode, sync_rate, sync_once, ControlKeys, set_mode, security_gate,
}
use sentinelai_v.Gateway.Serve.{Arrival, Answer, refused, serve}
use sentinelai_v.Gateway.Plane.{
  Text, Plane, Happening, commands, syncs, requests, restarts, command_line, reading, synced,
  arrival_at, happen, happen_all, answers,
}

abbrev pub IsSystemFrozen : Answer → Type 0
IsSystemFrozen x = x ≡ refused 503 "SYSTEM_FROZEN"

-- No command and no restart.
abbrev pub IsQuiet : Happening → Type 0
IsQuiet (commands args) = ⊥
IsQuiet (syncs f g) = Unit
IsQuiet (requests a) = Unit
IsQuiet restarts = ⊥

-- FROZEN stands in Redis, and the gateway has taken it over.
record IsHalted (p : Plane) : Type 0 where
  key : p.keys.mode_key ≡ some "FROZEN"
  mode : p.state.mode ≡ frozen

-- The arguments after the mode: none, or first a rate that `float` reads.
abbrev pub IsReadable : Text → List String → Type 0
IsReadable py [] = Unit
IsReadable py (rate ∷ rest) = (r : Float) × (py.parse_float rate ≡ some r)

module _ (py : Text) where
  sync_rate-mode :
      (rate : Option String) (state : RecoveryState)
      → (sync_rate py.parse_float rate state).mode ≡ state.mode
  sync_rate-mode none state = refl
  sync_rate-mode (some s) state = elim (Bool-cases (s == "")) [
    | inl empty ↦ rw empty refl
    | inr nonempty ↦ elim (Option-cases (py.parse_float s)) [
      | inl unread ↦ rw (nonempty, unread) refl
      | inr (r, read) ↦ rw (nonempty, read) refl
    ]
  ]

  taken_over :
      (rate : Option String) (state : RecoveryState)
      → (sync_once py.parse_float (ok (some "FROZEN")) (ok rate) state).mode ≡ frozen
  unfolding sync_once parse_mode
  taken_over rate state = sync_rate-mode rate (record state { mode = frozen })

  kept_frozen :
      (f g : Bool) (rate : Option String) (state : RecoveryState)
      → state.mode ≡ frozen
      → (sync_once py.parse_float (reading py f (some "FROZEN")) (reading py g rate) state).mode
        ≡ frozen
  unfolding sync_once
  kept_frozen true g rate state h = h
  kept_frozen false true rate state h = h
  kept_frozen false false rate state h = taken_over rate state

  halted_refuses :
      (a : Arrival) (state : RecoveryState) (db : Db) (core : Core)
      → state.mode ≡ frozen
      → serve (arrival_at py state a) db core ≡ (refused 503 "SYSTEM_FROZEN", db, core)
  unfolding serve security_gate
  halted_refuses a state db core h = elim (Bool-cases core.fail_safe) [
    | inl down ↦ rw down refl
    | inr up ↦ rw (up, h) refl
  ]

  halted-quiet :
      (hs : List Happening) (p : Plane)
      → All IsQuiet hs
      → IsHalted p
      → ((happen_all py hs p).db ≡ p.db)
        × ((happen_all py hs p).core ≡ p.core)
        × All IsSystemFrozen (answers py hs p)
  unfolding happen_all happen answers
  halted-quiet [] p quiet halted = (refl, refl, tt)
  halted-quiet (commands args ∷ hs) p quiet halted = absurd quiet.0
  halted-quiet (restarts ∷ hs) p quiet halted = absurd quiet.0
  halted-quiet (syncs f g ∷ hs) p quiet halted = halted-quiet hs (synced py f g p) quiet.1 (record {
    key = halted.key;
    mode = rw halted.key (kept_frozen f g p.keys.rate_key p.state halted.mode);
  })
  halted-quiet (requests a ∷ hs) p quiet halted =
      let shut = halted_refuses a p.state p.db p.core halted.mode in
      let rest = halted-quiet hs p quiet.1 halted in
      subst
        (λ (x : Answer × Db × Core).
          let q = record p { db = x.1; core = x.2 } in
          ((happen_all py hs q).db ≡ p.db)
          × ((happen_all py hs q).core ≡ p.core)
          × All IsSystemFrozen (x.0 ∷ answers py hs q))
        (sym shut) (rest.0, rest.1, (refl, rest.2))

  -- The keys after the command, whatever they were.
  frozen_keys :
      (mode : String) (args : List String) (keys : ControlKeys)
      → py.upper mode ≡ "FROZEN"
      → IsReadable py args
      → (command_line py (mode ∷ args) keys).1.mode_key ≡ some "FROZEN"
  unfolding command_line set_mode
  frozen_keys mode [] keys named readable = rw named refl
  frozen_keys mode (rate ∷ rest) keys named (r, read) = rw (named, read) refl

  -- Once an operator has given FROZEN, in any case of letters and with no rate or with one that
  -- `float` reads, and one round of the synchronisation has gone through: however many transfers
  -- arrive and rounds succeed or fail, until another command or a restart, every transfer is
  -- answered 503 SYSTEM_FROZEN, and neither the ledger nor the core changes. This holds whatever
  -- stood in Redis and in the gateway before.
  pub frozen_by_command :
      (p : Plane) (mode : String) (args : List String) (hs : List Happening)
      → py.upper mode ≡ "FROZEN"
      → IsReadable py args
      → All IsQuiet hs
      → let q = happen_all py (commands (mode ∷ args) ∷ syncs false false ∷ []) p in
        ((happen_all py hs q).db ≡ p.db)
        × ((happen_all py hs q).core ≡ p.core)
        × All IsSystemFrozen (answers py hs q)
  unfolding happen_all happen
  frozen_by_command p mode args hs named readable quiet =
      let keys = (command_line py (mode ∷ args) p.keys).1 in
      let key = frozen_keys mode args p.keys named readable in
      halted-quiet hs (synced py false false (record p { keys = keys })) quiet
        (record { key = key; mode = rw key (taken_over keys.rate_key p.state) })
