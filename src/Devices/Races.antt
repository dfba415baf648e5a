-- ===== src/Devices/Races.antt =====
-- frontend/realtime/src/audio/realtimeClient.ts: calls that come while a start waits.
use agent_speak.Base.{ℕ, Bool, false, [], ◌∷◌, none, some, ◌==◌, ◌≡◌, arith}
use agent_speak.Devices.Client.{
  World, start_guard, start_granted, start_loaded, start_opened, stop, device_change, not_approved,
}
use agent_speak.Devices.Release.{IsReleased}

-- A start whose guards are passed, with the devices changing before its stream is granted.
abbrev pub start_across_change : ℕ → ℕ → ℕ → Bool → World → World
start_across_change stream context socket connected w =
    start_opened (start_loaded socket (start_granted stream context (device_change connected w)))

-- The change withdraws the approval of the gate and stops the client, but a start that waits for its
-- stream goes on: it ends with a stream, a context and a socket open, though another start would be
-- refused for want of an approved gate.
pub start_across_change_active :
    (w : World) (stream context socket : ℕ) (connected : Bool)
    → IsReleased w
    → start_guard w.client ≡ none
    → let after = start_across_change stream context socket connected w in
      (after.streams ≡ stream ∷ [])
      × (after.sockets ≡ socket ∷ [])
      × (after.contexts ≡ context ∷ [])
      × (start_guard after.client ≡ some not_approved)
unfolding start_guard start_granted start_loaded start_opened device_change stop
start_across_change_active w stream context socket connected r g = ground arith

-- Two starts that both wait for their streams, and a stop when both are done.
abbrev pub two_starts : (first second : ℕ) → (c d s t : ℕ) → World → World
two_starts first second c d s t w =
    let both = start_granted second d (start_granted first c w) in
    stop "user" false (start_opened (start_loaded t (start_opened (start_loaded s both))))

-- Both pass the guards, the second stream takes the first one's place, and the stop leaves the first
-- stream open with nothing that could stop it.
pub two_starts_leak :
    (w : World) (first second c d s t : ℕ)
    → IsReleased w
    → start_guard w.client ≡ none
    → (first == second) ≡ false
    → let after = two_starts first second c d s t w in
      (after.streams ≡ first ∷ []) × (after.client.stream ≡ none)
unfolding start_granted start_loaded start_opened stop
two_starts_leak w first second c d s t r g h = ground arith
