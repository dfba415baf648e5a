-- ===== src/Resources/Waiting.antt =====
-- frontend/realtime/src/resources.ts: the wait for an operation ends, and how it ends.
use agent_speak.Base.{
  ℕ, zero, suc, ◌+◌, ◌*◌, min, max, ◌≤◌, ◌<◌, ◌≡◌, refl, ◌∙◌, ◌⊎◌, inl, inr, Bool, true, false,
  List, [], ◌∷◌, arith, ltb, lt→ltb, Bool-cases, not,
}
use agent_speak.Resources.Operation.{ResourceOperation, is_terminal}
use agent_speak.Resources.Request.{api, Requested, received, thrown, request_operation}
use agent_speak.Resources.Poll.{
  Service, Notice, phase_seen, reconnect, Outcome, returned, failed, out_of_fuel, timeout_error,
  Round, finish, again, backoff, is_refusal, settle, round, notify, wait_loop,
  wait_for_resource_operation,
}

-- How a wait may end.
abbrev pub Settled : Outcome → Type 0
Settled (returned op) = is_terminal op.phase ≡ true
Settled (failed cause) = (is_refusal cause ≡ true) ⊎ (cause ≡ api timeout_error)
Settled out_of_fuel = ⊥

notify-outcome : (ns : List Notice) (r : Outcome × List Notice) → (notify ns r).0 ≡ r.0
notify-outcome [] r = refl
notify-outcome (n ∷ ns) r = notify-outcome ns r

Round-cases :
    (r : Round)
    → ((o : Outcome) × (ns : List Notice) × (r ≡ finish o ns))
      ⊎ ((d : ℕ) × (ns : List Notice) × (r ≡ again d ns))
Round-cases (finish o ns) = inl (o, ns, refl)
Round-cases (again d ns) = inr (d, ns, refl)

settle-Settled :
    (interval delay : ℕ) (q : Requested) (o : Outcome) (ns : List Notice)
    → settle interval delay q ≡ finish o ns
    → Settled o
settle-Settled interval delay (received op) o ns h = ground arith
settle-Settled interval delay (thrown cause) o ns h = ground arith

settle-delay :
    (interval delay : ℕ) (q : Requested) (d : ℕ) (ns : List Notice)
    → settle interval delay q ≡ again d ns
    → (min interval 2000 ≤ d) × (d ≤ max interval 2000)
settle-delay interval delay (received op) d ns h = ground arith
settle-delay interval delay (thrown cause) d ns h = ground arith

-- One turn of the loop, by what the round makes of the reply.
wait_loop_late :
    (env : Service) (interval deadline fuel n now delay : ℕ)
    → ltb now deadline ≡ false
    → wait_loop env interval deadline (suc fuel) n now delay ≡ (failed (api timeout_error), [])
unfolding wait_loop
wait_loop_late env interval deadline fuel n now delay h = ground arith

wait_loop_finish :
    (env : Service) (interval deadline fuel n now delay : ℕ) (o : Outcome) (ns : List Notice)
    → ltb now deadline ≡ true
    → round interval delay (env.reply n) ≡ finish o ns
    → (wait_loop env interval deadline (suc fuel) n now delay).0 ≡ o
unfolding wait_loop
wait_loop_finish env interval deadline fuel n now delay o ns h r = ground arith

wait_loop_again :
    (env : Service) (interval deadline fuel n now delay d : ℕ) (ns : List Notice)
    → ltb now deadline ≡ true
    → round interval delay (env.reply n) ≡ again d ns
    → (wait_loop env interval deadline (suc fuel) n now delay).0
      ≡ (wait_loop env interval deadline fuel (suc n) (now + env.cost n + d) d).0
unfolding wait_loop
wait_loop_again env interval deadline fuel n now delay d ns h r = ground (
  arith,
  notify-outcome ns (wait_loop env interval deadline fuel (suc n) (now + env.cost n + d) d),
)

wait_loop-Settled :
    (env : Service) (interval deadline fuel n now delay : ℕ)
    → 0 < interval
    → deadline < now + fuel
    → 0 < fuel
    → Settled (wait_loop env interval deadline fuel n now delay).0
wait_loop-Settled env interval deadline zero n now delay i h f = elim f [ ]
wait_loop-Settled env interval deadline (suc fuel) n now delay i h f =
    elim (Bool-cases (ltb now deadline)) [
      | inr late ↦ rw (wait_loop_late env interval deadline fuel n now delay late) (inr refl)
      | inl early ↦ elim (Round-cases (round interval delay (env.reply n))) [
        | inl (o, ns, r) ↦
            rw (wait_loop_finish env interval deadline fuel n now delay o ns early r) (
              settle-Settled interval delay (request_operation (env.reply n)) o ns
                (unfold round in r))
        | inr (d, ns, r) ↦
            let b =
              settle-delay interval delay (request_operation (env.reply n)) d ns
                (unfold round in r) in
            rw (wait_loop_again env interval deadline fuel n now delay d ns early r) (
              wait_loop-Settled env interval deadline fuel (suc n) (now + env.cost n + d) d i
                (omega (arith, b)) (ground (arith, b)))
      ]
    ]

-- With a poll interval of a millisecond or more the wait always ends, within as many rounds as the
-- timeout has milliseconds and two more: with an operation in a terminal phase, with an error whose
-- status is below 500, or with the timeout error.
pub wait-Settled :
    (env : Service) (interval timeout fuel start : ℕ)
    → 0 < interval
    → timeout + 1 < fuel
    → Settled (wait_for_resource_operation env interval timeout fuel start).0
unfolding wait_for_resource_operation
wait-Settled env interval timeout fuel start i h =
    wait_loop-Settled env interval (start + timeout) fuel 0 start interval i (omega arith)
      (omega arith)

-- A reply after which the loop goes on.
abbrev pub is_transient : Requested → Bool
is_transient (received op) = not (is_terminal op.phase)
is_transient (thrown cause) = not (is_refusal cause)

settle-transient :
    (interval delay : ℕ) (q : Requested)
    → is_transient q ≡ true
    → (d : ℕ) × (ns : List Notice) × (settle interval delay q ≡ again d ns)
settle-transient interval delay (received op) h = (interval, phase_seen op.phase ∷ [], ground arith)
settle-transient interval delay (thrown cause) h =
    (backoff interval delay, reconnect ∷ [], ground arith)

settle-delay_max :
    (interval delay : ℕ) (q : Requested) (d : ℕ) (ns : List Notice)
    → settle interval delay q ≡ again d ns
    → d ≤ max interval 2000
settle-delay_max interval delay q d ns h = (settle-delay interval delay q d ns h).1

-- The loop from round `n`, with `left` transient replies before the one that ends it.
wait_loop-returns :
    (env : Service) (interval deadline last cost : ℕ) (op : ResourceOperation)
    → ((j : ℕ) → j < last → is_transient (request_operation (env.reply j)) ≡ true)
    → request_operation (env.reply last) ≡ received op
    → is_terminal op.phase ≡ true
    → ((j : ℕ) → env.cost j ≤ cost)
    → (left fuel n now delay : ℕ) → n + left ≡ last
    → left < fuel
    → now + left * (cost + max interval 2000) < deadline
    → (wait_loop env interval deadline fuel n now delay).0 ≡ returned op
unfolding round
wait_loop-returns env interval deadline last cost op ts r t cs left zero n now delay e f h =
    elim f [ ]
wait_loop-returns env interval deadline last cost op ts r t cs zero (suc fuel) n now delay e f h =
    let here : n ≡ last = omega arith in
    wait_loop_finish env interval deadline fuel n now delay (returned op) (phase_seen op.phase ∷ [])
      (lt→ltb _ _ (omega arith)) (rw (here, r, t))
wait_loop-returns env interval deadline last cost op ts r t cs (suc left) (suc fuel) n now delay e f
      h =
    let (d, ns, goes) =
      settle-transient interval delay (request_operation (env.reply n)) (ts n (omega arith)) in
    wait_loop_again env interval deadline fuel n now delay d ns (lt→ltb _ _ (omega arith)) goes
    ∙ wait_loop-returns env interval deadline last cost op ts r t cs left fuel (suc n)
        (now + env.cost n + d) d (omega arith) (omega arith)
        (omega (
          arith,
          cs n,
          settle-delay_max interval delay (request_operation (env.reply n)) d ns goes,
        ))

-- Answers that fail on the way or with a status of 500 or more, that are no valid operation, or that
-- show a phase that is not terminal, do not end the wait: if the first terminal operation comes
-- after `last` of them, and `last` rounds with the longest pause fit in the timeout, it is returned.
pub wait-returns :
    (env : Service) (interval timeout fuel start last cost : ℕ) (op : ResourceOperation)
    → ((j : ℕ) → j < last → is_transient (request_operation (env.reply j)) ≡ true)
    → request_operation (env.reply last) ≡ received op
    → is_terminal op.phase ≡ true
    → ((j : ℕ) → env.cost j ≤ cost)
    → last * (cost + max interval 2000) < timeout
    → last < fuel
    → (wait_for_resource_operation env interval timeout fuel start).0 ≡ returned op
unfolding wait_for_resource_operation
wait-returns env interval timeout fuel start last cost op ts r t cs h f =
    wait_loop-returns env interval (start + timeout) last cost op ts r t cs last fuel 0 start
      interval (omega arith) f (omega arith)
