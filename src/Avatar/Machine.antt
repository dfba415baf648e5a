-- ===== src/Avatar/Machine.antt =====
-- AI_Avatar/frontend/controllers: AvatarStateMachine, StateTransitionController, VisemeController.
use agent_speak.Base.{
  ℕ, ◌≡◌, refl, String, Bool, true, false, ◌||◌, List, [], ◌∷◌, Option, none, some, arith,
  if◌then◌else◌,
}
use agent_speak.Avatar.Types.{AvatarState, same_state, same_state_iff}
use agent_speak.Avatar.Events.{EventBus, AvatarEvent, state_selected, loop_completed, emit}

pub record AvatarStateMachine : Type 0 where
  pub playing_state : AvatarState
  pub pending_state : Option AvatarState

abbrev pub new_machine : AvatarState → AvatarStateMachine
new_machine initial = record { playing_state = initial; pending_state = none }

abbrev pub machine_select : AvatarStateMachine → AvatarState → AvatarStateMachine × Bool
machine_select m state =
    if same_state state m.playing_state
    then (record m { pending_state = none }, false)
    else (record m { pending_state = some state }, true)

abbrev pub complete_loop : AvatarStateMachine → AvatarStateMachine × Bool
complete_loop m = elim m.pending_state [
  | none ↦ (m, false)
  | some state ↦ (record { playing_state = state; pending_state = none }, true)
]

abbrev pub clear_pending : AvatarStateMachine → AvatarStateMachine
clear_pending m = record m { pending_state = none }

-- The controller shares its machine and its bus with the scheduler.
pub record Transitions : Type 0 where
  pub machine : AvatarStateMachine
  pub unavailable : List AvatarState
  pub bus : EventBus

abbrev pub Calls : Type 0
Calls = List (ℕ × AvatarEvent)

abbrev pub is_in : List AvatarState → AvatarState → Bool
is_in [] s = false
is_in (x ∷ xs) s = same_state x s || is_in xs s

abbrev pub remove_state : List AvatarState → AvatarState → List AvatarState
remove_state [] s = []
remove_state (x ∷ xs) s = if same_state x s then remove_state xs s else x ∷ remove_state xs s

-- The new controller, the result, and the calls of listeners.
unfoldable pub select : Transitions → AvatarState → Transitions × Bool × Calls
select c state =
    let (m, selected) = machine_select c.machine state in
    if is_in c.unavailable state
    then (c, false, [])
    else if selected
    then (record c { machine = m }, true, emit c.bus (state_selected state))
    else (record c { machine = m }, false, [])

unfoldable pub on_loop_boundary : Transitions → Transitions × Bool × Calls
on_loop_boundary c =
    let (m, changed) = complete_loop c.machine in
    (record c { machine = m }, changed, emit c.bus (loop_completed c.machine.playing_state))

unfoldable pub set_available : Transitions → AvatarState → Bool → Transitions
set_available c state true = record c { unavailable = remove_state c.unavailable state }
set_available c state false = record c {
  unavailable = if is_in c.unavailable state then c.unavailable else state ∷ c.unavailable;
}

pub select-playing :
    (c : Transitions) (state : AvatarState)
    → (select c state).0.machine.playing_state ≡ c.machine.playing_state
unfolding select
select-playing c state = ground arith

pub set_available-playing :
    (c : Transitions) (state : AvatarState) (b : Bool)
    → (set_available c state b).machine.playing_state ≡ c.machine.playing_state
unfolding set_available
set_available-playing c state true = refl
set_available-playing c state false = refl

is_in-remove_state : (xs : List AvatarState) (s : AvatarState) → is_in (remove_state xs s) s ≡ false
is_in-remove_state [] s = refl
is_in-remove_state (x ∷ xs) s = ground (arith, is_in-remove_state xs s)

-- A state that is not being played is refused once it was made unavailable, with nothing changed and
-- no listener called; when it is available again, selecting it makes it the next state and tells the
-- listeners.
select-set_available :
    (c : Transitions) (state : AvatarState)
    → same_state state c.machine.playing_state ≡ false
    → let off = set_available c state false in
      let back = set_available off state true in
      (select off state ≡ (off, false, []))
      × ((select back state).0.machine.pending_state ≡ some state)
      × ((select back state).1 ≡ true)
      × ((select back state).2 ≡ emit c.bus (state_selected state))
unfolding select set_available
select-set_available c state other = ground (
  arith,
  same_state_iff state state,
  is_in-remove_state c.unavailable state,
  is_in-remove_state (state ∷ c.unavailable) state,
)

-- `VisemeUnavailableError` is the refusal of a controller that is not enabled.
unfoldable pub set_viseme : Bool → String → Option String
set_viseme true viseme = none
set_viseme false viseme = some "viseme animation is unavailable in the motion lab MVP"
