-- ===== src/Avatar/Events.antt =====
-- AI_Avatar/frontend/events/EventBus.ts. A listener is known by a number, as a function is by its
-- identity; `emit` gives the calls that it makes, in order. Listeners do not change the bus while an
-- event is emitted.
use agent_speak.Base.{
  ℕ, String, Bool, false, ◌||◌, List, [], ◌∷◌, ◌++◌, map, ◌≡◌, refl, ◌==◌, if◌then◌else◌, arith,
  not, ◌&&◌,
}
use agent_speak.Avatar.Types.{AvatarState}

pub data AvatarEvent : Type 0 where
  state_selected loop_completed : AvatarState → AvatarEvent
  renderer_failed : String → AvatarEvent

pub data EventName : Type 0 where
  selected completed failed : EventName

abbrev pub event_name : AvatarEvent → EventName
event_name (state_selected _) = selected
event_name (loop_completed _) = completed
event_name (renderer_failed _) = failed

-- The sets of the listeners of each event, each set in the order of insertion. A set that is missing
-- from the map acts as an empty one.
pub record EventBus : Type 0 where
  pub on_selected : List ℕ
  pub on_completed : List ℕ
  pub on_failed : List ℕ

abbrev pub empty_bus : EventBus
empty_bus = record { on_selected = []; on_completed = []; on_failed = [] }

abbrev pub listeners : EventBus → EventName → List ℕ
listeners bus selected = bus.on_selected
listeners bus completed = bus.on_completed
listeners bus failed = bus.on_failed

abbrev pub with_listeners : EventBus → EventName → List ℕ → EventBus
with_listeners bus selected ls = record bus { on_selected = ls }
with_listeners bus completed ls = record bus { on_completed = ls }
with_listeners bus failed ls = record bus { on_failed = ls }

abbrev pub has : List ℕ → ℕ → Bool
has [] l = false
has (x ∷ xs) l = x == l || has xs l

-- `Set.prototype.add` and `delete`
abbrev pub add : List ℕ → ℕ → List ℕ
add ls l = if has ls l then ls else ls ++ l ∷ []

abbrev pub delete : List ℕ → ℕ → List ℕ
delete [] l = []
delete (x ∷ xs) l = if x == l then xs else x ∷ delete xs l

unfoldable pub on : EventBus → EventName → ℕ → EventBus
on bus name l = with_listeners bus name (add (listeners bus name) l)

unfoldable pub off : EventBus → EventName → ℕ → EventBus
off bus name l = with_listeners bus name (delete (listeners bus name) l)

unfoldable pub emit : EventBus → AvatarEvent → List (ℕ × AvatarEvent)
emit bus e = map (λ l. (l, e)) (listeners bus (event_name e))

unfoldable pub clear : EventBus → EventBus
clear bus = empty_bus

abbrev pub Unique : List ℕ → Type 0
Unique [] = Unit
Unique (x ∷ xs) = (has xs x ≡ false) × Unique xs

has-append : (xs : List ℕ) (l k : ℕ) → has (xs ++ l ∷ []) k ≡ (has xs k || (l == k))
has-append [] l k = ground arith
has-append (x ∷ xs) l k = ground (arith, has-append xs l k)

has-delete : (xs : List ℕ) (l k : ℕ) → Unique xs → has (delete xs l) k ≡ (has xs k && not (l == k))
has-delete [] l k u = refl
has-delete (x ∷ xs) l k u = ground (arith, has-delete xs l k u.1)

-- Subscribing makes a listener the target of the named event, once, and changes nothing for the
-- other events and listeners; unsubscribing takes it away again.
has-on-off :
    (bus : EventBus) (name : EventName) (l k : ℕ)
    → Unique (listeners bus name)
    → (has (listeners (on bus name l) name) k ≡ (has (listeners bus name) k || (l == k)))
      × (has (listeners (off bus name l) name) k ≡ (has (listeners bus name) k && not (l == k)))
unfolding on off
has-on-off bus selected l k u =
    (ground (arith, has-append bus.on_selected l k), has-delete bus.on_selected l k u)
has-on-off bus completed l k u =
    (ground (arith, has-append bus.on_completed l k), has-delete bus.on_completed l k u)
has-on-off bus failed l k u =
    (ground (arith, has-append bus.on_failed l k), has-delete bus.on_failed l k u)
