-- ===== src/Page/Quiet.antt =====
-- frontend/realtime/src/App.tsx: the microphone is open only while the page is active.
use mathlib.Core.Path.{subst}
use agent_speak.Base.{
  ℕ, String, Bool, true, false, some, ◌≡◌, refl, sym, ◌∙◌, arith, Option-cases, inl, inr,
}
use agent_speak.Devices.Client.{
  World, StartFate, start, stop, start_run, start_guard, refused, unloaded, unconnected, opened,
  start_granted, start_loaded,
}
use agent_speak.Devices.Release.{
  IsWhole, IsReleased, Owns, stop-IsReleased, released-IsWhole, start_run-IsWhole, start_clear,
  start_refused, guard-idle, IsReleased-of_idle,
}
use agent_speak.Models.Presentation.{AsrModelId, CorrectionModelId}
use agent_speak.Models.Speech.{SpeechLanguage}
use agent_speak.Page.{
  Answer, gives, throws, Page, Opening, after_start, start_session, create_and_start,
}
use agent_speak.Page.Session.{IsQuiet}

-- The fields that the invariant reads.
pub record SameClient (p q : Page) : Type 0 where
  pub same_client : q.client ≡ p.client
  pub same_active : q.is_active ≡ p.is_active

pub SameClient-IsQuiet : (p q : Page) → SameClient p q → IsQuiet p → IsQuiet q
SameClient-IsQuiet p q s h = record {
  whole = subst IsWhole (sym s.same_client) h.whole;
  silent = λ e. subst IsReleased (sym s.same_client) (h.silent (sym s.same_active ∙ e));
}

pub released-IsQuiet : (p : Page) → IsReleased p.client → IsQuiet p
released-IsQuiet p r = record { whole = released-IsWhole p.client r; silent = λ e. r }

pub stop-IsQuiet :
    (reason : String) (connected : Bool) (p q : Page)
    → q.client ≡ stop reason connected p.client
    → IsQuiet p
    → IsQuiet q
stop-IsQuiet reason connected p q e h =
    released-IsQuiet q
      (subst IsReleased (sym e) (stop-IsReleased reason connected p.client h.whole.owns))

granted-Owns :
    (stream context : ℕ) (w : World) → IsReleased w → Owns (start_granted stream context w)
unfolding start_granted
granted-Owns stream context w r = ground arith

loaded-Owns :
    (stream context socket : ℕ) (w : World)
    → IsReleased w
    → Owns (start_loaded socket (start_granted stream context w))
unfolding start_granted start_loaded
loaded-Owns stream context socket w r = ground arith

run-IsQuiet :
    (cause : String) (stream context socket : ℕ) (fate : StartFate) (p : Page)
    → IsReleased p.client
    → IsQuiet (after_start cause (start_run stream context socket fate p.client) p).0
unfolding start_run
run-IsQuiet cause stream context socket opened p r = record {
  whole = start_run-IsWhole stream context socket opened p.client r;
  silent = λ e. absurd (ground arith);
}
run-IsQuiet cause stream context socket refused p r =
    released-IsQuiet _ (stop-IsReleased "start_failed" false p.client (ground arith))
run-IsQuiet cause stream context socket unloaded p r = released-IsQuiet _ (
    stop-IsReleased "start_failed" false (start_granted stream context p.client)
      (granted-Owns stream context p.client r))
run-IsQuiet cause stream context socket unconnected p r = released-IsQuiet _ (
    stop-IsReleased "start_failed" false
      (start_loaded socket (start_granted stream context p.client))
      (loaded-Owns stream context socket p.client r))

-- A start of the client leaves it open only if the page is active then.
after_start-IsQuiet :
    (cause : String) (stream context socket : ℕ) (fate : StartFate) (p : Page)
    → IsQuiet p
    → IsQuiet (after_start cause (start stream context socket fate p.client) p).0
after_start-IsQuiet cause stream context socket fate p h =
    elim (Option-cases (start_guard p.client.client)) [
      | inr (e, guarded) ↦
          subst (λ r. IsQuiet (after_start cause r p).0)
            (sym (start_refused stream context socket fate p.client e guarded))
            (SameClient-IsQuiet p _ (record { same_client = refl; same_active = refl }) h)
      | inl clear ↦
          let (no_stream, no_socket) = guard-idle p.client.client clear in
          subst (λ r. IsQuiet (after_start cause r p).0)
            (sym (start_clear stream context socket fate p.client clear))
            (run-IsQuiet cause stream context socket fate p
              (IsReleased-of_idle p.client h.whole no_stream no_socket))
    ]

same : (p : Page) → SameClient p p
same p = record { same_client = refl; same_active = refl }

start_session-IsQuiet :
    (o : Opening) (p : Page) (session : Answer (String × SpeechLanguage))
    → IsQuiet p
    → IsQuiet (start_session o p session).0
start_session-IsQuiet o p (throws cause) h =
    SameClient-IsQuiet p _ (record { same_client = refl; same_active = refl }) h
start_session-IsQuiet o p (gives (id, language)) h =
    after_start-IsQuiet o.cause o.stream o.context o.socket o.fate
      (record p { session_id = id; locked_language = some language })
      (SameClient-IsQuiet p _ (record { same_client = refl; same_active = refl }) h)

pub create_and_start-IsQuiet :
    (reset : Bool) (asr : AsrModelId) (correction : CorrectionModelId) (o : Opening) (p : Page)
    → IsQuiet p
    → IsQuiet (create_and_start reset asr correction o p).0
unfolding create_and_start
create_and_start-IsQuiet true asr correction o p h =
    start_session-IsQuiet o _ (o.session p.pending_language asr correction)
      (SameClient-IsQuiet p _ (record { same_client = refl; same_active = refl }) h)
create_and_start-IsQuiet false asr correction o p h =
    start_session-IsQuiet o p (o.session p.pending_language asr correction) h
