-- ===== src/Codex/Handlers.antt =====
-- web/codex.js: what each handler does to a page that records and to one that rests.
use agent_speak.Base.{
  ℕ, suc, false, [], Option, none, some, ◌==◌, ◌≡◌, refl, sym, arith, inl, inr, Bool-cases,
}
use mathlib.Core.Path.{subst}
use agent_speak.Codex.Core.{unchecked, no_devices, has_required_devices, find_default_audio_devices}
use agent_speak.Codex.Page.{
  Failure, World, new_page, new_world, Permission, refused, listed, check_devices, devices_checked,
  devices_refused, data_available, stop_recording, invalidate_devices, render_controls,
  stop_recorder, stop_held, discard_held, active_recorder, on_page, set_phase, recording_granted,
  recording_refused,
}
use agent_speak.Codex.Session.{Records, Rests, IsSound}

pub new_world-IsSound : IsSound new_world
unfolding new_page
new_world-IsSound = record { rendered = refl; mode = inr (refl, ground arith) }

-- The devices are checked only while the page rests.
pub check_devices-IsSound :
    (w : World)
    → Rests w
    → w.asked ≡ 0
    → IsSound (check_devices (record w { checks = suc w.checks }))
unfolding check_devices render_controls
check_devices-IsSound w r a = record { rendered = refl; mode = inr (refl, ground arith) }

pub devices_checked-IsSound :
    (permission : Permission) (w : World) → Rests w → IsSound (devices_checked permission w)
unfolding devices_checked devices_refused render_controls
devices_checked-IsSound (refused failure) w r = record {
  rendered = refl;
  mode = inr (refl, ground arith);
}
devices_checked-IsSound (listed found) w r =
    elim (Bool-cases (has_required_devices (find_default_audio_devices found))) [
      | inl h ↦ rw h (record { rendered = ground arith; mode = inr (refl, ground arith) })
      | inr h ↦ rw h (record { rendered = ground arith; mode = inr (refl, ground arith) })
    ]

-- Nothing waits, and no stop event is to come.
pub record IsFree (w : World) : Type 0 where
  pub stopping : w.stopping ≡ []
  pub checks : w.checks ≡ 0
  pub asked : w.asked ≡ 0
  pub processing : w.processing ≡ 0

pub recording_granted-Records :
    (stream recorder now : ℕ) (w : World)
    → Rests w
    → IsFree w
    → IsSound (recording_granted stream recorder now w)
unfolding recording_granted render_controls
recording_granted-Records stream recorder now w r h = record {
  rendered = refl;
  mode = inl (
    refl,
    record {
      stream = stream;
      recorder = recorder;
      holds_stream = refl;
      holds_recorder = refl;
      open_stream = ground arith;
      active_recorder = ground arith;
      none_stopping = h.stopping;
      kept = refl;
      stops_itself = refl;
      none_waits = (h.checks, h.asked, h.processing);
    },
  );
}

pub recording_refused-IsSound :
    (granted : Option ℕ) (failure : Failure) (w : World)
    → Rests w
    → IsFree w
    → IsSound (recording_refused granted failure w)
unfolding recording_refused render_controls
recording_refused-IsSound none failure w r h = record {
  rendered = refl;
  mode = inr (refl, ground arith);
}
recording_refused-IsSound (some g) failure w r h = record {
  rendered = refl;
  mode = inr (refl, ground arith);
}

stop_recorder-Rests :
    (w : World) (r : Records w) (v : World)
    → v.page.auto_stop ≡ false
    → v.page.timer_interval ≡ false
    → v.page.stream ≡ w.page.stream
    → v.page.recorder ≡ w.page.recorder
    → v.streams ≡ w.streams
    → v.active ≡ w.active
    → v.stopping ≡ w.stopping
    → (v.asked ≡ w.asked) × (v.processing ≡ w.processing)
    → Rests (stop_recorder r.recorder v)
stop_recorder-Rests w r v a t s c o e p q = record {
  no_stream = refl;
  none_open = ground arith;
  none_active = ground arith;
  no_auto_stop = a;
  no_interval = t;
  pending = inr (r.recorder, ground arith);
  one_start = inl (ground arith);
}

active_recorder-Records : (w : World) (r : Records w) → active_recorder w ≡ some r.recorder
unfolding active_recorder
active_recorder-Records w r = ground arith

active_recorder-Rests : (w : World) → Rests w → active_recorder w ≡ none
unfolding active_recorder
active_recorder-Rests w r = ground arith

pub stop_recording-IsSound : (now : ℕ) (w : World) → Records w → IsSound (stop_recording now w)
unfolding stop_recording stop_held render_controls
stop_recording-IsSound now w r =
    subst (λ o. IsSound (stop_held now o w)) (sym (active_recorder-Records w r))
      (record {
        rendered = refl;
        mode =
            inr (refl, stop_recorder-Rests w r _ refl refl refl refl refl refl refl (refl, refl));
      })

discarded : World → Option ℕ → World
unfolding discard_held render_controls
discarded w o =
    on_page (set_phase unchecked)
      (discard_held o (on_page (λ p. record p { devices = no_devices }) w))

pub invalidate_devices-IsSound : (w : World) → IsSound w → IsSound (invalidate_devices w)
unfolding invalidate_devices discard_held render_controls discarded
invalidate_devices-IsSound w h = elim h.mode [
  | inl (p, r) ↦
      subst (λ o. IsSound (discarded w o)) (sym (active_recorder-Records w r))
        (record {
          rendered = refl;
          mode =
              inr (refl, stop_recorder-Rests w r _ refl refl refl refl refl refl refl (refl, refl));
        })
  | inr (p, r) ↦
      subst (λ o. IsSound (discarded w o)) (sym (active_recorder-Rests w r))
        (record { rendered = refl; mode = inr (refl, ground arith) })
]

pub data_available-IsSound : (size : ℕ) (w : World) → IsSound w → IsSound (data_available size w)
unfolding data_available
data_available-IsSound size w h = elim (Bool-cases (size == 0)) [
  | inl e ↦ rw e h
  | inr e ↦ rw e (record {
    rendered = h.rendered;
    mode = elim h.mode [
      | inl (p, r) ↦ inl (
        p,
        record {
          stream = r.stream;
          recorder = r.recorder;
          holds_stream = r.holds_stream;
          holds_recorder = r.holds_recorder;
          open_stream = r.open_stream;
          active_recorder = r.active_recorder;
          none_stopping = r.none_stopping;
          kept = r.kept;
          stops_itself = r.stops_itself;
          none_waits = r.none_waits;
        },
      )
      | inr (p, r) ↦ inr (p, ground arith)
    ];
  })
]
