-- ===== src/Lab/Tests.antt =====
-- The lab on a small manifest, and the theorems at it.
use agent_speak.Avatar.Events.{empty_bus}
use agent_speak.Avatar.Scheduler.{new_scheduler, snapshot}
use agent_speak.Base.{true, not, List, [], ◌∷◌, none, some, ◌≡◌, refl}
use agent_speak.Base.Json.{integer}
use agent_speak.Avatar.Types.{happy, idle}
use agent_speak.Avatar.Renderer.{Canvas, draws, draw_fails, new_renderer}
use agent_speak.Lab.{Assets, Lab, mount, toggle_pause}
use agent_speak.Lab.Session.{
  Event, animates, clicks_state, clicks_pause, clicks_restart, run, IsInStep,
}
use agent_speak.Lab.Pauses.{Agree, run-mount, run-toggle_pause}

abbrev assets : Assets
assets = record {
  manifest = record {
    character = "Henry";
    viewport = record {
      width = integer 512;
      height = integer 512;
      anchor_x = integer 0;
      anchor_y = integer 1;
    };
    transition_frame_id = "s0";
    frames = [];
    inherited = none;
    clips = λ state. record { state = state; fps = integer 10; frames = "s0" ∷ "a1" ∷ "s0" ∷ [] };
  };
  images = ("s0", 1) ∷ ("a1", 2) ∷ [];
  is_ready = true;
}

-- A click on a state, a pause between two frames, a restart and a frame that the canvas fails to draw.
abbrev clicks : List Event
clicks =
    animates 1000 0 draws 2
    ∷ clicks_state happy
    ∷ clicks_pause 3
    ∷ clicks_pause 4
    ∷ clicks_restart draws
    ∷ animates 1000 200 (draw_fails "lost") 5
    ∷ []

-- The lab after the effect, with the frame 1 requested.
abbrev lab : Lab
lab = record {
  assets_ready = true;
  scheduler = new_scheduler assets.manifest idle;
  renderer = record new_renderer {
    bus = record empty_bus { on_failed = 0 ∷ [] };
    images = assets.images;
    animation_frame = some 1;
    provider = some 0;
    last_drawn_frame = some "s0";
    requested = 1 ∷ [];
  };
  shown_snapshot = some (snapshot (new_scheduler assets.manifest idle));
  shown_error = none;
}

mount-lab : mount assets true draws 1 ≡ some lab
unfolding mount snapshot agent_speak.Avatar.Renderer.draw agent_speak.Avatar.Renderer.preload
    agent_speak.Avatar.Renderer.start agent_speak.Avatar.Events.on
mount-lab = refl

run-mount_example : IsInStep (run lab clicks)
run-mount_example = run-mount assets true draws 1 lab clicks mount-lab

run-toggle_pause_example :
    Agree (not (run lab clicks).scheduler.paused) (toggle_pause 6 (run lab clicks))
run-toggle_pause_example = run-toggle_pause assets true draws 1 6 lab clicks mount-lab
