-- ===== src/Avatar/Renderer/Tests.antt =====
-- The renderer at concrete values, and the theorems at them.
use agent_speak.Base.{List, [], ◌∷◌, some}
use agent_speak.Avatar.Renderer.{Renderer, new_renderer, draws, draw_fails, provided}
use agent_speak.Avatar.Renderer.Loop.{
  IsSingle, Operation, starts, pauses, resumes, preloads, ticks, disposes, run, run-new_renderer,
}

abbrev session : List Operation
session =
    preloads (("s0", 1) ∷ [])
    ∷ starts 9 1
    ∷ ticks draws (provided (some "s0")) 2
    ∷ pauses
    ∷ resumes 3
    ∷ ticks (draw_fails "lost") (provided (some "s1")) 4
    ∷ disposes
    ∷ []

run-new_renderer_example : IsSingle (run new_renderer session)
run-new_renderer_example = run-new_renderer session

abbrev running : Renderer
running = run new_renderer (preloads (("s0", 1) ∷ []) ∷ starts 9 1 ∷ [])
