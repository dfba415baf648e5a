-- ===== src/Codex/Stopped.antt =====
-- web/codex.js: what the end of a recording does to the page.
use agent_speak.Base.{
  ℕ, true, false, List, [], ◌∷◌, Option, none, some, ◌≡◌, refl, ◌==◌, ◌-◌, ◌∙◌, arith, inl, inr,
  Bool-cases,
}
use agent_speak.Codex.Core.{is_recording}
use agent_speak.Codex.Page.{Failure, Page, World, render_controls}
use agent_speak.Codex.Process.{
  Heard, heard, refused as not_heard, show_corrected, show_transcript, upload, encode,
  decode_source, copy_text, total, copy_corrected_text, correct_transcript, recognise, convert,
  process_end, process_recording, stop_fired, services_answer, require_text, Services,
}
use agent_speak.Codex.Session.{Rests, IsSound}

-- What the processing of a recording leaves as it was.
record Keeps (p q : Page) : Type 0 where
  same_devices : q.devices ≡ p.devices
  same_stream : q.stream ≡ p.stream
  same_auto_stop : q.auto_stop ≡ p.auto_stop
  same_interval : q.timer_interval ≡ p.timer_interval

copy_text-Keeps :
    (env : Services) (p : Page) (t : Option (List ℕ)) → Keeps p (copy_text env true p t).0
copy_text-Keeps env p none = ground arith
copy_text-Keeps env p (some t) = ground arith

show_corrected-Keeps : (env : Services) (p : Page) (h : Heard) → Keeps p (show_corrected env p h).0
unfolding copy_corrected_text
show_corrected-Keeps env p (not_heard f) = ground arith
show_corrected-Keeps env p (heard t) =
    let k = copy_text-Keeps env (record p { corrected_text = t }) (require_text (some t)) in
    record {
      same_devices = k.same_devices;
      same_stream = k.same_stream;
      same_auto_stop = k.same_auto_stop;
      same_interval = k.same_interval;
    }

show_transcript-Keeps :
    (env : Services) (p : Page) (h : Heard) → Keeps p (show_transcript env p h).0
unfolding correct_transcript
show_transcript-Keeps env p (not_heard f) = ground arith
show_transcript-Keeps env p (heard t) =
    let k = show_corrected-Keeps env (record p { raw_transcript = t }) _ in
    record {
      same_devices = k.same_devices;
      same_stream = k.same_stream;
      same_auto_stop = k.same_auto_stop;
      same_interval = k.same_interval;
    }

upload-Keeps :
    (env : Services) (size : ℕ) (p : Page) (f : Option Failure) → Keeps p (upload env size p f).0
unfolding recognise
upload-Keeps env size p (some f) = ground arith
upload-Keeps env size p none = show_transcript-Keeps env p _

encode-Keeps : (env : Services) (p : Page) (n : Option ℕ) → Keeps p (encode env p n).0
encode-Keeps env p none = ground arith
encode-Keeps env p (some n) = upload-Keeps env _ p _

decode_source-Keeps :
    (env : Services) (size : ℕ) (p : Page) (f : Option Failure)
    → Keeps p (decode_source env size p f).0
decode_source-Keeps env size p (some f) = ground arith
decode_source-Keeps env size p none = encode-Keeps env p _

process_end-still : (p : Page) → is_recording (process_end p).phase ≡ false
unfolding process_end render_controls
process_end-still p = ground arith

-- The stop event is that of the recorder that was stopped.
pub stop_fired-IsSound :
    (r : ℕ) (w : World)
    → IsSound w
    → Rests w
    → is_recording w.page.phase ≡ false
    → w.stopping ≡ r ∷ []
    → w.processing ≡ 0
    → w.asked ≡ 0
    → w.page.recorder ≡ some r
    → IsSound (stop_fired r w)
unfolding stop_fired
stop_fired-IsSound r w h rests p e n a c = elim (Bool-cases w.page.discard_recording) [
  | inl d ↦ rw d (record {
    rendered = h.rendered;
    mode = inr (
      p,
      record {
        no_stream = rests.no_stream;
        none_open = rests.none_open;
        none_active = rests.none_active;
        no_auto_stop = rests.no_auto_stop;
        no_interval = rests.no_interval;
        pending = inl (ground arith, refl, n);
        one_start = inl a;
      },
    );
  })
  | inr d ↦ rw d (record {
    rendered = h.rendered;
    mode = inr (
      p,
      record {
        no_stream = rests.no_stream;
        none_open = rests.none_open;
        none_active = rests.none_active;
        no_auto_stop = rests.no_auto_stop;
        no_interval = rests.no_interval;
        pending = inr (r, (c, inr (ground arith, ground arith)));
        one_start = inl a;
      },
    );
  })
]

-- A processing that waits comes to its end.
processed-IsSound :
    (w : World) (q : Page)
    → Rests w
    → w.stopping ≡ []
    → w.processing ≡ 1
    → w.asked ≡ 0
    → Keeps w.page q
    → IsSound (record w { page = process_end q; processing = w.processing - 1 })
unfolding process_end render_controls
processed-IsSound w q rests e n a k = record {
  rendered = refl;
  mode = inr (
    process_end-still q,
    record {
      no_stream = k.same_stream ∙ rests.no_stream;
      none_open = rests.none_open;
      none_active = rests.none_active;
      no_auto_stop = k.same_auto_stop ∙ rests.no_auto_stop;
      no_interval = k.same_interval ∙ rests.no_interval;
      pending = inl (e, refl, ground arith);
      one_start = inl a;
    },
  );
}

convert-Keeps : (env : Services) (size : ℕ) (p : Page) → Keeps p (convert env size p).0
unfolding convert
convert-Keeps env size p = decode_source-Keeps env size p _

pub services_answer-IsSound :
    (env : Services) (w : World) → IsSound w → IsSound (services_answer env w)
unfolding services_answer
services_answer-IsSound env w h = elim (Bool-cases (w.processing == 0)) [
  | inl e ↦ rw e h
  | inr e ↦ rw e (elim h.mode [
    | inl (p, r) ↦ absurd (ground arith)
    | inr (p, r) ↦
        processed-IsSound w (convert env (total w.page.chunks) w.page).0 r (ground arith)
          (ground arith) (ground arith) (convert-Keeps env (total w.page.chunks) w.page)
  ])
]

-- The parts of a processing that is not discarded leave the page as `processRecording` does.
stop_fired-services_answer :
    (env : Services) (r : ℕ) (w : World)
    → w.page.discard_recording ≡ false
    → w.processing ≡ 0
    → (services_answer env (stop_fired r w)).page ≡ (process_recording env w.page).0
unfolding services_answer stop_fired process_recording
stop_fired-services_answer env r w d n = rw (d, n) refl
