-- ===== src/Lib.antt =====
-- Agent Speak: the browser side of a local voice gateway, as a model with its theorems.
--
-- The gateway streams speech recognition, its correction, an agent and speech synthesis to a set of
-- pages. The realtime page (frontend/realtime/src/App.tsx) opens the microphone through a client,
-- sends the audio over a socket, and folds the events that come back into its state with a reducer.
-- The avatar lab plays the clips of an avatar whose manifest it checks. The voice studio records a
-- reference voice and plays what is generated from it. A recorder page turns speech into a prompt to
-- paste. All pages ask the gateway for models and resources over HTTP.
--
-- Which file models which part:
--   Realtime          frontend/realtime/src/state/reducer.ts and types.ts: the page state (Reducer),
--                     and what holds of the rows (Rows), of the order of events (Order) and of every
--                     state that is reached (Invariant).
--   Devices           frontend/realtime/src/audio/deviceGate.ts (Gate) and realtimeClient.ts
--                     (Client): the client with the streams, sockets and contexts that are open
--                     in the browser; Release has the calls one after another, Races two orders in
--                     which a start is overtaken while it waits.
--   Avatar            AI_Avatar/frontend: the event bus (Events), the state machine and the
--                     transition controller (Machine), the clip scheduler (Scheduler); and
--                     frontend/realtime/src/avatarLab/manifest.ts (Manifest), which gives the
--                     scheduler its manifest; Renderer is renderers/PngSequenceRenderer.ts.
--   Resources         frontend/realtime/src/resources.ts: the check of answers (Operation), of errors
--                     (Request), and the wait for an operation (Poll, Waiting).
--   Models            frontend/realtime/src/modelPresentation.ts and speechLanguage.ts.
--   Audio             frontend/realtime/src/ttsClone/audio.ts: the store of recordings (Store, Urls),
--                     the WAV encoder (Wav, Header), the recorder (Recorder, Recordings) and the
--                     playback (Playback), each also in its parts between two promises (Starts).
--   Clone             frontend/realtime/src/ttsClone/api.ts and types.ts.
--   Codex             web/codex.js and web/codex-recorder-core.js: the page and its handlers (Page),
--                     the processing of a recording (Process, Requests), what holds over a session
--                     (Session, Handlers, Stopped, Sound), and an order of events in which the
--                     processing of one recording overtakes the next (Overlap).
--   Page              frontend/realtime/src/App.tsx: the state of the realtime page and its handlers,
--                     with the switch of models (Switch, Flows, Outcome), the reset of resources
--                     (Reset, Resets), and what holds over a session of clicks, answers and events
--                     (Session, Quiet, Safety).
--   Studio            frontend/realtime/src/ttsClone/App.tsx: the state of the voice studio and its
--                     handlers, with the synthesis (Generate) and the reset (Reset, Resets, Endings),
--                     what holds over a session (Session, Parts, Keeping, Waits, Safety) and of late
--                     answers (Stale), and two starts of a recording that overlap (Races). It composes
--                     Audio, Clone and Resources.
--   Lab               frontend/realtime/src/avatarLab/App.tsx: the lab, which composes the scheduler and
--                     the renderer, and the pause over a session (Session, Handlers, Pauses).
--   Capture           frontend/realtime/public/pcm-capture.worklet.js: the chunks (Chunks) and the
--                     samples that are posted (Bounds, Posts).
--   Graph             frontend/realtime/src/graph/textGraph.ts: the nodes (Bounds) and edges (Edges) of
--                     the graph of utterances, over the tokens and the cosine; Rows is the choice of
--                     rows in components/UtteranceGraph.tsx.
--   Locales           frontend/realtime/src/i18n.tsx and ttsClone/i18n.tsx: the locale of a page.
--   Base              what the others share: lists, maps, text, parsed JSON.
--
-- How the model stands to the code:
--   Mutable fields are records that a function takes and gives back; calls of the outside (URLs,
--   listeners, messages) are a list that it gives besides. An async function is one function for
--   each part between two awaits where an order of events matters (Devices.Client, Codex.Page, Studio), and
--   one function that runs to its end elsewhere; each module says which.
--   Resources of the browser (streams, contexts, sockets, blobs, images) are numbers.
--   Errors are values of a sum. Numbers of JSON are fractions, or one of the values that are not
--   finite. Strings are compared as they are; tests by regular expression go over their codes.
--   The payloads of realtime events have the types that the gateway sends them with.
--   Listeners do not throw and do not change the bus while it calls them.
--   The wait for an operation runs on fuel; as many rounds as the timeout has milliseconds, and two
--   more, are enough. The loop of the worklet has as much fuel as the buffer
--   has samples, which is enough. Everything else recurses on its data or on the
--   number of attempts that the code allows.
--
-- Not modelled: the markup of the React pages, and panels that only draw; drawing on canvases; tables
-- of messages; the other scripts of the static pages; the Python gateway; build files.
mod Base
pub mod Realtime
pub mod Studio
pub mod Avatar
pub mod Resources
pub mod Lab
pub mod Graph
pub mod Locales
pub mod Models
pub mod Devices
pub mod Audio
pub mod Codex
pub mod Capture
pub mod Clone
pub mod Page
