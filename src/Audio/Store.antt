-- ===== src/Audio/Store.antt =====
-- frontend/realtime/src/ttsClone/audio.ts: `createEphemeralAudioStore`. Blobs are known by numbers;
-- `createObjectURL` is the browser's, so a call that needs it is given the URL that it answers.
use agent_speak.Base.{ℕ, String, List, [], ◌∷◌, ◌++◌, Option, none, some, str_eq, if◌then◌else◌}

pub record EphemeralAudioStore : Type 0 where
  pub reference : Option ℕ
  pub generated : Option ℕ
  pub reference_url : Option String
  pub generated_url : Option String

abbrev pub empty_store : EphemeralAudioStore
empty_store = record {
  reference = none;
  generated = none;
  reference_url = none;
  generated_url = none;
}

pub data UrlCall : Type 0 where
  create_object_url revoke_object_url : String → UrlCall

-- The empty URL is falsy.
abbrev pub revoke : Option String → List UrlCall
revoke none = []
revoke (some url) = if str_eq url "" then [] else revoke_object_url url ∷ []

-- Each method gives the new store and its calls of the URL factory, in order.
unfoldable pub set_reference : ℕ → String → EphemeralAudioStore → EphemeralAudioStore × List UrlCall
set_reference blob url s = (
  record s { reference = some blob; reference_url = some url },
  revoke s.reference_url ++ create_object_url url ∷ [],
)

unfoldable pub clear_reference : EphemeralAudioStore → EphemeralAudioStore × List UrlCall
clear_reference s = (record s { reference = none; reference_url = none }, revoke s.reference_url)

unfoldable pub set_generated : ℕ → String → EphemeralAudioStore → EphemeralAudioStore × List UrlCall
set_generated blob url s = (
  record s { generated = some blob; generated_url = some url },
  revoke s.generated_url ++ create_object_url url ∷ [],
)

unfoldable pub clear_generated : EphemeralAudioStore → EphemeralAudioStore × List UrlCall
clear_generated s = (record s { generated = none; generated_url = none }, revoke s.generated_url)

unfoldable pub dispose : EphemeralAudioStore → EphemeralAudioStore × List UrlCall
dispose s = (empty_store, revoke s.reference_url ++ revoke s.generated_url)
