-- ===== src/Locales/Tests.antt =====
-- Locales of concrete queries, and the theorems at them.
use agent_speak.Base.{true, none, some, [], ◌∷◌, ◌≡◌, refl, inr}
use agent_speak.Models.Speech.{locale_en, locale_ja, Storage}
use agent_speak.Locales.{
  Params, resolve_locale, resolve_studio_locale, set_locale, resolve-set_locale,
  resolve_studio_locale-same,
}

abbrev query : Params
query = ("lang", "ko") ∷ ("tab", "play") ∷ []

abbrev storage : Storage
storage = record { usable = true; items = λ key. some "ja" }

resolve-set_locale_example :
    let (shown, kept, path, asked) = set_locale locale_ja storage ("/tts", query) in
    (shown ≡ locale_ja)
    × (path ≡ "/tts")
    × (resolve_locale asked none ≡ locale_ja)
    × (resolve_studio_locale asked none ≡ locale_ja)
resolve-set_locale_example = resolve-set_locale locale_ja storage "/tts" query none

resolve_studio_locale-same_example :
    resolve_studio_locale query (some "ja") ≡ resolve_locale query (some "ja")
resolve_studio_locale-same_example = resolve_studio_locale-same query (some "ja") (inr refl)

-- A locale that is not supported is passed over by the studio alone.
unsupported :
    (resolve_locale (("lang", "fr") ∷ []) (some "ja") ≡ locale_en)
    × (resolve_studio_locale (("lang", "fr") ∷ []) (some "ja") ≡ locale_ja)
unfolding resolve_locale resolve_studio_locale
unsupported = (refl, refl)
