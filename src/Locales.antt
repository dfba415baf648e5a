-- ===== src/Locales.antt =====
-- frontend/realtime/src/i18n.tsx, frontend/realtime/src/ttsClone/i18n.tsx and web/locale.js: the locale of a
-- page. The parameters of a query are parsed, in their order; a path is split at its first question mark.
mod Tests
use agent_speak.Base.{
  String, Bool, true, false, List, [], ◌∷◌, Option, none, some, is_some, if◌then◌else◌, str_eq,
  eq_iff, lookup, or_else, ◌≡◌, refl, ap, ◌∙◌, sym, arith, ◌⊎◌, inl, inr,
}
use agent_speak.Models.Speech.{
  Locale, locale_en, locale_zh_tw, locale_ja, locale_ko, Storage, get_item,
}

abbrev pub locale_name : Locale → String
locale_name locale_en = "en"
locale_name locale_zh_tw = "zh-TW"
locale_name locale_ja = "ja"
locale_name locale_ko = "ko"

-- The locale that a text names, if it is one of `SUPPORTED_LOCALES`.
abbrev pub supported : Option String → Option Locale
supported none = none
supported (some s) =
    if str_eq s "en"
    then some locale_en
    else if str_eq s "zh-TW"
    then some locale_zh_tw
    else if str_eq s "ja"
    then some locale_ja
    else if str_eq s "ko"
    then some locale_ko
    else none

abbrev pub Params : Type 0
Params = List (String × String)

-- `params.get` is `lookup`; `params.set` keeps the first entry of the name and takes off the others.
abbrev pub delete_param : String → Params → Params
delete_param k [] = []
delete_param k ((j, v) ∷ ps) = if str_eq j k then delete_param k ps else (j, v) ∷ delete_param k ps

unfoldable pub set_param : String → String → Params → Params
set_param k v [] = (k, v) ∷ []
set_param k v ((j, w) ∷ ps) =
    if str_eq j k then (k, v) ∷ delete_param k ps else (j, w) ∷ set_param k v ps

abbrev pub choose_locale : Option String → Option String → Locale
choose_locale (some requested) stored = or_else (supported (some requested)) locale_en
choose_locale none stored = or_else (supported stored) locale_en

-- `resolveLocale` of the realtime page and of the portal.
unfoldable pub resolve_locale : Params → Option String → Locale
resolve_locale params stored = choose_locale (lookup "lang" params) stored

-- `resolveLocale` of the voice studio: the first of the two that is supported.
unfoldable pub resolve_studio_locale : Params → Option String → Locale
resolve_studio_locale params saved =
    or_else (supported (lookup "lang" params)) (or_else (supported saved) locale_en)

unfoldable pub localized_href : String × Params → Locale → String × Params
unfolding set_param
localized_href (pathname, params) locale = (pathname, set_param "lang" (locale_name locale) params)

abbrev pub locale_key : String
locale_key = "agent-speak-locale"

-- What `setLocale` leaves: the locale of the page, the storage and the address.
unfoldable pub set_locale : Locale → Storage → String × Params → Locale × Storage × String × Params
unfolding localized_href
set_locale next storage address =
    let stored = record storage {
      items = λ k. if str_eq k locale_key then some (locale_name next) else storage.items k;
    } in
    let (path, query) = localized_href address next in
    (next, if storage.usable then stored else storage, path, query)

supported-locale_name : (l : Locale) → supported (some (locale_name l)) ≡ some l
supported-locale_name locale_en = refl
supported-locale_name locale_zh_tw = refl
supported-locale_name locale_ja = refl
supported-locale_name locale_ko = refl

lookup-set_param : (k v : String) (ps : Params) → lookup k (set_param k v ps) ≡ some v
unfolding set_param
lookup-set_param k v [] = ground (arith, eq_iff k k)
lookup-set_param k v ((j, w) ∷ ps) = ground (arith, lookup-set_param k v ps, eq_iff k k)

resolve_named :
    (params : Params) (stored : Option String) (l : Locale)
    → lookup "lang" params ≡ some (locale_name l)
    → (resolve_locale params stored ≡ l) × (resolve_studio_locale params stored ≡ l)
unfolding resolve_locale resolve_studio_locale
resolve_named params stored l e = (
  ap (λ o. choose_locale o stored) e ∙ ap (λ o. or_else o locale_en) (supported-locale_name l),
  ap (λ o. or_else (supported o) (or_else (supported stored) locale_en)) e
      ∙ ap (λ o. or_else o (or_else (supported stored) locale_en)) (supported-locale_name l),
)

-- After a choice of the locale, every page that opens the new address resolves it to that locale,
-- whatever the storage holds.
pub resolve-set_locale :
    (next : Locale) (storage : Storage) (pathname : String) (params : Params)
    (stored : Option String)
    → let (shown, kept, path, query) = set_locale next storage (pathname, params) in
      (shown ≡ next)
      × (path ≡ pathname)
      × (resolve_locale query stored ≡ next)
      × (resolve_studio_locale query stored ≡ next)
unfolding set_locale localized_href
resolve-set_locale next storage pathname params stored =
    let (page, studio) =
      resolve_named (set_param "lang" (locale_name next) params) stored next
        (lookup-set_param "lang" (locale_name next) params) in
    (refl, refl, page, studio)

-- The voice studio resolves the locale as the other pages do, if the query asks for no locale or for one
-- that is supported.
pub resolve_studio_locale-same :
    (params : Params) (saved : Option String)
    → (lookup "lang" params ≡ none) ⊎ (is_some (supported (lookup "lang" params)) ≡ true)
    → resolve_studio_locale params saved ≡ resolve_locale params saved
unfolding resolve_locale resolve_studio_locale
resolve_studio_locale-same params saved h = by_query (lookup "lang" params) h
  where
    by_query :
        (asked : Option String)
        → (asked ≡ none) ⊎ (is_some (supported asked) ≡ true)
        → or_else (supported asked) (or_else (supported saved) locale_en)
          ≡ choose_locale asked saved
    by_query none k = refl
    by_query (some requested) k = by_name (supported (some requested)) k
      where
        by_name :
            (found : Option Locale)
            → (some requested ≡ none) ⊎ (is_some found ≡ true)
            → or_else found (or_else (supported saved) locale_en) ≡ or_else found locale_en
        by_name none j = absurd (ground arith)
        by_name (some l) j = refl
