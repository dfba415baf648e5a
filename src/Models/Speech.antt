-- ===== src/Models/Speech.antt =====
-- frontend/realtime/src/speechLanguage.ts. The storage may refuse to be read or written: it is an
-- optional text for each key, or `none` where an access throws.
use agent_speak.Base.{
  String, Bool, true, false, Option, none, some, str_eq, if◌then◌else◌, ◌≡◌, refl, arith, eq_iff,
}

pub data SpeechLanguage : Type 0 where
  auto en zh_tw ja ko : SpeechLanguage

pub data Locale : Type 0 where
  locale_en locale_zh_tw locale_ja locale_ko : Locale

abbrev pub language_code : SpeechLanguage → String
language_code auto = "auto"
language_code en = "en"
language_code zh_tw = "zh-TW"
language_code ja = "ja"
language_code ko = "ko"

abbrev pub storage_key : String
storage_key = "agent-speak-speech-language"

abbrev pub default_speech_language : Locale → SpeechLanguage
default_speech_language locale_en = en
default_speech_language locale_zh_tw = zh_tw
default_speech_language locale_ja = ja
default_speech_language locale_ko = ko

unfoldable pub parse_speech_language : Option String → Option SpeechLanguage
parse_speech_language none = none
parse_speech_language (some s) =
    if str_eq s "auto"
    then some auto
    else if str_eq s "en"
    then some en
    else if str_eq s "zh-TW"
    then some zh_tw
    else if str_eq s "ja"
    then some ja
    else if str_eq s "ko"
    then some ko
    else none

-- `localStorage`: whether it may be used, and its texts.
pub record Storage : Type 0 where
  pub usable : Bool
  pub items : String → Option String

abbrev pub get_item : Storage → String → Option String
get_item s k = if s.usable then s.items k else none

unfoldable pub read_speech_language : Storage → Locale → SpeechLanguage × Bool
unfolding parse_speech_language
read_speech_language storage locale = elim (parse_speech_language (get_item storage storage_key)) [
  | some value ↦ (value, true)
  | none ↦ (default_speech_language locale, false)
]

unfoldable pub write_speech_language : Storage → SpeechLanguage → Storage
write_speech_language storage value =
    if storage.usable
    then record storage {
      items = λ k. if str_eq k storage_key then some (language_code value) else storage.items k;
    }
    else storage

-- The name shown for a language.
abbrev pub speech_language_name : SpeechLanguage → String → String
speech_language_name auto auto_label = auto_label
speech_language_name en auto_label = "English"
speech_language_name zh_tw auto_label = "繁體中文"
speech_language_name ja auto_label = "日本語"
speech_language_name ko auto_label = "한국어"

parse-language_code : (v : SpeechLanguage) → parse_speech_language (some (language_code v)) ≡ some v
unfolding parse_speech_language
parse-language_code auto = refl
parse-language_code en = refl
parse-language_code zh_tw = refl
parse-language_code ja = refl
parse-language_code ko = refl

-- A language that was written is read back as the user's choice under any locale, if the storage may
-- be used; if it may not, reading gives the language of the locale, as no choice of the user's.
read-write_speech_language :
    (storage : Storage) (locale : Locale) (value : SpeechLanguage)
    → read_speech_language (write_speech_language storage value) locale
      ≡ (if storage.usable then (value, true) else (default_speech_language locale, false))
unfolding read_speech_language write_speech_language
read-write_speech_language storage locale value =
    ground (arith, parse-language_code value, eq_iff storage_key storage_key)
