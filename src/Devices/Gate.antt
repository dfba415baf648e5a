-- ===== src/Devices/Gate.antt =====
-- frontend/realtime/src/audio/deviceGate.ts. `getUserMedia` gives the tracks of a stream (numbers) or
-- is refused, and `enumerateDevices` gives the devices or is refused.
use agent_speak.Base.{
  ℕ, String, Bool, true, false, not, ◌&&◌, ◌||◌, List, [], ◌∷◌, Option, none, some, str_eq, eq_iff,
  find, any, is_blank, ◌≡◌, refl, ◌⊎◌, arith, is_some, or_else, Option-cases, inl, inr,
}

pub data DeviceKind : Type 0 where
  audioinput audiooutput videoinput : DeviceKind

abbrev pub same_kind : DeviceKind → DeviceKind → Bool
same_kind audioinput audioinput = true
same_kind audiooutput audiooutput = true
same_kind videoinput videoinput = true
same_kind _ _ = false

pub record MediaDevice : Type 0 where
  pub kind : DeviceKind
  pub device_id : String
  pub label : String

pub data GateReason : Type 0 where
  ready permission_denied missing_input missing_output unchecked : GateReason

pub record DeviceGateResult : Type 0 where
  pub is_ready : Bool
  pub input : Option MediaDevice
  pub output : Option MediaDevice
  pub reason : GateReason

abbrev pub is_default_of : DeviceKind → MediaDevice → Bool
is_default_of kind d = same_kind d.kind kind && str_eq d.device_id "default"

abbrev pub is_labelled_of : DeviceKind → MediaDevice → Bool
is_labelled_of kind d = same_kind d.kind kind && not (is_blank d.label)

abbrev pub first_some : Option MediaDevice → Option MediaDevice → Option MediaDevice
first_some (some d) other = some d
first_some none other = other

unfoldable pub select : DeviceKind → List MediaDevice → Option MediaDevice
select kind devices =
    first_some (find (is_default_of kind) devices) (find (is_labelled_of kind) devices)

abbrev pub verdict : Option MediaDevice → Option MediaDevice → DeviceGateResult
verdict none output = record {
  is_ready = false;
  input = none;
  output = output;
  reason = missing_input;
}
verdict (some i) none = record {
  is_ready = false;
  input = some i;
  output = none;
  reason = missing_output;
}
verdict (some i) (some o) = record {
  is_ready = true;
  input = some i;
  output = some o;
  reason = ready;
}

abbrev pub denied : DeviceGateResult
denied = record { is_ready = false; input = none; output = none; reason = permission_denied }

-- The result, and the tracks that are stopped.
unfoldable pub check_audio_devices :
    Option (List ℕ) → Option (List MediaDevice) → DeviceGateResult × List ℕ
check_audio_devices none devices = (denied, [])
check_audio_devices (some tracks) none = (denied, tracks)
check_audio_devices (some tracks) (some devices) =
    (verdict (select audioinput devices) (select audiooutput devices), tracks)

find-holds :
    (p : MediaDevice → Bool) (ds : List MediaDevice) (d : MediaDevice)
    → find p ds ≡ some d
    → p d ≡ true
find-holds p [] d h = cc
find-holds p (x ∷ ds) d h = ground (arith, find-holds p ds d)

find-none : (p : MediaDevice → Bool) (ds : List MediaDevice) → find p ds ≡ none → any p ds ≡ false
find-none p [] h = refl
find-none p (x ∷ ds) h = ground (arith, find-none p ds)

find-some :
    (p : MediaDevice → Bool) (ds : List MediaDevice) (d : MediaDevice)
    → find p ds ≡ some d
    → any p ds ≡ true
find-some p [] d h = cc
find-some p (x ∷ ds) d h = ground (arith, find-some p ds d)

-- A device that is chosen is of the kind asked for; it is the default one if there is a default one,
-- and has a label otherwise.
select-some :
    (kind : DeviceKind) (ds : List MediaDevice) (d : MediaDevice)
    → select kind ds ≡ some d
    → (same_kind d.kind kind ≡ true)
      × ((d.device_id ≡ "default")
          ⊎ ((any (is_default_of kind) ds ≡ false) × (is_blank d.label ≡ false)))
unfolding select
select-some kind ds d h = ground (
  arith,
  find-holds (is_default_of kind) ds d,
  find-holds (is_labelled_of kind) ds d,
  find-none (is_default_of kind) ds,
  eq_iff d.device_id "default",
)

abbrev pub has_usable : DeviceKind → List MediaDevice → Bool
has_usable kind ds = any (is_default_of kind) ds || any (is_labelled_of kind) ds

is_some-select :
    (kind : DeviceKind) (ds : List MediaDevice)
    → (select kind ds ≡ none → has_usable kind ds ≡ false)
      × ((d : MediaDevice) → select kind ds ≡ some d → has_usable kind ds ≡ true)
unfolding select
is_some-select kind ds = (
  λ h. ground (arith, find-none (is_default_of kind) ds, find-none (is_labelled_of kind) ds),
  λ d h. ground (arith, find-some (is_default_of kind) ds d, find-some (is_labelled_of kind) ds d),
)

-- The gate is ready exactly when the microphone was granted, the devices could be listed, and there
-- is a usable input and a usable output; whatever the outcome, every track of a granted stream is
-- stopped.
check_audio_devices-ready :
    (tracks : Option (List ℕ)) (ds : List MediaDevice)
    → ((check_audio_devices tracks (some ds)).0.is_ready
        ≡ (is_some tracks && has_usable audioinput ds && has_usable audiooutput ds))
      × ((check_audio_devices tracks none).0.is_ready ≡ false)
      × ((listed : Option (List MediaDevice))
          → (check_audio_devices tracks listed).1 ≡ or_else tracks [])
unfolding check_audio_devices
check_audio_devices-ready none ds = (refl, refl, λ listed. refl)
check_audio_devices-ready (some tracks) ds = (
  elim (Option-cases (select audioinput ds)) [
    | inl no_input ↦ rw no_input (ground (arith, (is_some-select audioinput ds).0 no_input))
    | inr (i, input) ↦ elim (Option-cases (select audiooutput ds)) [
      | inl no_output ↦
          rw (input, no_output)
            (ground (
              arith,
              (is_some-select audioinput ds).1 i input,
              (is_some-select audiooutput ds).0 no_output,
            ))
      | inr (o, output) ↦
          rw (input, output)
            (ground (
              arith,
              (is_some-select audioinput ds).1 i input,
              (is_some-select audiooutput ds).1 o output,
            ))
    ]
  ],
  refl,
  stops tracks,
)
  where
    stops :
        (ts : List ℕ) (listed : Option (List MediaDevice))
        → (check_audio_devices (some ts) listed).1 ≡ ts
    stops ts none = refl
    stops ts (some l) = refl
