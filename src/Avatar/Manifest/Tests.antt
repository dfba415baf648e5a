-- ===== src/Avatar/Manifest/Tests.antt =====
-- A small manifest as JSON, and the theorems on the manifests that are read at it.
use agent_speak.Base.{false, String, true, [], ◌∷◌, none, codes, All, ◌≡◌, refl}
use agent_speak.Base.Json.{
  Value, string, number, boolean, array, object, nil, cons, end, field, integer,
}
use agent_speak.Avatar.Types.{
  AvatarState, idle, listening, thinking, speaking, happy, error, FrameDefinition, ClipDefinition,
  AvatarManifest,
}
use agent_speak.Avatar.Manifest.Fields.{ok, is_frame_id, is_sha256, is_asset_path}
use agent_speak.Avatar.Manifest.Frames.{is_known, parse_frames}
use agent_speak.Avatar.Manifest.Clips.{read_frames, parse_clip}
use agent_speak.Avatar.Manifest.Parse.{choose, parse_viewport, parse_clips, parse_manifest}
use agent_speak.Avatar.Manifest.Loops.{AreClips, frame_table, parse_manifest-AreClips}
use agent_speak.Avatar.Manifest.Preload.{
  Loaded, image, has_image, collect, load_all, preload_manifest,
}
use agent_speak.Avatar.Manifest.Paths.{IsInside, parse_manifest-IsInside}

abbrev frame_json : String → Value
frame_json src = object (
    field "src" (string src) (
      field "sha256" (string "0123456789abcdef0123456789abcdef0123456789abcdef0123456789abcdef")
        end))

abbrev clip_json : String → Value
clip_json state = object (
    field "state" (string state) (
      field "fps" (number (integer 12)) (
        field "loop" (boolean true) (
          field "quality_status" (string "approved") (
            field "frames"
              (array (cons (string "s0") (cons (string "a1") (cons (string "s0") nil)))) end)))))

abbrev manifest_json : Value
manifest_json = object (
    field "version" (string "4.0") (
      field "character" (string "Henry") (
        field "viewport"
          (object (
            field "width" (number (integer 512)) (
              field "height" (number (integer 512)) (
                field "anchor_x" (number (integer 0))
                  (field "anchor_y" (number (integer 1)) end)))))
          (field "transition_frame_id" (string "s0") (
            field "frames"
              (object (
                field "s0" (frame_json "assets/clips/s0.png")
                  (field "a1" (frame_json "assets/clips/a1.png") end)))
              (field "clips"
                (object (
                  field "idle_loop" (clip_json "idle") (
                    field "listening_loop" (clip_json "listening") (
                      field "thinking_loop" (clip_json "thinking") (
                        field "speaking_loop" (clip_json "speaking") (
                          field "happy_loop" (clip_json "happy")
                            (field "error_loop" (clip_json "error") end)))))))
                end))))))

abbrev clip_for : AvatarState → ClipDefinition
clip_for state = record { state = state; fps = integer 12; frames = "s0" ∷ "a1" ∷ "s0" ∷ [] }

abbrev frame_of : String → FrameDefinition
frame_of src = record {
  src = src;
  sha256 = "0123456789abcdef0123456789abcdef0123456789abcdef0123456789abcdef";
}

abbrev read_manifest : AvatarManifest
read_manifest = record {
  character = "Henry";
  viewport = record {
    width = integer 512;
    height = integer 512;
    anchor_x = integer 0;
    anchor_y = integer 1;
  };
  transition_frame_id = "s0";
  frames = ("s0", frame_of "assets/clips/s0.png") ∷ ("a1", frame_of "assets/clips/a1.png") ∷ [];
  inherited = none;
  clips =
      choose (clip_for idle) (clip_for listening) (clip_for thinking) (clip_for speaking)
        (clip_for happy) (clip_for error);
}

manifest_is_read : parse_manifest manifest_json ≡ ok read_manifest
unfolding parse_manifest parse_viewport is_frame_id parse_frames is_sha256 is_asset_path is_known
    parse_clips parse_clip read_frames
manifest_is_read = refl

parse_manifest-AreClips_example : AreClips "s0" (frame_table read_manifest) read_manifest.clips
parse_manifest-AreClips_example =
    parse_manifest-AreClips manifest_json read_manifest manifest_is_read

parse_manifest-IsInside_example : All (λ entry. IsInside (codes entry.1.src)) read_manifest.frames
parse_manifest-IsInside_example =
    parse_manifest-IsInside manifest_json read_manifest manifest_is_read

abbrev any_load : String → String → Loaded
any_load source k = image 1

-- A second frame with the same source has no image.
abbrev twins : AvatarManifest
twins = record read_manifest {
  frames = ("s0", frame_of "assets/clips/s0.png") ∷ ("a1", frame_of "assets/clips/s0.png") ∷ [];
}

twin_without_image : has_image "a1" (preload_manifest any_load "/ai_avatar/" twins) ≡ false
unfolding preload_manifest collect load_all
twin_without_image = refl
