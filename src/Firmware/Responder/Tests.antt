-- ===== src/Firmware/Responder/Tests.antt =====
-- Runs and instances, with kinds and types of frames and errors as numbers, and a codec that writes the
-- three arrays one after the other, and the protocol version.
use easy_lo_ra_reforged.Base.{
  ℕ, ◌-◌, ◌≡◌, ◌<◌, refl, ap, ◌∙◌, Bool, true, false, List, [], ◌∷◌, ◌++◌, Option, some, length,
  take, drop, replicate, leb, ◌==◌, get_or, if◌then◌else◌, arith, length-append, length-drop,
  length-replicate, take-append, drop-append,
}
use easy_lo_ra_reforged.Protocol.Errors.{value, unexpected}
use easy_lo_ra_reforged.Firmware.Responder.{
  DeviceInfo, Frames, Frame, copy_text, device_name_text, firmware_version_text,
  hardware_revision_text, dispatch,
}
use easy_lo_ra_reforged.Firmware.Responder.Answers.{
  IsText, AreTexts, info_of, IsCodec, response_to, dispatch-value, dispatch-unexpected,
}

abbrev all_bytes : DeviceInfo → List ℕ
all_bytes info =
    info.device_name
    ++ (info.firmware_version ++ (info.hardware_revision ++ info.protocol_version ∷ []))

abbrev put : DeviceInfo → List ℕ → Bool × (ℕ × List ℕ)
put info buffer =
    let bytes = all_bytes info in
    if leb (length bytes) (length buffer)
    then (true, (length bytes, bytes ++ drop (length bytes) buffer))
    else (false, (0, buffer))

abbrev get : List ℕ → Option DeviceInfo
get bytes = some (record {
  device_name = take 10 bytes;
  firmware_version = take 4 (drop 10 bytes);
  hardware_revision = take 2 (drop 4 (drop 10 bytes));
  protocol_version = get_or (drop 2 (drop 4 (drop 10 bytes))) 0 0;
})

abbrev frames : Frames
frames = record {
  Version = ℕ;
  actual_frame_version = 1;
  PackageKind = ℕ;
  is_request = λ k. k == 0;
  response = 1;
  MessageType = ℕ;
  is_get_device_info = λ t. t == 0;
  get_device_info = 0;
  ProtocolErrors = ℕ;
  handler_with_incorrect_type = 0;
  incoherent_frame = 1;
  output_buffer_too_small = 2;
  codification_error = 3;
  invalid_message_type = 4;
  device_name_size = 10;
  firmware_version_size = 4;
  hardware_revision_size = 2;
  device_info_size = 17;
  pb_encode = put;
}

length_of_text : (text : List ℕ) (size : ℕ) → IsText text size → length text < size
length_of_text [] size t = t
length_of_text (c ∷ cs) size t = omega (arith, t, length_of_text cs (size - 1) t.2)

length-copy_text :
    (text : List ℕ) (size : ℕ) → IsText text size → length (copy_text frames text size) ≡ size
length-copy_text text size t =
    let zeros : List ℕ = replicate size 0 in
    omega (
      arith,
      length_of_text text size t,
      length-append text (drop (length text) zeros),
      length-drop (length text) zeros,
      length-replicate {A = ℕ} size 0,
    )

length-all_bytes :
    (name version revision : List ℕ) (protocol : ℕ)
    → AreTexts frames name version revision
    → length (all_bytes (info_of frames name version revision protocol)) ≡ 17
length-all_bytes name version revision protocol t =
    let a = copy_text frames name 10 in
    let b = copy_text frames version 4 in
    let c = copy_text frames revision 2 in
    omega (
      arith,
      length-copy_text name 10 t.0,
      length-copy_text version 4 t.1,
      length-copy_text revision 2 t.2,
      length-append a (b ++ (c ++ protocol ∷ [])),
      length-append b (c ++ protocol ∷ []),
      length-append c (protocol ∷ []),
    )

get-all_bytes :
    (name version revision : List ℕ) (protocol : ℕ)
    → AreTexts frames name version revision
    → get (all_bytes (info_of frames name version revision protocol))
      ≡ some (info_of frames name version revision protocol)
get-all_bytes name version revision protocol t =
    let a = copy_text frames name 10 in
    let b = copy_text frames version 4 in
    let c = copy_text frames revision 2 in
    let d : List ℕ = protocol ∷ [] in
    let la = length-copy_text name 10 t.0 in
    let lb = length-copy_text version 4 t.1 in
    let lc = length-copy_text revision 2 t.2 in
    rw (
      take-append 10 a (b ++ (c ++ d)) la,
      drop-append 10 a (b ++ (c ++ d)) la,
      take-append 4 b (c ++ d) lb,
      drop-append 4 b (c ++ d) lb,
      take-append 2 c d lc,
      drop-append 2 c d lc,
    )

put-written :
    (info : DeviceInfo) (buffer : List ℕ)
    → (put info buffer).0 ≡ true
    → (put info buffer).1
      ≡ (length (all_bytes info), all_bytes info ++ drop (length (all_bytes info)) buffer)
put-written info buffer e = ground arith

frames-IsCodec : IsCodec frames get
frames-IsCodec = record {
  enough = λ name version revision protocol buffer t p e.
      ground (arith, length-all_bytes name version revision protocol t);
  same_buffer = λ info buffer. ground (
    arith,
    length-append (all_bytes info) (drop (length (all_bytes info)) buffer),
    length-drop (length (all_bytes info)) buffer,
  );
  within = λ info buffer e. ground arith;
  decoded = λ name version revision protocol buffer t p e.
      let info = info_of frames name version revision protocol in
      let l =
        take-append (length (all_bytes info)) (all_bytes info)
          (drop (length (all_bytes info)) buffer) refl in
      ap (λ r. get (take r.0 r.1)) (put-written info buffer e)
      ∙ ap get l
      ∙ get-all_bytes name version revision protocol t;
}

abbrev request : Frame frames
request = record {
  version = 1;
  kind = 0;
  flags = 0;
  reserved = 0;
  seq = 48879;
  type = 0;
  payload = [];
}

dispatch-value_example :
    (payload : List ℕ) × ((dispatch frames request (replicate 20 0) 77).result
      ≡ value (response_to frames request payload))
    × (payload
        ≡ take
            (dispatch frames request (replicate 20 0) 77).bytes_written
            (dispatch frames request (replicate 20 0) 77).buffer)
    × (length payload ≡ (dispatch frames request (replicate 20 0) 77).bytes_written)
    × (length (dispatch frames request (replicate 20 0) 77).buffer ≡ 20)
    × (get payload
        ≡ some (info_of frames device_name_text firmware_version_text hardware_revision_text 1))
dispatch-value_example =
    dispatch-value frames get frames-IsCodec (ground arith) request (replicate 20 0) 77
      (ground arith)

dispatch-unexpected_example :
    dispatch frames (record request { kind = 1 }) (replicate 20 0) 77
    ≡ record { result = unexpected 1; buffer = replicate 20 0; bytes_written = 0 }
dispatch-unexpected_example =
    dispatch-unexpected frames (record request { kind = 1 }) (replicate 20 0) 77 (ground arith)
