-- ===== src/Firmware/Responder/Answers.antt =====
-- What the answers to frames contain.
use easy_lo_ra_reforged.Base.{
  ℕ, ◌-◌, ◌^◌, ◌≡◌, ◌≢◌, ◌≤◌, ◌<◌, true, not, List, [], ◌∷◌, Option, some, length, take,
  if◌then◌else◌, arith, length-take,
}
use easy_lo_ra_reforged.Protocol.Errors.{value, unexpected}
use easy_lo_ra_reforged.Firmware.Responder.{
  DeviceInfo, Frames, Frame, copy_text, device_name_text, firmware_version_text,
  hardware_revision_text, get_device_info_message, dispatch,
}

-- A text without NUL that leaves room for one in an array of `size` characters.
abbrev pub IsText : List ℕ → ℕ → Type 0
IsText [] size = 0 < size
IsText (c ∷ cs) size = (c ≢ 0) × (1 < size) × IsText cs (size - 1)

-- Three texts, each at the beginning of its zeroed array.
abbrev pub info_of : Frames → List ℕ → List ℕ → List ℕ → ℕ → DeviceInfo
info_of F name version revision protocol = record {
  device_name = copy_text F name F.device_name_size;
  firmware_version = copy_text F version F.firmware_version_size;
  hardware_revision = copy_text F revision F.hardware_revision_size;
  protocol_version = protocol;
}

abbrev pub AreTexts : Frames → List ℕ → List ℕ → List ℕ → Type 0
AreTexts F name version revision =
    IsText name F.device_name_size
    × IsText version F.firmware_version_size
    × IsText revision F.hardware_revision_size

-- What nanopb documents of `pb_encode` and of `DeviceInfo__size`, the largest encoded size of a message: a
-- buffer of that size is enough where the strings end within their arrays, no more than the buffer is
-- written, and what was written is decoded to the message by the parser of the other side.
pub record IsCodec (F : Frames) (decode : List ℕ → Option DeviceInfo) : Type 0 where
  pub enough :
      (name version revision : List ℕ) (protocol : ℕ) (buffer : List ℕ)
      → AreTexts F name version revision
      → protocol < 2 ^ 8
      → F.device_info_size ≤ length buffer
      → (F.pb_encode (info_of F name version revision protocol) buffer).0 ≡ true
  pub same_buffer :
      (info : DeviceInfo) (buffer : List ℕ) → length (F.pb_encode info buffer).1.1 ≡ length buffer
  pub within :
      (info : DeviceInfo) (buffer : List ℕ)
      → (F.pb_encode info buffer).0 ≡ true
      → (F.pb_encode info buffer).1.0 ≤ length buffer
  pub decoded :
      (name version revision : List ℕ) (protocol : ℕ) (buffer : List ℕ)
      → AreTexts F name version revision
      → protocol < 2 ^ 8
      → let encoded = F.pb_encode (info_of F name version revision protocol) buffer in
        encoded.0 ≡ true
        → decode (take encoded.1.0 encoded.1.1) ≡ some (info_of F name version revision protocol)

module _ (F : Frames) where
  -- A request for the device's information that finds room for the answer.
  abbrev pub IsServable : Frame F → List ℕ → Type 0
  IsServable frame buffer =
      (F.is_get_device_info frame.type ≡ true)
      × (F.is_request frame.kind ≡ true)
      × (F.device_info_size ≤ length buffer)

  abbrev pub response_to : Frame F → List ℕ → Frame F
  response_to frame payload = record {
    version = F.actual_frame_version;
    kind = F.response;
    flags = 0;
    reserved = 0;
    seq = frame.seq;
    type = F.get_device_info;
    payload = payload;
  }

  -- A request for the device's information is answered whenever the buffer holds the largest message and
  -- the texts leave room for a NUL in their arrays, whatever `bytesWritten` held before: by a response with
  -- its sequence number, whose payload is the first `bytesWritten` bytes of the buffer and is decoded to
  -- the name, the version and the revision of this firmware and protocol version 1.
  pub dispatch-value :
      (decode : List ℕ → Option DeviceInfo)
      → IsCodec F decode
      → AreTexts F device_name_text firmware_version_text hardware_revision_text
      → (frame : Frame F) (buffer : List ℕ) (bytes_written : ℕ) → IsServable frame buffer
      → (payload : List ℕ) × ((dispatch F frame buffer bytes_written).result
          ≡ value (response_to frame payload))
        × (payload
            ≡ take
                (dispatch F frame buffer bytes_written).bytes_written
                (dispatch F frame buffer bytes_written).buffer)
        × (length payload ≡ (dispatch F frame buffer bytes_written).bytes_written)
        × (length (dispatch F frame buffer bytes_written).buffer ≡ length buffer)
        × (decode payload
            ≡ some (info_of F device_name_text firmware_version_text hardware_revision_text 1))
  unfolding dispatch get_device_info_message
  dispatch-value decode C texts frame buffer bytes_written s =
      let info = info_of F device_name_text firmware_version_text hardware_revision_text 1 in
      let encoded = F.pb_encode info buffer in
      let good =
        C.enough device_name_text firmware_version_text hardware_revision_text 1 buffer texts
          (omega arith) s.2 in
      (
        take encoded.1.0 encoded.1.1,
        ground (arith, good),
        ground (arith, good),
        ground (
          arith,
          good,
          length-take encoded.1.0 encoded.1.1,
          C.within info buffer good,
          C.same_buffer info buffer,
        ),
        ground (arith, good, C.same_buffer info buffer),
        C.decoded device_name_text firmware_version_text hardware_revision_text 1 buffer texts
            (omega arith) good,
      )

  -- Every other frame is refused, with no byte counted and the buffer as it was: another type of message,
  -- then another kind of frame, then a buffer that is too small.
  pub dispatch-unexpected :
      (frame : Frame F) (buffer : List ℕ) (bytes_written : ℕ)
      → ¬ IsServable frame buffer
      → dispatch F frame buffer bytes_written ≡ record {
        result = unexpected (
            if not (F.is_get_device_info frame.type)
            then F.invalid_message_type
            else if not (F.is_request frame.kind)
            then F.incoherent_frame
            else F.output_buffer_too_small);
        buffer = buffer;
        bytes_written = 0;
      }
  unfolding dispatch
  dispatch-unexpected frame buffer bytes_written s = ground arith
