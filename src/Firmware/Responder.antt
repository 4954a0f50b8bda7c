-- ===== src/Firmware/Responder.antt =====
-- firmware/lib/FrameResponder/FrameResponder.cpp and firmware/lib/GetDeviceInfoHandler/: the answer to a
-- frame. `Frame.hpp` and the `ProtocolErrors.hpp` of the firmware, nanopb and what it generates are not
-- in the repository: `Frames` holds what the source uses of them. Strings are lists of their bytes.
pub mod Answers
mod Tests
use easy_lo_ra_reforged.Base.{
  ℕ, Bool, true, false, not, List, [], ◌∷◌, ◌++◌, length, take, drop, replicate, ltb, if◌then◌else◌,
}
use easy_lo_ra_reforged.Protocol.Errors.{Expected, value, unexpected}

-- `DeviceInfo_`; the first three are arrays of characters.
pub record DeviceInfo : Type 0 where
  pub device_name : List ℕ
  pub firmware_version : List ℕ
  pub hardware_revision : List ℕ
  pub protocol_version : ℕ

pub record Frames : Type 1 where
  pub Version : Type 0
  pub actual_frame_version : Version
  pub PackageKind : Type 0
  pub is_request : PackageKind → Bool
  pub response : PackageKind
  pub MessageType : Type 0
  pub is_get_device_info : MessageType → Bool
  pub get_device_info : MessageType
  pub ProtocolErrors : Type 0
  pub handler_with_incorrect_type : ProtocolErrors
  pub incoherent_frame : ProtocolErrors
  pub output_buffer_too_small : ProtocolErrors
  pub codification_error : ProtocolErrors
  pub invalid_message_type : ProtocolErrors
  -- The sizes of the three arrays, and `DeviceInfo__size`.
  pub device_name_size : ℕ
  pub firmware_version_size : ℕ
  pub hardware_revision_size : ℕ
  pub device_info_size : ℕ
  -- `pb_encode` into a stream over a buffer: its result, `bytes_written`, and the buffer afterwards.
  pub pb_encode : DeviceInfo → List ℕ → Bool × (ℕ × List ℕ)

-- "0.1", "Easy LoRa" and "2".
abbrev pub firmware_version_text : List ℕ
firmware_version_text = 48 ∷ 46 ∷ 49 ∷ []

abbrev pub device_name_text : List ℕ
device_name_text = 69 ∷ 97 ∷ 115 ∷ 121 ∷ 32 ∷ 76 ∷ 111 ∷ 82 ∷ 97 ∷ []

abbrev pub hardware_revision_text : List ℕ
hardware_revision_text = 50 ∷ []

abbrev pub protocol_version_number : ℕ
protocol_version_number = 1

module _ (F : Frames) where
  open F use {Version, PackageKind, MessageType, ProtocolErrors}

  pub record Frame : Type 0 where
    pub version : Version
    pub kind : PackageKind
    pub flags : ℕ
    pub reserved : ℕ
    pub seq : ℕ
    pub type : MessageType
    pub payload : List ℕ

  -- `std::memcpy` of a text to the beginning of a zeroed array of `size` characters.
  abbrev pub copy_text : List ℕ → ℕ → List ℕ
  copy_text text size = text ++ drop (length text) (replicate size 0)

  unfoldable pub get_device_info_message : DeviceInfo
  get_device_info_message = record {
    device_name = copy_text device_name_text F.device_name_size;
    firmware_version = copy_text firmware_version_text F.firmware_version_size;
    hardware_revision = copy_text hardware_revision_text F.hardware_revision_size;
    protocol_version = protocol_version_number;
  }

  -- What a handler returns, and what the caller's payload buffer and `bytesWritten` hold afterwards.
  pub record Answer : Type 0 where
    pub result : Expected Frame ProtocolErrors
    pub buffer : List ℕ
    pub bytes_written : ℕ

  unfoldable pub handle_request : Frame → List ℕ → ℕ → Answer
  handle_request frame frame_payload_buffer bytes_written =
      if ltb (length frame_payload_buffer) F.device_info_size
      then record {
        result = unexpected F.output_buffer_too_small;
        buffer = frame_payload_buffer;
        bytes_written = bytes_written;
      }
      else let (encoded, (count, buffer)) =
          F.pb_encode get_device_info_message frame_payload_buffer in
        if not encoded
        then record {
          result = unexpected F.codification_error;
          buffer = buffer;
          bytes_written = bytes_written;
        }
        else record {
          result = value (record {
            version = F.actual_frame_version;
            kind = F.response;
            flags = 0;
            reserved = 0;
            seq = frame.seq;
            type = F.get_device_info;
            payload = take count buffer;
          });
          buffer = buffer;
          bytes_written = count;
        }

  -- `GetDeviceInfoHandle::handle`.
  unfoldable pub handle : Frame → List ℕ → ℕ → Answer
  unfolding handle_request
  handle frame frame_payload_buffer bytes_written =
      if not (F.is_get_device_info frame.type)
      then record {
        result = unexpected F.handler_with_incorrect_type;
        buffer = frame_payload_buffer;
        bytes_written = bytes_written;
      }
      else if F.is_request frame.kind
      then handle_request frame frame_payload_buffer bytes_written
      else record {
        result = unexpected F.incoherent_frame;
        buffer = frame_payload_buffer;
        bytes_written = bytes_written;
      }

  -- `FrameResponder::dispatch`.
  unfoldable pub dispatch : Frame → List ℕ → ℕ → Answer
  unfolding handle
  dispatch frame frame_payload_buffer bytes_written =
      if F.is_get_device_info frame.type then handle frame frame_payload_buffer 0 else record {
        result = unexpected F.invalid_message_type;
        buffer = frame_payload_buffer;
        bytes_written = 0;
      }
