-- ===== src/Firmware/Core1/Tests.antt =====
-- Runs and instances: a frame is its bytes with a type, the codec adds nothing, and a request of one
-- byte is answered with the device information of Responder/Tests.
use easy_lo_ra_reforged.Base.{
  ℕ, ◌≡◌, refl, Bool, true, false, List, [], ◌∷◌, some, arith, inl, ◌==◌, ◌++◌,
}
use easy_lo_ra_reforged.Protocol.Errors.{Expected, value, unexpected}
use easy_lo_ra_reforged.Firmware.RingBuffer.{RingBuffer, list_ring, list_ring-IsFifo}
use easy_lo_ra_reforged.Firmware.FrameWaiter.Receive.{pending}
use easy_lo_ra_reforged.Firmware.FrameWaiter.Streams.{to_stream}
use easy_lo_ra_reforged.Firmware.Responder.{Frames, Frame, DeviceInfo, dispatch}
use easy_lo_ra_reforged.Firmware.Core1.{Core1, serve}
use easy_lo_ra_reforged.Firmware.FrameWaiter.{incomplete_frame, init}
use easy_lo_ra_reforged.Firmware.FrameWaiter.Concurrent.{announcing, away, consumer_turn, feed_turn}
use easy_lo_ra_reforged.Firmware.Core1.Wakeup.{
  Cores, core_1_turn, feed_begin, Heard, begin, Reach, here, next, reads, feeds,
}
use easy_lo_ra_reforged.Firmware.Core1.Wakeup.Hearing.{Reach-Heard}
use easy_lo_ra_reforged.Firmware.Core1.Termination.{serve-returns}
use easy_lo_ra_reforged.Firmware.Core1.Replies.{replies, Wakes}
use easy_lo_ra_reforged.Firmware.Core1.Serving.{serve-replies, serve-stops}

-- `pb_encode` writes the single byte 3.
abbrev put : DeviceInfo → List ℕ → Bool × (ℕ × List ℕ)
put info [] = (false, (0, []))
put info (b ∷ bs) = (true, (1, 3 ∷ bs))

abbrev pub frames : Frames
frames = record {
  Version = ℕ;
  actual_frame_version = 1;
  PackageKind = ℕ;
  is_request = λ k. k == 0;
  response = 1;
  MessageType = ℕ;
  is_get_device_info = λ t. t == 7;
  get_device_info = 7;
  ProtocolErrors = ℕ;
  handler_with_incorrect_type = 0;
  incoherent_frame = 1;
  output_buffer_too_small = 2;
  codification_error = 3;
  invalid_message_type = 4;
  device_name_size = 10;
  firmware_version_size = 4;
  hardware_revision_size = 2;
  device_info_size = 1;
  pb_encode = put;
}

-- The first byte is the message's type.
abbrev pub decode : List ℕ → Expected (Frame frames) ℕ
decode [] = unexpected 9
decode (b ∷ bs) =
    value
      (record { version = 1; kind = 0; flags = 0; reserved = 0; seq = 5; type = b; payload = bs })

abbrev pub encode : Frame frames → Expected (List ℕ) ℕ
encode f = value (f.seq ∷ f.payload)

abbrev pub rx : RingBuffer
rx = list_ring 16

abbrev pub tx : RingBuffer
tx = list_ring 8

abbrev core : List ℕ → Core1 frames rx tx
core ring = record {
  uart_0_rx_frame_waiter = record {
    buffer = ring;
    pending_frame_buffer = 0 ∷ 0 ∷ 0 ∷ 0 ∷ [];
    pending_frame_size = 0;
    overflow = false;
    dropping_feed_bytes = false;
    callback = true;
    notified = 0;
  };
  uart_0_tx_frame_waiter = record {
    buffer = [];
    pending_frame_buffer = [];
    pending_frame_size = 0;
    overflow = false;
    dropping_feed_bytes = false;
    callback = true;
    notified = 0;
  };
  received_frame_codified_buffer = 0 ∷ 0 ∷ 0 ∷ 0 ∷ [];
  response_frame_payload = 0 ∷ 0 ∷ [];
  bytes_written = 0;
}

-- A request, a message that no handler answers, an empty frame, a request, and the beginning of a frame.
abbrev inbox : List (List ℕ)
inbox = (7 ∷ []) ∷ (1 ∷ 2 ∷ []) ∷ [] ∷ (7 ∷ 4 ∷ []) ∷ []

replies_run : replies frames decode encode inbox (0 ∷ 0 ∷ []) ≡ 5 ∷ 3 ∷ 0 ∷ 5 ∷ 3 ∷ 0 ∷ []
unfolding replies dispatch
replies_run = refl

serve-returns_example :
    (t : Core1 frames rx tx) × (serve frames rx tx decode encode 5 (core (7 ∷ 0 ∷ 1 ∷ [])) ≡ some t)
serve-returns_example =
    serve-returns frames rx tx decode encode (list_ring-IsFifo 16) 5 (core (7 ∷ 0 ∷ 1 ∷ []))
      (omega arith) (omega arith)

-- A frame of five bytes, and a request behind it.
serve-stops_example :
    (t : Core1 frames rx tx) × (serve frames rx tx decode encode 3
        (core (1 ∷ 1 ∷ 1 ∷ 1 ∷ 1 ∷ 0 ∷ 7 ∷ 0 ∷ []))
      ≡ some t)
    × Wakes frames decode encode rx tx (list_ring-IsFifo 16) (list_ring-IsFifo 8) t (7 ∷ 0 ∷ [])
    × (t.uart_0_tx_frame_waiter ≡ (core []).uart_0_tx_frame_waiter)
serve-stops_example =
    serve-stops frames decode encode rx tx (list_ring-IsFifo 16) (list_ring-IsFifo 8)
      (core (1 ∷ 1 ∷ 1 ∷ 1 ∷ 1 ∷ 0 ∷ 7 ∷ 0 ∷ [])) (1 ∷ 1 ∷ 1 ∷ 1 ∷ 1 ∷ []) (7 ∷ 0 ∷ []) 2
      (record { valid = omega arith; pending_free = tt; unread = refl }) (ground arith)
      (inl (omega arith))

-- Core 1 found the ring empty; a request and its delimiter come; only then core 1 goes to `__wfe`.
abbrev asleep : Cores rx
asleep = record {
  waiter = record (init rx [] 4 true) { buffer = 7 ∷ 0 ∷ [] };
  producer = announcing;
  consumer = away;
  waiting = some incomplete_frame;
  event = false;
}

asleep-Reach : Reach rx 4 (begin rx 4 [] 4) asleep
unfolding init core_1_turn feed_begin consumer_turn feed_turn
asleep-Reach =
    next (next (next (next here (reads refl)) (feeds 7 refl)) (feeds 0 refl)) (reads refl)

Reach-Heard_example : Heard rx asleep
Reach-Heard_example =
    Reach-Heard rx (list_ring-IsFifo 16) 4 [] 4 incomplete_frame asleep-Reach refl (ground arith)

-- Four whole frames, of which two are answered, and the beginning of a fifth.
serve-replies_example :
    (t : Core1 frames rx tx) × (serve frames rx tx decode encode 6
        (core (to_stream inbox ++ 7 ∷ []))
      ≡ some t)
    × (tx.contents t.uart_0_tx_frame_waiter.buffer
        ≡ [] ++ replies frames decode encode inbox (0 ∷ 0 ∷ []))
    × (rx.contents t.uart_0_rx_frame_waiter.buffer ≡ [])
    × (pending rx t.uart_0_rx_frame_waiter ≡ 7 ∷ [])
unfolding replies dispatch
serve-replies_example =
    serve-replies frames decode encode rx tx (list_ring-IsFifo 16) (list_ring-IsFifo 8) inbox
      (7 ∷ []) (core (to_stream inbox ++ 7 ∷ [])) [] 6
      (record { valid = omega arith; pending_free = tt; unread = refl }) (ground arith)
      (ground arith) (ground arith) refl (refl, refl) (omega arith) (omega arith)
