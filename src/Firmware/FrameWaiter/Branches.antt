-- ===== src/Firmware/FrameWaiter/Branches.antt =====
-- The branches in which `tryReadFrame` returns.
use easy_lo_ra_reforged.Base.{
  ℕ, zero, suc, ◌<◌, ◌≡◌, refl, sym, ap, ◌∙◌, subst, false, List, [], ◌++◌, Option, some, arith,
  length, drop, ltb, ◌==◌, if◌then◌else◌, inl, inr, Bool-cases, length-take,
}
use easy_lo_ra_reforged.Firmware.RingBuffer.{RingBuffer, IsFifo}
use easy_lo_ra_reforged.Firmware.FrameWaiter.{
  ReadFrameStatus, ok, buffer_too_small, incomplete_frame, overflow, packet_delimiter, FrameWaiter,
  Reading, drop_buffer, drop_frame, take_frame, end_of_buffer,
}
use easy_lo_ra_reforged.Firmware.FrameWaiter.Receive.{
  Received, after_delimiter, receive, pending, IsValid, Did,
}

module _ (R : RingBuffer) (fifo : IsFifo R) where
  open R use {Ring, contents, remove}

  drop_buffer_lem :
      (fuel : ℕ) (ring : Ring)
      → length (contents ring) < fuel
      → (q : Ring) × (drop_buffer R fuel ring ≡ some q)
        × (contents q ≡ after_delimiter (contents ring))
  unfolding drop_buffer after_delimiter
  drop_buffer_lem zero ring h = absurd (omega arith)
  drop_buffer_lem (suc fuel) ring h = elim (fifo.removed ring) [
    | inl (e, none_left) ↦ (ring, rw (none_left, drop_buffer), rw e)
    | inr (b, q, e, some_left) ↦
        let (q', found, left) = drop_buffer_lem fuel q (omega (arith, ap (length {A = ℕ}) e)) in
        rw (some_left, e, drop_buffer)
          (elim (Bool-cases (b == packet_delimiter)) [
            | inl here ↦ rw here (q, refl, refl)
            | inr later ↦ rw later (q', found, left)
          ])
  ]

  -- What `drop_frame` does on a waiter, whatever was pending.
  pub drop_frame_lem :
      (fuel : ℕ) (w v : FrameWaiter R) (output : List ℕ) (status : ReadFrameStatus)
      → length (contents v.buffer) < fuel
      → v.pending_frame_buffer ≡ w.pending_frame_buffer
      → v.dropping_feed_bytes ≡ w.dropping_feed_bytes
      → v.notified ≡ w.notified
      → v.callback ≡ w.callback
      → Did R w output (drop_frame R fuel v output status) (record {
        status = status;
        frame = [];
        pending = [];
        unread = after_delimiter (contents v.buffer);
        overflow = v.overflow;
      })
  unfolding drop_frame
  drop_frame_lem fuel w v output status h array producer notified callback =
      let (q, found, left) = drop_buffer_lem fuel v.buffer h in
      rw (found, drop_frame)
        (record {
          reading = record {
            waiter = record v { buffer = q; pending_frame_size = 0 };
            output = output;
            bytes_written = 0;
            status = status;
          };
          returned = refl;
          status = refl;
          bytes_written = refl;
          output_buffer = refl;
          pending_frame = refl;
          valid = omega arith;
          array = ap length array;
          ring = left;
          overflowed = refl;
          producer = producer;
          notified = notified;
          callback = callback;
        })

  pub end_of_buffer_lem :
      (fuel : ℕ) (w : FrameWaiter R) (output : List ℕ) (buffer_capacity : ℕ)
      → contents w.buffer ≡ []
      → IsValid R w
      → length (contents w.buffer) < fuel
      → Did R w output
          (end_of_buffer R fuel w output)
          (receive (length w.pending_frame_buffer) buffer_capacity w.overflow (pending R w) [])
  unfolding end_of_buffer receive after_delimiter
  end_of_buffer_lem fuel w output buffer_capacity e v h = elim (Bool-cases w.overflow) [
    | inl yes' ↦ simp yes' (
        subst
          (λ u.
            Did R w output (drop_frame R fuel (record w { overflow = false }) output overflow)
              (record {
                status = overflow;
                frame = [];
                pending = [];
                unread = u;
                overflow = false;
              }))
          (rw e)
          (drop_frame_lem fuel w (record w { overflow = false }) output overflow h refl refl refl
            refl))
    | inr no' ↦ simp no' (record {
      reading = record {
        waiter = w;
        output = output;
        bytes_written = 0;
        status = incomplete_frame;
      };
      returned = refl;
      status = refl;
      bytes_written = refl;
      output_buffer = refl;
      pending_frame = refl;
      valid = v;
      array = refl;
      ring = e;
      overflowed = no';
      producer = refl;
      notified = refl;
      callback = refl;
    })
  ]

  pub length-pending :
      (w : FrameWaiter R) → IsValid R w → length (pending R w) ≡ w.pending_frame_size
  length-pending w v = omega (arith, length-take w.pending_frame_size w.pending_frame_buffer)

  pub take_frame_lem :
      (w : FrameWaiter R) (ring : Ring) (output : List ℕ) (buffer_capacity : ℕ)
      → IsValid R w
      → Did R w output (some (take_frame R (record w { buffer = ring }) output buffer_capacity)) (
          if ltb buffer_capacity w.pending_frame_size
          then record {
            status = buffer_too_small;
            frame = [];
            pending = [];
            unread = contents ring;
            overflow = w.overflow;
          }
          else record {
            status = ok;
            frame = pending R w;
            pending = [];
            unread = contents ring;
            overflow = w.overflow;
          })
  unfolding take_frame
  take_frame_lem w ring output buffer_capacity v =
      elim (Bool-cases (ltb buffer_capacity w.pending_frame_size)) [
        | inl small ↦ rw small (record {
          reading = record {
            waiter = emptied;
            output = output;
            bytes_written = 0;
            status = buffer_too_small;
          };
          returned = refl;
          status = refl;
          bytes_written = refl;
          output_buffer = refl;
          pending_frame = refl;
          valid = omega arith;
          array = refl;
          ring = refl;
          overflowed = refl;
          producer = refl;
          notified = refl;
          callback = refl;
        })
        | inr fits ↦ rw fits (record {
          reading = record {
            waiter = emptied;
            output = pending R w ++ drop w.pending_frame_size output;
            bytes_written = w.pending_frame_size;
            status = ok;
          };
          returned = refl;
          status = refl;
          bytes_written = sym (length-pending w v);
          output_buffer = rw (length-pending w v);
          pending_frame = refl;
          valid = omega arith;
          array = refl;
          ring = refl;
          overflowed = refl;
          producer = refl;
          notified = refl;
          callback = refl;
        })
      ]
    where
      emptied : FrameWaiter R
      emptied = record w { buffer = ring; pending_frame_size = 0 }

  -- What a call did is the same seen from a waiter that differs in its ring and pending frame only.
  pub Did-from :
      (w v : FrameWaiter R) (output : List ℕ) (res : Option (Reading R)) (r : Received)
      → length v.pending_frame_buffer ≡ length w.pending_frame_buffer
      → v.dropping_feed_bytes ≡ w.dropping_feed_bytes
      → v.notified ≡ w.notified
      → v.callback ≡ w.callback
      → Did R v output res r
      → Did R w output res r
  Did-from w v output res r array producer notified callback d = record {
    reading = d.reading;
    returned = d.returned;
    status = d.status;
    bytes_written = d.bytes_written;
    output_buffer = d.output_buffer;
    pending_frame = d.pending_frame;
    valid = d.valid;
    array = d.array ∙ array;
    ring = d.ring;
    overflowed = d.overflowed;
    producer = d.producer ∙ producer;
    notified = d.notified ∙ notified;
    callback = d.callback ∙ callback;
  }
