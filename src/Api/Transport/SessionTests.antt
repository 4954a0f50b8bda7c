-- ===== src/Api/Transport/SessionTests.antt =====
-- Instances of what holds over one session, and of the error dispatch.
use easy_lo_ra_reforged.Base.{ℕ, ◌≡◌, refl, true, List, [], ◌∷◌, arith, ◌++◌}
use easy_lo_ra_reforged.Api.Types.{default_buffer_config}
use easy_lo_ra_reforged.Api.Transport.{
  init, configure, default_serial_config, frame_call, terminated,
}
use easy_lo_ra_reforged.Api.Transport.Handlers.{check_write, reserve}
use easy_lo_ra_reforged.Api.Transport.Strand.{
  exec, by_return, posts, checks, reserves, runs, opens, start,
}
use easy_lo_ra_reforged.Api.Transport.Backpressure.{
  IsCounted, QuietHistory, lost, QuietHistory-IsCounted,
}
use easy_lo_ra_reforged.Api.Transport.Backpressure
use easy_lo_ra_reforged.Api.Transport.Reading.{
  Receives, Receives-frames, told_frames, AllFrames, join,
}
use easy_lo_ra_reforged.Api.Transport.Reading
use easy_lo_ra_reforged.Api.Transport.Counting.{count}
use easy_lo_ra_reforged.Api.Transport.Dispatch.{dispatch_error-terminated, IsClassified}
use easy_lo_ra_reforged.Api.Transport.Handlers.{handle_read, dispatch_error}
use easy_lo_ra_reforged.Api.Transport.Tests.{fake, opened, first, system, the_open}

quiet_history :
    QuietHistory fake
      (start fake (init fake true))
      (system (record first { pending_writes = 1 }) [] [] ((7 ∷ [], 9) ∷ []))
unfolding start init exec configure check_write reserve
quiet_history =
    Backpressure.next
      (Backpressure.next
        (Backpressure.next
          (Backpressure.next Backpressure.here (omega arith)
            (posts the_open
              (opens "/dev/ttyUSB0" (default_serial_config fake) default_buffer_config))
            tt)
          (omega arith) (runs the_open [] first refl (by_return _)) (refl, refl, omega arith))
        (omega arith) (checks (7 ∷ []) 9 refl) tt)
      (omega arith) (reserves (7 ∷ []) 9 0 [] [] [] refl refl) tt

QuietHistory-IsCounted_example :
    IsCounted fake (record first { pending_writes = 1 }) [] 1 (lost fake quiet_history)
QuietHistory-IsCounted_example = QuietHistory-IsCounted fake true quiet_history

-- A frame and the beginning of the next come in, and then its end.
receives : Receives fake 0 opened (5 ∷ 6 ∷ 0 ∷ 7 ∷ 0 ∷ []) (record opened {
  rx_buffer = [];
  log = frame_call 1 (5 ∷ 6 ∷ 0 ∷ []) ∷ frame_call 1 (7 ∷ 0 ∷ []) ∷ [];
})
unfolding handle_read
receives =
    Reading.completed 0 (0 ∷ []) (7 ∷ []) [] [] []
      (Reading.completed 0 (5 ∷ 6 ∷ 0 ∷ 7 ∷ []) (5 ∷ 6 ∷ []) (7 ∷ []) [] [] Reading.begun refl refl
        refl (omega arith, (omega arith, tt)) refl)
      refl refl refl (omega arith, tt) refl

Receives-frames_example :
    ((frames : List (List ℕ)) × ((5 ∷ 6 ∷ 0 ∷ []) ∷ (7 ∷ 0 ∷ []) ∷ [] ≡ frames)
      × AllFrames fake 0 frames
      × (join frames ++ [] ≡ 5 ∷ 6 ∷ 0 ∷ 7 ∷ 0 ∷ []))
    × ◌≡◌ {A = ℕ} 1 1
    × (count 1 (1 ∷ []) ≡ count 1 (1 ∷ []))
Receives-frames_example = Receives-frames fake 0 opened 1 (refl, refl, refl) receives

dispatch_error-terminated_example :
    ((dispatch_error fake opened 5 ≡ terminated) → ¬ IsClassified fake 5)
    × (¬ IsClassified fake 5 → dispatch_error fake opened 5 ≡ terminated)
dispatch_error-terminated_example = dispatch_error-terminated fake opened 5 2 refl refl
