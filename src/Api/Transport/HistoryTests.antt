-- ===== src/Api/Transport/HistoryTests.antt =====
-- Whole histories, and the theorems about them at these.
use easy_lo_ra_reforged.Base.{◌≡◌, refl, true, [], ◌∷◌, ◌++◌, some, arith}
use easy_lo_ra_reforged.Base.Thinned.{Thinned}
use easy_lo_ra_reforged.Api.Transport.AtMostOnce.{posted_ids, History-reports}
use easy_lo_ra_reforged.Api.Transport.AtMostOnce.{on_the_way}
use easy_lo_ra_reforged.Api.Transport.Lossless.{
  Session, begun, next, session_ids, Session-on_the_way,
}
use easy_lo_ra_reforged.Api.Transport.Lending.{exec-KeepsOrDestroys, KeepsOrDestroys}
use easy_lo_ra_reforged.Api.Transport.Counting.{count}
use easy_lo_ra_reforged.Api.Transport.Arrivals.{arrived, Reach-frames}
use easy_lo_ra_reforged.Api.Types.{default_buffer_config, written}
use easy_lo_ra_reforged.Api.Transport.{
  Pimpl, init, configure, default_serial_config, write_call, frame_call, closed_state,
}
use easy_lo_ra_reforged.Api.Transport.Handlers.{check_write, reserve}
use easy_lo_ra_reforged.Api.Transport.Strand.{
  enqueue_task, write_task, close_task, closes, exec, by_return, posts, checks, reserves, runs,
  opens, start, async_write,
}
use easy_lo_ra_reforged.Api.Transport.Traffic.{written_ids}
use easy_lo_ra_reforged.Api.Transport.Handlers.{handle_write, handle_read}
use easy_lo_ra_reforged.Api.Transport.Sessions.{History}
use easy_lo_ra_reforged.Api.Transport.Sessions
use easy_lo_ra_reforged.Api.Transport.Strand
use easy_lo_ra_reforged.Api.Transport.Progress.{Completions, History-drains}
use easy_lo_ra_reforged.Api.Transport.Traffic.{IsServed}
use easy_lo_ra_reforged.Api.Transport.Strand.{
  write_handler_task, sets_write_handler, enqueues, writes, System, frame_handler_task,
  sets_frame_handler, read_task, reads, Reach,
}
use easy_lo_ra_reforged.Api.Transport.Tests.{fake, first, system, the_open}

-- A session with a write handler, in which one message is accepted and its write has started.
served-History : History fake (start fake (init fake true)) (
    system
      (record first {
        write_handler = some 4;
        pending_writes = 1;
        tx_deque = (7 ∷ [], 9) ∷ [];
        writes = 1 ∷ [];
      })
      []
      []
      [])
unfolding start init exec configure check_write reserve
served-History =
    Sessions.next
      (Sessions.next
        (Sessions.next
          (Sessions.next
            (Sessions.next
              (Sessions.next
                (Sessions.next
                  (Sessions.next Sessions.here (omega arith) (
                    posts the_open
                      (opens "/dev/ttyUSB0" (default_serial_config fake) default_buffer_config)))
                  (omega arith) (runs the_open [] first refl (by_return _)))
                (omega arith) (posts (write_handler_task (some 4)) (sets_write_handler (some 4))))
              (omega arith)
              (runs (write_handler_task (some 4)) [] (record first { write_handler = some 4 }) refl
                (by_return _)))
            (omega arith) (checks (7 ∷ []) 9 refl))
          (omega arith) (reserves (7 ∷ []) 9 0 [] [] [] refl refl))
        (omega arith) (enqueues (7 ∷ []) 9 [] [] refl))
      (omega arith) (runs (enqueue_task (7 ∷ []) 9) [] _ refl (by_return _))

History-drains_example :
    (t : System fake) × Completions fake 0 1
      (system
        (record first {
          write_handler = some 4;
          pending_writes = 1;
          tx_deque = (7 ∷ [], 9) ∷ [];
          writes = 1 ∷ [];
        })
        []
        []
        [])
      t
    × (t.pimpl.tx_deque ≡ [])
    × IsServed fake t.pimpl 4
    × (written_ids t.pimpl.log ≡ 9 ∷ [])
History-drains_example =
    History-drains fake true 4 0 1 served-History refl refl (omega arith) refl (refl, refl, refl)

-- The write succeeds.
reported-History :
    History fake
      (start fake (init fake true))
      (system (record first { write_handler = some 4; log = write_call 4 written 9 ∷ [] }) [] [] [])
unfolding exec handle_write
reported-History =
    Sessions.next (Sessions.next served-History (omega arith) (writes 0 1 1 [] [] refl refl))
      (omega arith) (runs (write_task 0 1 1) [] _ refl (by_return _))

History-reports_example : Thinned ◌≡◌ (9 ∷ []) (posted_ids fake reported-History)
History-reports_example = History-reports fake true reported-History

-- The same write as a part of the session, and a call of `asyncWrite` whose message is posted.
abbrev pending_write : System fake
pending_write =
    system
      (record first {
        write_handler = some 4;
        pending_writes = 1;
        tx_deque = (7 ∷ [], 9) ∷ [];
        writes = 1 ∷ [];
      })
      [] [] []

abbrev posted_again : System fake
posted_again =
    system
      (record first {
        write_handler = some 4;
        pending_writes = 1;
        log = write_call 4 written 9 ∷ [];
      })
      (enqueue_task (8 ∷ []) 10 ∷ []) [] []

lasting : Session fake pending_write posted_again
unfolding exec handle_write check_write reserve
lasting =
    next
      (next
        (next
          (next (next begun (omega arith) (writes 0 1 1 [] [] refl refl) tt) (omega arith)
            (runs (write_task 0 1 1) [] _ refl (by_return _)) (refl, refl, (4, refl)))
          (omega arith) (checks (8 ∷ []) 10 refl) tt)
        (omega arith) (reserves (8 ∷ []) 10 0 [] [] [] refl refl) tt)
      (omega arith) (enqueues (8 ∷ []) 10 [] [] refl) tt

Session-on_the_way_example :
    on_the_way fake posted_again ≡ on_the_way fake pending_write ++ session_ids fake lasting
Session-on_the_way_example = Session-on_the_way fake true served-History refl lasting

-- A frame and the first byte of the next come in, and the frame is handed over.
frame-Reach : Reach fake (start fake (init fake true)) (
    system
      (record first {
        frame_handler = some 3;
        rx_buffer = 7 ∷ [];
        log = frame_call 3 (5 ∷ 6 ∷ 0 ∷ []) ∷ [];
      })
      []
      []
      [])
unfolding start init exec configure handle_read
frame-Reach =
    Strand.next
      (Strand.next
        (Strand.next
          (Strand.next
            (Strand.next
              (Strand.next Strand.here (
                posts the_open
                  (opens "/dev/ttyUSB0" (default_serial_config fake) default_buffer_config)))
              (runs the_open [] first refl (by_return _)))
            (posts (frame_handler_task (some 3)) (sets_frame_handler (some 3))))
          (runs (frame_handler_task (some 3)) [] (record first { frame_handler = some 3 }) refl
            (by_return _)))
        (reads (5 ∷ 6 ∷ 0 ∷ 7 ∷ []) 0 3 1 [] [] refl (omega arith)))
      (runs (read_task 0 3 1) [] _ refl (by_return _))

Reach-frames_example : Thinned ◌≡◌ (5 ∷ 6 ∷ 0 ∷ []) (arrived fake frame-Reach)
Reach-frames_example = Reach-frames fake true frame-Reach

-- The user closes the transport while the write is in flight.
closing-History : History fake (start fake (init fake true)) (
    system
      (record first {
        write_handler = some 4;
        pending_writes = 1;
        tx_deque = (7 ∷ [], 9) ∷ [];
        writes = 1 ∷ [];
      })
      (close_task ∷ [])
      []
      [])
closing-History = Sessions.next served-History (omega arith) (posts close_task closes)

abbrev closed_in_flight : Pimpl fake
closed_in_flight = record first {
  write_handler = some 4;
  pending_writes = 1;
  writes = 1 ∷ [];
  closing = true;
  stopped = true;
  current_state = closed_state;
  generation = 2;
}

exec-KeepsOrDestroys_example :
    (count 1 (1 ∷ []) ≡ 1)
    × KeepsOrDestroys fake
        (record first {
          write_handler = some 4;
          pending_writes = 1;
          tx_deque = (7 ∷ [], 9) ∷ [];
          writes = 1 ∷ [];
        })
        closed_in_flight
        close_task
unfolding exec
exec-KeepsOrDestroys_example =
    exec-KeepsOrDestroys fake true close_task [] closing-History refl refl (λ e. cc) refl
      (by_return closed_in_flight)
