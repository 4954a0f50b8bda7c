-- ===== src/Api/Transport/Tests.antt =====
-- Runs and instances, over a port that accepts every option, and opens or not as it is told.
use easy_lo_ra_reforged.Base.{
  ℕ, ◌≡◌, ◌≢◌, refl, Bool, true, false, not, List, [], ◌∷◌, none, some, arith, ◌⊎◌, ◌==◌,
}
use easy_lo_ra_reforged.Api.Types.{default_buffer_config, cancelled}
use easy_lo_ra_reforged.Api.Boost.{Boost}
use easy_lo_ra_reforged.Api.Transport.{
  Pimpl, returned, undefined, init, configure, default_serial_config, open_state, closed_state,
  write_call,
}
use easy_lo_ra_reforged.Api.Transport.Handlers.{check_write, reserve}
use easy_lo_ra_reforged.Api.Transport.Strand.{
  Task, open_task, close_task, write_handler_task, enqueue_task, read_task, write_task, exec,
  Leaves, by_return, by_throw, System, Step, posts, checks, reserves, enqueues, reads, writes, runs,
  Reach, opens, start, async_write,
}
use easy_lo_ra_reforged.Api.Transport.Strand
use easy_lo_ra_reforged.Api.Transport.Lifecycle.{IsConsistent, Reach-IsConsistent, exec_closed}
use easy_lo_ra_reforged.Api.Transport.Sessions.{
  IsSound, History, History-IsSound, exec-ne-undefined,
}
use easy_lo_ra_reforged.Api.Transport.Sessions

-- Error codes: 0 success, 1 not_found, 2 eof, 3 bad descriptor, 4 permission denied, others unknown.
abbrev pub fake : Boost
fake = record {
  ErrorCode = ℕ;
  failed = λ e. not (e == 0);
  is_not_found = λ e. e == 1;
  is_eof = λ e. e == 2;
  is_bad_file_descriptor = λ e. e == 3;
  is_bad_descriptor = λ e. e == 3;
  is_no_such_device = λ e. false;
  is_permission_denied = λ e. e == 4;
  FlowControl = Unit;
  Parity = Unit;
  StopBits = Unit;
  flow_control_none = tt;
  parity_none = tt;
  stop_bits_one = tt;
  Stream = Bool;
  open_port = λ path s. (s, s);
  set_baud_rate = λ rate s. (true, s);
  set_character_size = λ size s. (true, s);
  set_parity = λ parity s. (true, s);
  set_stop_bits = λ bits s. (true, s);
  set_flow_control = λ control s. (true, s);
  cancel = λ s. s;
  close = λ s. s;
}

-- An open transport in its first session, with a write handler and nothing queued.
abbrev pub opened : Pimpl fake
opened = record {
  serial = true;
  buffer_config = default_buffer_config;
  rx_buffer = [];
  tx_deque = [];
  frame_handler = some 1;
  fatal_error_handler = some 2;
  recuperable_error_handler = some 3;
  write_handler = some 4;
  closing = false;
  stopped = false;
  generation = 1;
  pending_writes = 0;
  current_state = open_state;
  reads = 1 ∷ [];
  writes = [];
  log = [];
}

abbrev closed_one : Pimpl fake
closed_one = record opened {
  closing = true;
  stopped = true;
  current_state = closed_state;
  generation = 2;
  pending_writes = 1;
}

abbrev pub the_open : Task fake
the_open = open_task "/dev/ttyUSB0" (default_serial_config fake) default_buffer_config

abbrev pub first : Pimpl fake
first = record opened {
  frame_handler = none;
  fatal_error_handler = none;
  recuperable_error_handler = none;
  write_handler = none;
}

abbrev pub system :
    Pimpl fake → List (Task fake) → List (List ℕ × ℕ) → List (List ℕ × ℕ) → System fake
system p queue checked reserved = record {
  pimpl = p;
  queue = queue;
  checked = checked;
  reserved = reserved;
}

-- A session is opened, one message is accepted and its write has started.
opening-History : History fake (start fake (init fake true)) (
    system
      (record first { pending_writes = 1; tx_deque = (7 ∷ [], 9) ∷ []; writes = 1 ∷ [] })
      []
      []
      [])
unfolding start init exec configure check_write reserve
opening-History =
    Sessions.next
      (Sessions.next
        (Sessions.next
          (Sessions.next
            (Sessions.next
              (Sessions.next Sessions.here (omega arith) (
                posts the_open
                  (opens "/dev/ttyUSB0" (default_serial_config fake) default_buffer_config)))
              (omega arith) (runs the_open [] first refl (by_return _)))
            (omega arith) (checks (7 ∷ []) 9 refl))
          (omega arith) (reserves (7 ∷ []) 9 0 [] [] [] refl refl))
        (omega arith) (enqueues (7 ∷ []) 9 [] [] refl))
      (omega arith) (runs (enqueue_task (7 ∷ []) 9) [] _ refl (by_return _))

-- Its write has completed, and the completion is posted.
pub completed-History : History fake (start fake (init fake true)) (
    system
      (record first { pending_writes = 1; tx_deque = (7 ∷ [], 9) ∷ [] })
      (write_task 0 1 1 ∷ [])
      []
      [])
completed-History = Sessions.next opening-History (omega arith) (writes 0 1 1 [] [] refl refl)

IsConsistent-opened : IsConsistent fake opened
IsConsistent-opened = ground arith

opening-Reach : Reach fake (start fake (init fake true)) (system first [] [] [])
unfolding start init exec configure
opening-Reach =
    Strand.next
      (Strand.next Strand.here
        (posts the_open (opens "/dev/ttyUSB0" (default_serial_config fake) default_buffer_config)))
      (runs the_open [] first refl (by_return _))

Reach-IsConsistent_example : IsConsistent fake first
Reach-IsConsistent_example = Reach-IsConsistent fake true opening-Reach

exec_closed_example :
    (exec fake closed_one (enqueue_task (7 ∷ []) 5) ≡ returned closed_one)
    ⊎ ((bytes : List ℕ) × (id : ℕ) × (◌≡◌ {A = Task fake}
          (enqueue_task (7 ∷ []) 5)
          (enqueue_task bytes id))
        × (exec fake closed_one (enqueue_task (7 ∷ []) 5)
            ≡ returned
                (record closed_one { pending_writes = 0; log = write_call 4 cancelled id ∷ [] })))
exec_closed_example = exec_closed fake closed_one (enqueue_task (7 ∷ []) 5) refl

History-IsSound_example : IsSound fake (
    system
      (record first { pending_writes = 1; tx_deque = (7 ∷ [], 9) ∷ [] })
      (write_task 0 1 1 ∷ [])
      []
      [])
History-IsSound_example = History-IsSound fake true completed-History

exec-ne-undefined_example :
    exec fake (record first { pending_writes = 1; tx_deque = (7 ∷ [], 9) ∷ [] }) (write_task 0 1 1)
    ≢ undefined
exec-ne-undefined_example = exec-ne-undefined fake true (write_task 0 1 1) [] completed-History refl
