-- ===== src/Api/Transport/Port/Tests.antt =====
-- Runs over a port that is open or closed, and refuses a baud rate above 115200.
use easy_lo_ra_reforged.Base.{
  ◌≡◌, refl, Bool, true, false, [], ◌∷◌, arith, inr, leb, length, ◌≤◌, ◌-◌, ◌^◌, ℕ, List,
  if◌then◌else◌,
}
use easy_lo_ra_reforged.Api.Types.{default_buffer_config, queue_full}
use easy_lo_ra_reforged.Api.Types
use easy_lo_ra_reforged.Api.Boost.{Boost, PortLaws}
use easy_lo_ra_reforged.Api.Transport.{
  Pimpl, returned, ◌>>=◌, init, configure, default_serial_config, is_open, faulted_state,
  open_state,
}
use easy_lo_ra_reforged.Api.Transport.Handlers.{check_write, reserve}
use easy_lo_ra_reforged.Api.Transport.Strand.{
  read_task, enqueue_task, write_task, Task, open_task, close_task, exec, async_write, System,
  Reach, start, posts, opens, closes, runs, by_return, by_throw,
}
use easy_lo_ra_reforged.Api.Transport.Strand
use easy_lo_ra_reforged.Api.Transport.Tests.{fake}
use easy_lo_ra_reforged.Api.Transport.Port.{HoldsPort, Reach-HoldsPort}
use easy_lo_ra_reforged.Api.Transport.Backpressure.Underflow.{reopen_underflows}
use easy_lo_ra_reforged.Api.Transport.Port.Stuck.{failed_open_sticks}

abbrev port : Boost
port = record fake {
  open_port = λ path s. if s then (false, true) else (true, true);
  set_baud_rate = λ rate s. (leb rate 115200, s);
  close = λ s. false;
}

port-opened :
    (path : _) (s : Bool) → (port.open_port path s).0 ≡ true → (port.open_port path s).1 ≡ true
port-opened path s h = ground arith

port-already_open : (path : _) (s : Bool) → s ≡ true → port.open_port path s ≡ (false, s)
port-already_open path s h = ground arith

abbrev laws : PortLaws port
laws = record {
  is_open = λ s. s;
  opened = port-opened;
  already_open = port-already_open;
  baud_rate = λ rate s. refl;
  character_size = λ size s. refl;
  parity = λ p s. refl;
  stop_bits = λ b s. refl;
  flow_control = λ f s. refl;
  closed = λ s. refl;
}

abbrev the_open : Task port
the_open = open_task "/dev/ttyUSB0" (default_serial_config port) default_buffer_config

abbrev too_fast : Task port
too_fast =
    open_task "/dev/ttyUSB0" (record (default_serial_config port) { baud_rate = 921600 })
      default_buffer_config

-- The transport after an `open` that the port accepts.
abbrev first : Pimpl port
first = record (init port true) {
  stopped = false;
  generation = 1;
  current_state = open_state;
  reads = 1 ∷ [];
}

opened_Reach :
    Reach port
      (start port (init port false))
      (record { pimpl = first; queue = []; checked = []; reserved = [] })
unfolding start init exec configure
opened_Reach =
    Strand.next
      (Strand.next Strand.here
        (posts the_open (opens "/dev/ttyUSB0" (default_serial_config port) default_buffer_config)))
      (runs the_open [] first refl (by_return first))

Reach-HoldsPort_example : HoldsPort port laws first
Reach-HoldsPort_example = Reach-HoldsPort port laws false opened_Reach

-- The rate is refused after the port was opened; a rate that the port takes comes too late.
abbrev refused : Pimpl port
refused = record first { stopped = true; current_state = faulted_state; reads = [] }

abbrev again : Pimpl port
again = record refused { generation = 2 }

refused_Reach :
    Reach port
      (record { pimpl = refused; queue = []; checked = []; reserved = [] })
      (record { pimpl = again; queue = []; checked = []; reserved = [] })
unfolding exec configure init
refused_Reach =
    Strand.next
      (Strand.next Strand.here
        (posts the_open (opens "/dev/ttyUSB0" (default_serial_config port) default_buffer_config)))
      (runs the_open [] again refl (by_throw again))

failed_open_sticks_example :
    (is_open port again ≡ false) × ((async_write port again (7 ∷ []) 9).0 ≡ Types.closed)
unfolding exec configure init
failed_open_sticks_example =
    failed_open_sticks port laws (init port false) "/dev/ttyUSB0"
      (record (default_serial_config port) { baud_rate = 921600 }) default_buffer_config (7 ∷ []) 9
      (inr refl) refl refused_Reach

-- A message is accepted, the device is unplugged, and an `open` gets its turn before the message.
reopen_underflows_example :
    (t : Pimpl port) × ((exec port (async_write port first (7 ∷ []) 9).1 (read_task 2 0 1) >>= λ r.
    exec port r the_open >>= λ u.
    exec port u (enqueue_task (7 ∷ []) 9) >>= λ v. exec port v (write_task 0 1 v.generation))
      ≡ returned t)
    × (t.stopped ≡ false)
    × (t.tx_deque ≡ [])
    × (t.pending_writes ≡ 2 ^ 64 - 1)
    × ((message : List ℕ) (id' : ℕ)
        → length message ≤ 512
        → (async_write port t message id').0 ≡ queue_full)
unfolding exec configure async_write check_write reserve init
reopen_underflows_example =
    reopen_underflows port first
      (record first {
        serial = false;
        stopped = true;
        generation = 2;
        current_state = faulted_state;
        pending_writes = 1;
      })
      "/dev/ttyUSB0" (default_serial_config port) default_buffer_config (7 ∷ []) 9 0 1 2 0 refl refl
      refl refl refl refl (omega arith)
