-- ===== src/Api/Transport/Port/Stuck.antt =====
-- What an `open` that throws leaves behind when the port is open: api/include/SerialTransport.hpp, `open`.
use Prim.Native.String.{String}
use easy_lo_ra_reforged.Base.{◌≡◌, refl, true, false, List, [], ◌⊎◌, arith, ℕ}
use easy_lo_ra_reforged.Api.Types.{WriteStatus, SerialConfig, BufferConfig}
use easy_lo_ra_reforged.Api.Types
use easy_lo_ra_reforged.Api.Boost.{Boost, PortLaws}
use easy_lo_ra_reforged.Api.Transport.{
  Pimpl, returned, thrown, init, configure, is_open, is_open_state, increment, faulted_state,
}
use easy_lo_ra_reforged.Api.Transport.Handlers.{check_write}
use easy_lo_ra_reforged.Api.Transport.Strand.{
  Task, open_task, exec, async_write, Leaves-cases, System, Step, posts, checks, reserves, enqueues,
  reads, writes, runs, Reach, here, next, start,
}
use easy_lo_ra_reforged.Api.Transport.Lifecycle.{reserve-fields, open_port_lem}
use easy_lo_ra_reforged.Api.Transport.Port.{Follows, configure-Follows, Reach-HoldsPort}

module _ (B : Boost) (L : PortLaws B) where
  open B use {FlowControl, Parity, StopBits, Stream}

  -- Stopped for good: no `open` can succeed on a port that is open, or on a closed transport.
  record IsStuck (p : Pimpl B) : Type 0 where
    stopped : p.stopped ≡ true
    not_open : is_open_state p.current_state ≡ false
    held : (p.closing ≡ true) ⊎ (L.is_open p.serial ≡ true)

  -- An `open` that throws over an open port leaves the port open.
  failed-IsStuck :
      (p q : Pimpl B) (path : String) (c : SerialConfig FlowControl Parity StopBits)
      (b : BufferConfig)
      → (L.is_open p.serial ≡ true) ⊎ ((B.open_port path p.serial).0 ≡ true)
      → exec B p (open_task path c b) ≡ thrown q
      → IsStuck q
  unfolding exec Follows
  failed-IsStuck p q path c b o e =
      let (same, first) = configure-Follows B L p.serial path c in
      ground (arith, same, L.opened path p.serial, L.already_open path p.serial)

  open-IsStuck :
      (p q : Pimpl B) (path : String) (c : SerialConfig FlowControl Parity StopBits)
      (b : BufferConfig)
      → IsStuck p
      → (exec B p (open_task path c b) ≡ returned q) ⊎ (exec B p (open_task path c b) ≡ thrown q)
      → IsStuck q
  unfolding exec Follows
  open-IsStuck p q path c b v e =
      let (same, first) = configure-Follows B L p.serial path c in
      ground (arith, same, first, L.already_open path p.serial, v.stopped, v.not_open, v.held)

  result-IsStuck :
      (p q : Pimpl B) (t : Task B)
      → IsStuck p
      → (exec B p t ≡ returned q) ⊎ (exec B p t ≡ thrown q)
      → IsStuck q
  unfolding exec
  result-IsStuck p q (open_task path c b) v e = open-IsStuck p q path c b v e
  result-IsStuck p q t v e = ground arith

  Step-IsStuck : {s t : System B} → Step B s t → IsStuck s.pimpl → IsStuck t.pimpl
  Step-IsStuck (posts t m) v = v
  Step-IsStuck (checks bytes id c) v = v
  Step-IsStuck {s} (reserves bytes id current observed xs ys c k) v =
      rw (reserve-fields B s.pimpl current observed) (ground arith)
  Step-IsStuck (enqueues bytes id xs ys c) v = v
  Step-IsStuck (reads bytes ec n g xs ys c k) v = ground arith
  Step-IsStuck (writes ec n g xs ys c k) v = ground arith
  Step-IsStuck {s} (runs t rest p e l) v = result-IsStuck s.pimpl p t v (Leaves-cases B l)

  Reach-IsStuck : {s t : System B} → IsStuck s.pimpl → Reach B s t → IsStuck t.pimpl
  Reach-IsStuck v here = v
  Reach-IsStuck v (next r st) = Step-IsStuck st (Reach-IsStuck v r)

  -- Over a port that behaves as Asio documents: once an `open` has thrown while the port was open, be it that the port was open
  -- before, or that it was opened and then refused an option, the transport is never open again. Whatever
  -- user threads, Asio and the strand do from there on, further calls of `open` and `close` included,
  -- `isOpen` is false and `asyncWrite` returns `Closed`.
  pub failed_open_sticks :
      (p : Pimpl B) (path : String) (c : SerialConfig FlowControl Parity StopBits)
      (b : BufferConfig) {s t : System B} (bytes : List ℕ) (id : ℕ)
      → (L.is_open p.serial ≡ true) ⊎ ((B.open_port path p.serial).0 ≡ true)
      → exec B p (open_task path c b) ≡ thrown s.pimpl
      → Reach B s t
      → (is_open B t.pimpl ≡ false) × ((async_write B t.pimpl bytes id).0 ≡ Types.closed)
  unfolding is_open async_write check_write
  failed_open_sticks p path c b {s} {t} bytes id o e r =
      let v = Reach-IsStuck (failed-IsStuck p s.pimpl path c b o e) r in
      (v.not_open, ground (arith, v.stopped))

  -- Over such a port, `open` of a running transport always throws; it ends the session and leaves the
  -- transport stopped and faulted, over a port that is still open.
  pub open_running :
      (stream : Stream) {s : System B} (path : String)
      (c : SerialConfig FlowControl Parity StopBits) (b : BufferConfig)
      → Reach B (start B (init B stream)) s
      → s.pimpl.stopped ≡ false
      → (q : Pimpl B) × (exec B s.pimpl (open_task path c b) ≡ thrown q)
        × (q.stopped ≡ true)
        × (q.current_state ≡ faulted_state)
        × (q.generation ≡ increment s.pimpl.generation)
        × (L.is_open q.serial ≡ true)
  unfolding exec Follows
  open_running stream {s} path c b r run =
      let v = Reach-HoldsPort B L stream r in
      let p = s.pimpl in
      let (same, first) = configure-Follows B L p.serial path c in
      let fails = L.already_open path p.serial (v.running run) in
      let refused : (configure B p.serial path c).0 ≡ false = ground (arith, first, fails) in
      (
        record p {
          serial = (configure B p.serial path c).1;
          generation = increment p.generation;
          buffer_config = b;
          rx_buffer = [];
          tx_deque = [];
          pending_writes = 0;
          stopped = true;
          current_state = faulted_state;
        },
        ground (arith, refused, v.stops, open_port_lem B p path c b),
        refl,
        refl,
        refl,
        ground (arith, same, fails, v.running),
      )
