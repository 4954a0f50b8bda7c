-- ===== src/Api/Transport/Port.antt =====
-- The port under the transport: api/include/SerialTransport.hpp over a port that is open or closed.
pub mod Stuck
mod Tests
use Prim.Native.String.{String}
use easy_lo_ra_reforged.Base.{
  ◌≡◌, refl, sym, ap, ◌∙◌, subst, Bool, true, false, not, List, [], ◌∷◌, ◌++◌, ◌⊎◌, inl, inr, arith,
  ℕ,
}
use easy_lo_ra_reforged.Api.Types.{WriteStatus, SerialConfig, BufferConfig}
use easy_lo_ra_reforged.Api.Types
use easy_lo_ra_reforged.Api.Boost.{Boost, PortLaws}
use easy_lo_ra_reforged.Api.Transport.{
  Pimpl, returned, thrown, init, configure, is_open, is_open_state, attempt, increment,
  faulted_state,
}
use easy_lo_ra_reforged.Api.Transport.Handlers.{check_write}
use easy_lo_ra_reforged.Api.Transport.Strand.{
  Task, open_task, exec, async_write, Leaves, Leaves-cases, System, Step, posts, checks, reserves,
  enqueues, reads, writes, runs, Reach, here, next, start,
}
use easy_lo_ra_reforged.Api.Transport.Lifecycle.{reserve-fields, open_port_lem}

module _ (B : Boost) (L : PortLaws B) where
  open B use {FlowControl, Parity, StopBits, Stream}

  -- What a call that throws nothing before it leaves: the port is open or closed as it was, and a call that
  -- threw is not made good.
  pub Follows : (m n : Bool × Stream) → Type 0
  Follows m n = (L.is_open n.1 ≡ L.is_open m.1) × (n.0 ≡ true → m.0 ≡ true)

  attempt-Follows :
      (l m : Bool × Stream) (f : Stream → Bool × Stream)
      → ((s : Stream) → L.is_open (f s).1 ≡ L.is_open s)
      → Follows l m
      → Follows l (attempt B m f)
  unfolding Follows
  attempt-Follows l (false, s) f h k = k
  attempt-Follows l (true, s) f h (same, first) = (h s ∙ same, λ _. first refl)

  -- The options leave the port as its `open`, the first of the calls, has left it.
  pub configure-Follows :
      (s : Stream) (path : String) (c : SerialConfig FlowControl Parity StopBits)
      → Follows (B.open_port path s) (configure B s path c)
  unfolding configure Follows
  configure-Follows s path c =
      let m0 = B.open_port path s in
      let m1 = attempt B m0 (B.set_baud_rate c.baud_rate) in
      let m2 = attempt B m1 (B.set_character_size c.character_size) in
      let m3 = attempt B m2 (B.set_parity c.parity_byte) in
      let m4 = attempt B m3 (B.set_stop_bits c.stop_bits) in
      attempt-Follows m0 m4 (B.set_flow_control c.flow_control) (L.flow_control c.flow_control) (
        attempt-Follows m0 m3 (B.set_stop_bits c.stop_bits) (L.stop_bits c.stop_bits) (
          attempt-Follows m0 m2 (B.set_parity c.parity_byte) (L.parity c.parity_byte) (
            attempt-Follows m0 m1 (B.set_character_size c.character_size)
              (L.character_size c.character_size)
              (attempt-Follows m0 m0 (B.set_baud_rate c.baud_rate) (L.baud_rate c.baud_rate)
                (refl, λ h. h)))))

  -- While the transport runs its port is open, and once it has been closed its port is closed.
  pub record HoldsPort (p : Pimpl B) : Type 0 where
    pub running : p.stopped ≡ false → L.is_open p.serial ≡ true
    pub closed : p.closing ≡ true → L.is_open p.serial ≡ false
    pub stops : p.closing ≡ true → p.stopped ≡ true

  open-HoldsPort :
      (p q : Pimpl B) (path : String) (c : SerialConfig FlowControl Parity StopBits)
      (b : BufferConfig)
      → HoldsPort p
      → (exec B p (open_task path c b) ≡ returned q) ⊎ (exec B p (open_task path c b) ≡ thrown q)
      → HoldsPort q
  unfolding exec Follows
  open-HoldsPort p q path c b v e =
      let (same, first) = configure-Follows p.serial path c in
      ground (arith, same, first, L.opened path p.serial)

  result-HoldsPort :
      (p q : Pimpl B) (t : Task B)
      → HoldsPort p
      → (exec B p t ≡ returned q) ⊎ (exec B p t ≡ thrown q)
      → HoldsPort q
  unfolding exec
  result-HoldsPort p q (open_task path c b) v e = open-HoldsPort p q path c b v e
  result-HoldsPort p q t v e = ground (arith, L.closed (B.cancel p.serial))

  Step-HoldsPort : {s t : System B} → Step B s t → HoldsPort s.pimpl → HoldsPort t.pimpl
  Step-HoldsPort (posts t m) v = v
  Step-HoldsPort (checks bytes id c) v = v
  Step-HoldsPort {s} (reserves bytes id current observed xs ys c k) v =
      rw (reserve-fields B s.pimpl current observed) (ground arith)
  Step-HoldsPort (enqueues bytes id xs ys c) v = v
  Step-HoldsPort (reads bytes ec n g xs ys c k) v = ground arith
  Step-HoldsPort (writes ec n g xs ys c k) v = ground arith
  Step-HoldsPort {s} (runs t rest p e l) v = result-HoldsPort s.pimpl p t v (Leaves-cases B l)

  -- Over a port that behaves as Asio documents, and whatever user threads, Asio and the strand do: while
  -- the transport runs its port is open, and once it has been closed it is stopped and its port is closed,
  -- whatever failed before.
  pub Reach-HoldsPort :
      (stream : Stream) {t : System B} → Reach B (start B (init B stream)) t → HoldsPort t.pimpl
  unfolding start init
  Reach-HoldsPort stream here = ground arith
  Reach-HoldsPort stream (next r st) = Step-HoldsPort st (Reach-HoldsPort stream r)
