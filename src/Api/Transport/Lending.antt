-- ===== src/Api/Transport/Lending.antt =====
-- What Asio borrows: `async_write` works on the bytes of the message in front of `txDeque` until it
-- completes.
use easy_lo_ra_reforged.Base.{ℕ, ◌≡◌, false, List, [], ◌∷◌, ◌++◌, arith, ◌⊎◌, append-nil, ◌≢◌}
use easy_lo_ra_reforged.Api.Boost.{Boost}
use easy_lo_ra_reforged.Api.Transport.{Pimpl, returned, thrown, init, increment}
use easy_lo_ra_reforged.Api.Transport.Strand.{
  Task, open_task, enqueue_task, exec, Leaves, Leaves-cases, System, start,
}
use easy_lo_ra_reforged.Api.Transport.Counting.{count, is_write, total}
use easy_lo_ra_reforged.Api.Transport.Lifecycle.{IsConsistent}
use easy_lo_ra_reforged.Api.Transport.Sessions.{History, History-IsSound}

module _ (B : Boost) where
  -- The message that a task puts behind the others.
  abbrev pub joins : Task B → List (List ℕ × ℕ)
  joins (enqueue_task to_write packet_id) = (to_write, packet_id) ∷ []
  joins _ = []

  -- The session goes on, and the messages with it; or it ends, and they are destroyed.
  abbrev pub KeepsOrDestroys : (p q : Pimpl B) → Task B → Type 0
  KeepsOrDestroys p q t =
      ((q.generation ≡ p.generation) × (q.tx_deque ≡ p.tx_deque ++ joins t))
      ⊎ ((q.generation ≡ increment p.generation) × (q.tx_deque ≡ []))

  result-KeepsOrDestroys :
      (p q : Pimpl B) (t : Task B)
      → IsConsistent B p
      → p.tx_deque ≢ []
      → p.stopped ≡ false
      → is_write B p.generation t ≡ 0
      → (exec B p t ≡ returned q) ⊎ (exec B p t ≡ thrown q)
      → (q.writes ≡ p.writes) × KeepsOrDestroys p q t
  unfolding exec
  result-KeepsOrDestroys p q (open_task path c b) v d r w e = ground (arith, append-nil p.tx_deque)
  result-KeepsOrDestroys p q t v d r w e = ground (arith, append-nil p.tx_deque)

  -- In every history: while the write of the message in front is in flight, the next task of the strand
  -- leaves that write in flight. Either the session goes on, and the message stays in front, or the task
  -- ends the session, by a close, an `open` or an error of reading, and destroys the message that Asio
  -- still works on.
  pub exec-KeepsOrDestroys :
      (stream : B.Stream) {s : System B} (t : Task B) (rest : List (Task B)) {q : Pimpl B}
      → History B (start B (init B stream)) s
      → s.queue ≡ t ∷ rest
      → s.pimpl.stopped ≡ false
      → s.pimpl.tx_deque ≢ []
      → total B (is_write B s.pimpl.generation) s.queue ≡ 0
      → Leaves B (exec B s.pimpl t) q
      → (count s.pimpl.generation q.writes ≡ 1) × KeepsOrDestroys s.pimpl q t
  exec-KeepsOrDestroys stream {s} t rest {q} h e run d none_done l =
      let v = History-IsSound B stream h in
      let quiet : is_write B s.pimpl.generation t ≡ 0 = omega (arith, rw e at none_done) in
      let (same, k) =
        result-KeepsOrDestroys s.pimpl q t v.consistent d run quiet (Leaves-cases B l) in
      (rw same (ground (arith, v.one_write.exclusive run)), k)
