-- ===== src/Api/Transport/Strand.antt =====
-- The transport as a whole: what its strand executes, one task after the other, and what the user's
-- threads and Asio do in between.
use Prim.Native.String.{String}
use easy_lo_ra_reforged.Base.{
  ℕ, ◌≤◌, ◌≡◌, true, false, List, [], ◌∷◌, ◌++◌, Option, none, some, length, if◌then◌else◌, ◌⊎◌,
  inl, inr, refl,
}
use easy_lo_ra_reforged.Api.Types.{WriteStatus, queue_full, scheduled, SerialConfig, BufferConfig}
use easy_lo_ra_reforged.Api.Boost.{Boost}
use easy_lo_ra_reforged.Api.Transport.{
  Pimpl, Outcome, returned, thrown, open_port, close_on_strand, set_frame_handler,
  set_fatal_error_handler, set_recuperable_error_handler, set_write_handler,
}
use easy_lo_ra_reforged.Api.Transport.Handlers.{
  handle_read, handle_write, check_write, reserve, enqueue,
}

module _ (B : Boost) where
  open B use {ErrorCode, FlowControl, Parity, StopBits}

  -- What is posted to the strand: the bodies of the public methods, and the completions.
  pub data Task : Type 0 where
    open_task : String → SerialConfig FlowControl Parity StopBits → BufferConfig → Task
    close_task : Task
    frame_handler_task fatal_error_handler_task : Option ℕ → Task
    recuperable_error_handler_task write_handler_task : Option ℕ → Task
    enqueue_task : List ℕ → ℕ → Task
    read_task write_task : ErrorCode → ℕ → ℕ → Task

  unfoldable pub exec : Pimpl B → Task → Outcome (Pimpl B)
  unfolding open_port close_on_strand set_frame_handler set_fatal_error_handler
      set_recuperable_error_handler set_write_handler enqueue handle_read handle_write
  exec p (open_task path serial_config buffer_config) =
      open_port B p path serial_config buffer_config
  exec p close_task = returned (close_on_strand B p)
  exec p (frame_handler_task h) = returned (set_frame_handler B p h)
  exec p (fatal_error_handler_task h) = returned (set_fatal_error_handler B p h)
  exec p (recuperable_error_handler_task h) = returned (set_recuperable_error_handler B p h)
  exec p (write_handler_task h) = returned (set_write_handler B p h)
  exec p (enqueue_task to_write packet_id) = returned (enqueue B p to_write packet_id)
  exec p (read_task ec bytes_read generation) = handle_read B p ec bytes_read generation
  exec p (write_task ec bytes_written generation) = handle_write B p ec bytes_written generation

  -- `asyncWrite` run by one thread with no other in between: the status, the object, and the task that
  -- it posts.
  unfoldable pub async_write : Pimpl B → List ℕ → ℕ → WriteStatus × Pimpl B × List Task
  async_write p to_write packet_id = elim (check_write B p to_write) [
    | some status ↦ (status, p, [])
    | none ↦
        let (reserved, q) = reserve B p p.pending_writes [] in
        if reserved
        then (scheduled, q, enqueue_task to_write packet_id ∷ [])
        else (queue_full, q, [])
  ]

  -- The transport with its strand: `queue` holds the posted tasks, oldest first; `checked` and `reserved`
  -- hold the calls of `asyncWrite` that threads have brought past the guards, and past the loop.
  pub record System : Type 0 where
    pub pimpl : Pimpl B
    pub queue : List Task
    pub checked : List (List ℕ × ℕ)
    pub reserved : List (List ℕ × ℕ)

  -- A task that a public method posts: `open`, `close` (and the destructor), and the setters.
  pub data IsMethod : Task → Type 0 where
    opens :
        (path : String) (c : SerialConfig FlowControl Parity StopBits) (b : BufferConfig)
        → IsMethod (open_task path c b)
    closes : IsMethod close_task
    sets_frame_handler : (h : Option ℕ) → IsMethod (frame_handler_task h)
    sets_fatal_error_handler : (h : Option ℕ) → IsMethod (fatal_error_handler_task h)
    sets_recuperable_error_handler : (h : Option ℕ) → IsMethod (recuperable_error_handler_task h)
    sets_write_handler : (h : Option ℕ) → IsMethod (write_handler_task h)

  -- A run of a task ends with this object; an exception of `open` leaves the strand usable.
  pub data Leaves : Outcome (Pimpl B) → Pimpl B → Type 0 where
    by_return : (p : Pimpl B) → Leaves (returned p) p
    by_throw : (p : Pimpl B) → Leaves (thrown p) p

  pub Leaves-cases :
      {o : Outcome (Pimpl B)} {p : Pimpl B} → Leaves o p → (o ≡ returned p) ⊎ (o ≡ thrown p)
  Leaves-cases (by_return p) = inl refl
  Leaves-cases (by_throw p) = inr refl

  -- One atomic step. The user posts a method's task, or a thread takes `asyncWrite` past its guards, past
  -- its loop, or to its post; Asio completes a read or a write that is in flight, in any order, with any
  -- result but that a write never reports `not_found`, which only `async_read_until` does; or the strand
  -- runs its oldest task.
  pub data Step (s : System) : System → Type 0 where
    posts : (t : Task) → IsMethod t → Step s (record s { queue = s.queue ++ t ∷ [] })
    checks :
        (bytes : List ℕ) (id : ℕ)
        → check_write B s.pimpl bytes ≡ none
        → Step s (record s { checked = (bytes, id) ∷ s.checked })
    reserves :
        (bytes : List ℕ) (id current : ℕ) (observed : List ℕ) (before after : List (List ℕ × ℕ))
        → s.checked ≡ before ++ (bytes, id) ∷ after
        → (reserve B s.pimpl current observed).0 ≡ true
        → Step s (record s {
          pimpl = (reserve B s.pimpl current observed).1;
          checked = before ++ after;
          reserved = (bytes, id) ∷ s.reserved;
        })
    enqueues :
        (bytes : List ℕ) (id : ℕ) (before after : List (List ℕ × ℕ))
        → s.reserved ≡ before ++ (bytes, id) ∷ after
        → Step s
            (record s { queue = s.queue ++ enqueue_task bytes id ∷ []; reserved = before ++ after })
    reads :
        (bytes : List ℕ) (ec : ErrorCode) (bytes_read generation : ℕ) (before after : List ℕ)
        → s.pimpl.reads ≡ before ++ generation ∷ after
        → bytes_read ≤ length (s.pimpl.rx_buffer ++ bytes)
        → Step s (record s {
          pimpl = record s.pimpl {
            rx_buffer = s.pimpl.rx_buffer ++ bytes;
            reads = before ++ after;
          };
          queue = s.queue ++ read_task ec bytes_read generation ∷ [];
        })
    writes :
        (ec : ErrorCode) (bytes_written generation : ℕ) (before after : List ℕ)
        → s.pimpl.writes ≡ before ++ generation ∷ after
        → B.is_not_found ec ≡ false
        → Step s (record s {
          pimpl = record s.pimpl { writes = before ++ after };
          queue = s.queue ++ write_task ec bytes_written generation ∷ [];
        })
    runs :
        (t : Task) (rest : List Task) (p : Pimpl B)
        → s.queue ≡ t ∷ rest
        → Leaves (exec s.pimpl t) p
        → Step s (record s { pimpl = p; queue = rest })

  unfoldable pub start : Pimpl B → System
  start p = record { pimpl = p; queue = []; checked = []; reserved = [] }

  pub data Reach (s : System) : System → Type 0 where
    here : Reach s s
    next : {t u : System} → Reach s t → Step t u → Reach s u
