-- ===== src/Api/Transport/Handlers.antt =====
-- api/include/SerialTransport.hpp: the completion handlers, the error dispatch and `asyncWrite`.
use easy_lo_ra_reforged.Base.{
  ℕ, Bool, true, false, not, ◌||◌, List, [], ◌∷◌, ◌++◌, Option, none, some, length, take, drop, ltb,
  leb, ◌==◌, if◌then◌else◌,
}
use easy_lo_ra_reforged.Api.Types.{
  WriteStatus, closed, message_too_long, WriteResult, written, failed, cancelled, FatalErrors,
  unplugged_device, permission_denied, externally_closed_port, RecoverableErrors, rx_buffer_full,
}
use easy_lo_ra_reforged.Api.Boost.{Boost}
use easy_lo_ra_reforged.Api.Transport.{
  Pimpl, Outcome, returned, terminated, undefined, ◌>>=◌, increment, decrement, inactive, notify,
  frame_call, fatal_call, recuperable_call, write_call, start_read, do_write, is_empty,
  stop_after_io_error,
}

module _ (B : Boost) where
  open B use {
    ErrorCode, is_not_found, is_eof, is_bad_file_descriptor, is_bad_descriptor, is_no_such_device,
    is_permission_denied,
  }

  -- `isRecoverableError`.
  unfoldable pub is_recoverable_error : ErrorCode → Bool
  is_recoverable_error ec = if is_not_found ec then true else false

  -- `clarifyFatalError`; `none` is the exception `std::invalid_argument`.
  unfoldable pub clarify_fatal_error : ErrorCode → Option FatalErrors
  clarify_fatal_error ec =
      if is_eof ec
      then some unplugged_device
      else if is_bad_file_descriptor ec || is_bad_descriptor ec || is_no_such_device ec
      then some externally_closed_port
      else if is_permission_denied ec
      then some permission_denied
      else none

  -- `clarifyRecoverableError`.
  unfoldable pub clarify_recoverable_error : ErrorCode → Option RecoverableErrors
  clarify_recoverable_error ec = if is_not_found ec then some rx_buffer_full else none

  -- `recoverFromError`.
  unfoldable pub recover_from_error : Pimpl B → RecoverableErrors → Pimpl B
  unfolding start_read
  recover_from_error p error = start_read B (record p { rx_buffer = [] })

  -- The recoverable branch of `dispatchError`.
  dispatch_recoverable : Pimpl B → Option RecoverableErrors → Outcome (Pimpl B)
  dispatch_recoverable p none = terminated
  dispatch_recoverable p (some clarified_error) =
      let q = recover_from_error p clarified_error in
      returned (notify B q q.recuperable_error_handler (λ h. recuperable_call h clarified_error))

  -- The call of the fatal handler: its argument is computed first, and may throw.
  notify_fatal : Pimpl B → Option ℕ → Option FatalErrors → Outcome (Pimpl B)
  notify_fatal p none clarified = returned p
  notify_fatal p (some h) none = terminated
  notify_fatal p (some h) (some error) =
      returned (record p { log = p.log ++ fatal_call h error ∷ [] })

  -- `dispatchError` is noexcept: an exception in it ends the process.
  unfoldable pub dispatch_error : Pimpl B → ErrorCode → Outcome (Pimpl B)
  unfolding dispatch_recoverable notify_fatal is_recoverable_error clarify_recoverable_error
      recover_from_error stop_after_io_error
  dispatch_error p ec =
      if is_recoverable_error ec
      then dispatch_recoverable p (clarify_recoverable_error ec)
      else let q = stop_after_io_error B p in
        notify_fatal q q.fatal_error_handler (clarify_fatal_error ec)

  -- `handleRead`; Asio has put what it read into `rx_buffer` before.
  unfoldable pub handle_read : Pimpl B → ErrorCode → ℕ → ℕ → Outcome (Pimpl B)
  unfolding dispatch_error start_read
  handle_read p ec bytes_read operation_generation =
      if inactive B p || not (operation_generation == p.generation)
      then returned p
      else if B.failed ec
      then dispatch_error p ec
      else let frame = take bytes_read p.rx_buffer in
        let q = notify B p p.frame_handler (λ h. frame_call h frame) in
        returned (start_read B (record q { rx_buffer = drop bytes_read q.rx_buffer }))

  -- `writeHandler(result, txDeque.front().second)` if there is a handler; an empty deque has no front.
  notify_front : Pimpl B → WriteResult → Outcome (Pimpl B)
  notify_front p result = elim p.write_handler [
    | none ↦ returned p
    | some h ↦ elim p.tx_deque [
      | [] ↦ undefined
      | (bytes, id) ∷ rest ↦ returned (record p { log = p.log ++ write_call h result id ∷ [] })
    ]
  ]

  -- `txDeque.pop_front()`.
  pop_front : Pimpl B → Outcome (Pimpl B)
  pop_front p = elim p.tx_deque [
    | [] ↦ undefined
    | front ∷ rest ↦ returned (record p { tx_deque = rest })
  ]

  -- `handleWrite`.
  unfoldable pub handle_write : Pimpl B → ErrorCode → ℕ → ℕ → Outcome (Pimpl B)
  unfolding notify_front pop_front dispatch_error do_write
  handle_write p ec bytes_written operation_generation =
      if inactive B p || not (operation_generation == p.generation)
      then returned p
      else let q = record p { pending_writes = decrement p.pending_writes } in
        if B.failed ec then (do q' ← notify_front q failed; dispatch_error q' ec) else (do
          q' ← notify_front q written
          q'' ← pop_front q'
          returned (if not (is_empty q''.tx_deque) then do_write B q'' else q''))

  -- `asyncWrite` up to its loop: none is a call that goes on to reserve a place.
  unfoldable pub check_write : Pimpl B → List ℕ → Option WriteStatus
  check_write p to_write =
      if inactive B p
      then some closed
      else if ltb p.buffer_config.tx_max_size_per_element (length to_write)
      then some message_too_long
      else none

  -- The loop of `asyncWrite`: `current` is `currentPendingWrites`, `observed` the values that
  -- `compare_exchange_weak` loaded in the rounds in which it failed, because other threads changed the
  -- counter or for no reason; `p` is the object at the last round, where a mismatch loads the counter
  -- and the next round succeeds. The result is whether a place was reserved.
  unfoldable pub reserve : Pimpl B → ℕ → List ℕ → Bool × Pimpl B
  reserve p current [] =
      let pending = p.pending_writes in
      let limit = p.buffer_config.tx_max_elements_in_queue in
      let swapped = record p { pending_writes = increment pending } in
      if leb limit current
      then (false, p)
      else if current == pending
      then (true, swapped)
      else if leb limit pending
      then (false, p)
      else (true, swapped)
  reserve p current (seen ∷ observed) =
      let next = reserve p seen observed in
      if leb p.buffer_config.tx_max_elements_in_queue current then (false, p) else next

  -- The function that `asyncWrite` posts to the strand.
  unfoldable pub enqueue : Pimpl B → List ℕ → ℕ → Pimpl B
  unfolding do_write
  enqueue p to_write packet_id =
      if inactive B p
      then (let q = record p { pending_writes = decrement p.pending_writes } in
          notify B q q.write_handler (λ h. write_call h cancelled packet_id))
      else let idle = is_empty p.tx_deque in
        let q = record p { tx_deque = p.tx_deque ++ (to_write, packet_id) ∷ [] } in
        if idle then do_write B q else q
