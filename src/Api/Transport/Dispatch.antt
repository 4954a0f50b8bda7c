-- ===== src/Api/Transport/Dispatch.antt =====
-- The error dispatch of the transport.
use easy_lo_ra_reforged.Base.{
  ℕ, ◌≡◌, refl, true, false, [], ◌∷◌, ◌++◌, Option, none, some, arith, ◌⊎◌,
}
use easy_lo_ra_reforged.Api.Types.{FatalErrors, rx_buffer_full}
use easy_lo_ra_reforged.Api.Boost.{Boost}
use easy_lo_ra_reforged.Api.Transport.{
  Pimpl, returned, terminated, fatal_call, recuperable_call, stop_after_io_error,
}
use easy_lo_ra_reforged.Api.Transport.Handlers.{dispatch_error, clarify_fatal_error, handle_read}

module _ (B : Boost) where
  open B use {ErrorCode}

  -- `clarifyFatalError` has a name for the code.
  abbrev pub IsClassified : ErrorCode → Type 0
  IsClassified ec =
      (B.is_eof ec ≡ true)
      ⊎ (B.is_bad_file_descriptor ec ≡ true)
      ⊎ (B.is_bad_descriptor ec ≡ true)
      ⊎ (B.is_no_such_device ec ≡ true)
      ⊎ (B.is_permission_denied ec ≡ true)

  -- A read whose buffer is full while the transport runs: the buffer is emptied, one read is started
  -- in the same session, and the recuperable error handler, if there is one, is told RxBufferFull once.
  pub handle_read-recoverable :
      (p : Pimpl B) (ec : ErrorCode) (n : ℕ)
      → p.closing ≡ false
      → p.stopped ≡ false
      → B.failed ec ≡ true
      → B.is_not_found ec ≡ true
      → handle_read B p ec n p.generation
        ≡ returned (record p {
          rx_buffer = [];
          reads = p.generation ∷ p.reads;
          log = elim p.recuperable_error_handler [
            | none ↦ p.log
            | some h ↦ p.log ++ recuperable_call h rx_buffer_full ∷ []
          ];
        })
  unfolding handle_read
  handle_read-recoverable p ec n c s f e = ground arith

  -- Any other error ends the process exactly if a fatal error handler is set and `clarifyFatalError` has
  -- no name for the code; the exception leaves a function that is noexcept.
  pub dispatch_error-terminated :
      (p : Pimpl B) (ec : ErrorCode) (h : ℕ)
      → B.is_not_found ec ≡ false
      → p.fatal_error_handler ≡ some h
      → ((dispatch_error B p ec ≡ terminated) → ¬ IsClassified ec)
        × (¬ IsClassified ec → dispatch_error B p ec ≡ terminated)
  unfolding dispatch_error clarify_fatal_error
  dispatch_error-terminated p ec h f e = ground arith

  -- A fatal error that `clarifyFatalError` has a name for, with a handler set: the transport is stopped,
  -- and the handler is told that name once.
  pub dispatch_error-classified :
      (p : Pimpl B) (ec : ErrorCode) (h : ℕ)
      → B.is_not_found ec ≡ false
      → p.fatal_error_handler ≡ some h
      → IsClassified ec
      → (error : FatalErrors) × (clarify_fatal_error B ec ≡ some error)
        × (dispatch_error B p ec
            ≡ returned (
                let q = stop_after_io_error B p in
                record q { log = p.log ++ fatal_call h error ∷ [] }))
  unfolding dispatch_error clarify_fatal_error stop_after_io_error
  dispatch_error-classified p ec h f e c = go (clarify_fatal_error B ec) refl
    where
      go :
          (o : Option FatalErrors)
          → clarify_fatal_error B ec ≡ o
          → (error : FatalErrors) × (clarify_fatal_error B ec ≡ some error)
            × (dispatch_error B p ec
                ≡ returned (
                    let q = stop_after_io_error B p in
                    record q { log = p.log ++ fatal_call h error ∷ [] }))
      go none w = absurd (ground arith)
      go (some error) w = (error, w, ground arith)
