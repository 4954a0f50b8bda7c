-- ===== src/Api/Transport/Arrivals.antt =====
-- What the frame handler is given, over any history: bytes that came in, each at most once and in order.
use easy_lo_ra_reforged.Base.{
  ℕ, ◌≡◌, refl, sym, ap, ◌∙◌, subst, List, [], ◌∷◌, ◌++◌, ◌⊎◌, inl, inr, take, drop, arith,
  append-nil, append_assoc, take-append-drop, zero, suc,
}
use easy_lo_ra_reforged.Base.Thinned.{
  Thinned, end, Thinned-refl, Thinned-nil, Thinned-trans, Thinned-append,
}
use easy_lo_ra_reforged.Api.Boost.{Boost}
use easy_lo_ra_reforged.Api.Transport.{Pimpl, returned, thrown, Call, frame_call, init}
use easy_lo_ra_reforged.Api.Transport.Strand.{
  Task, enqueue_task, write_task, read_task, exec, Leaves-cases, System, Step, posts, checks,
  reserves, enqueues, reads, writes, runs, start, Reach, here, next,
}
use easy_lo_ra_reforged.Api.Transport.Lifecycle.{reserve-fields}

-- The bytes given to a frame handler.
abbrev pub handed : Call → List ℕ
handed (frame_call h frame) = frame
handed _ = []

abbrev pub handed_bytes : List Call → List ℕ
handed_bytes [] = []
handed_bytes (call ∷ calls) = handed call ++ handed_bytes calls

handed_bytes-append :
    (xs ys : List Call) → handed_bytes (xs ++ ys) ≡ handed_bytes xs ++ handed_bytes ys
handed_bytes-append [] ys = refl
handed_bytes-append (c ∷ xs) ys =
    ap (λ l. handed c ++ l) (handed_bytes-append xs ys)
    ∙ sym (append_assoc (handed c) (handed_bytes xs) (handed_bytes ys))

handed_bytes-snoc :
    (xs : List Call) (c : Call) → handed_bytes (xs ++ c ∷ []) ≡ handed_bytes xs ++ handed c
handed_bytes-snoc xs c =
    handed_bytes-append xs (c ∷ []) ∙ ap (λ l. handed_bytes xs ++ l) (append-nil (handed c))

Thinned-dropped : (n : ℕ) (l : List ℕ) → Thinned ◌≡◌ (drop n l) l
Thinned-dropped zero l = Thinned-refl l
Thinned-dropped (suc n) [] = end
Thinned-dropped (suc n) (x ∷ l) = Thinned.drops x (Thinned-dropped n l)

module _ (B : Boost) where
  -- The bytes that a step puts into the buffer, when Asio completes a read.
  abbrev pub step_bytes : {s t : System B} → Step B s t → List ℕ
  step_bytes (reads bytes ec n g xs ys h k) = bytes
  step_bytes _ = []

  abbrev pub arrived : {s t : System B} → Reach B s t → List ℕ
  arrived here = []
  arrived (next h st) = arrived h ++ step_bytes st

  -- Handed over, or in the buffer.
  abbrev received : Pimpl B → List ℕ
  received p = handed_bytes p.log ++ p.rx_buffer

  -- Nothing is handed over, and the buffer is kept or cleared.
  Kept : (p q : Pimpl B) → Type 0
  Kept p q =
      (handed_bytes q.log ≡ handed_bytes p.log) × ((q.rx_buffer ≡ p.rx_buffer) ⊎ (q.rx_buffer ≡ []))

  Leaves : (p q : Pimpl B) → Task B → Type 0
  Leaves p q t = (exec B p t ≡ returned q) ⊎ (exec B p t ≡ thrown q)

  enqueue-hands :
      (p q : Pimpl B) (bytes : List ℕ) (id : ℕ)
      → Leaves p q (enqueue_task bytes id)
      → handed_bytes q.log ≡ handed_bytes p.log
  unfolding exec Leaves
  enqueue-hands p q bytes id e = grind (arith, handed_bytes-snoc, append-nil)

  enqueue-buffer :
      (p q : Pimpl B) (bytes : List ℕ) (id : ℕ)
      → Leaves p q (enqueue_task bytes id)
      → (q.rx_buffer ≡ p.rx_buffer) ⊎ (q.rx_buffer ≡ [])
  unfolding exec Leaves
  enqueue-buffer p q bytes id e = ground arith

  write-hands :
      (p q : Pimpl B) (ec : B.ErrorCode) (n g : ℕ)
      → Leaves p q (write_task ec n g)
      → handed_bytes q.log ≡ handed_bytes p.log
  unfolding exec Leaves
  write-hands p q ec n g e = grind (arith, handed_bytes-snoc, append-nil)

  write-buffer :
      (p q : Pimpl B) (ec : B.ErrorCode) (n g : ℕ)
      → Leaves p q (write_task ec n g)
      → (q.rx_buffer ≡ p.rx_buffer) ⊎ (q.rx_buffer ≡ [])
  unfolding exec Leaves
  write-buffer p q ec n g e = ground arith

  read-Taken :
      (p q : Pimpl B) (ec : B.ErrorCode) (n g : ℕ)
      → Leaves p q (read_task ec n g)
      → ((handed_bytes q.log ≡ handed_bytes p.log)
          × ((q.rx_buffer ≡ p.rx_buffer) ⊎ (q.rx_buffer ≡ []) ⊎ (q.rx_buffer ≡ drop n p.rx_buffer)))
        ⊎ ((handed_bytes q.log ≡ handed_bytes p.log ++ take n p.rx_buffer)
            × (q.rx_buffer ≡ drop n p.rx_buffer))
  unfolding exec Leaves
  read-Taken p q ec n g e = grind (arith, handed_bytes-snoc, append-nil)

  kept-Thinned :
      (p q : Pimpl B)
      → handed_bytes q.log ≡ handed_bytes p.log
      → Thinned ◌≡◌ q.rx_buffer p.rx_buffer
      → Thinned ◌≡◌ (received q) (received p)
  kept-Thinned p q e d = rw e (Thinned-append (Thinned-refl (handed_bytes p.log)) d)

  Kept-Thinned : (p q : Pimpl B) → Kept p q → Thinned ◌≡◌ (received q) (received p)
  unfolding Kept
  Kept-Thinned p q (e, inl d) =
      kept-Thinned p q e (subst (λ l. Thinned ◌≡◌ l p.rx_buffer) (sym d) (Thinned-refl p.rx_buffer))
  Kept-Thinned p q (e, inr d) = kept-Thinned p q e (rw d (Thinned-nil p.rx_buffer))

  result-Thinned :
      (p q : Pimpl B) (t : Task B) → Leaves p q t → Thinned ◌≡◌ (received q) (received p)
  unfolding exec Kept Leaves
  result-Thinned p q (enqueue_task bytes id) e =
      Kept-Thinned p q (enqueue-hands p q bytes id e, enqueue-buffer p q bytes id e)
  result-Thinned p q (write_task ec n g) e =
      Kept-Thinned p q (write-hands p q ec n g e, write-buffer p q ec n g e)
  result-Thinned p q (read_task ec n g) e = elim (read-Taken p q ec n g e) [
    | inl (d, inl b) ↦ Kept-Thinned p q (d, inl b)
    | inl (d, inr (inl b)) ↦ Kept-Thinned p q (d, inr b)
    | inl (d, inr (inr b)) ↦ kept-Thinned p q d (rw b (Thinned-dropped n p.rx_buffer))
    | inr (d, b) ↦
        subst (λ l. Thinned ◌≡◌ (received q) (handed_bytes p.log ++ l))
          (take-append-drop n p.rx_buffer)
          (subst (λ l. Thinned ◌≡◌ (received q) l)
            (append_assoc (handed_bytes p.log) (take n p.rx_buffer) (drop n p.rx_buffer))
            (rw (d, b)
              (Thinned-refl ((handed_bytes p.log ++ take n p.rx_buffer) ++ drop n p.rx_buffer))))
  ]
  result-Thinned p q t e = Kept-Thinned p q (ground arith)

  Step-received :
      {s t : System B} (bytes_in : List ℕ) (st : Step B s t)
      → Thinned ◌≡◌ (received s.pimpl) bytes_in
      → Thinned ◌≡◌ (received t.pimpl) (bytes_in ++ step_bytes st)
  unfolding Leaves
  Step-received bytes_in (posts t m) h = rw (append-nil bytes_in) h
  Step-received bytes_in (checks bytes id c) h = rw (append-nil bytes_in) h
  Step-received {s} bytes_in (reserves bytes id current observed xs ys c k) h =
      rw (append-nil bytes_in, reserve-fields B s.pimpl current observed) h
  Step-received bytes_in (enqueues bytes id xs ys c) h = rw (append-nil bytes_in) h
  Step-received {s} bytes_in (reads bytes ec n g xs ys c k) h =
      subst (λ l. Thinned ◌≡◌ l (bytes_in ++ bytes))
        (append_assoc (handed_bytes s.pimpl.log) s.pimpl.rx_buffer bytes)
        (Thinned-append h (Thinned-refl bytes))
  Step-received bytes_in (writes ec n g xs ys c k) h = rw (append-nil bytes_in) h
  Step-received {s} bytes_in (runs t rest p e l) h =
      rw (append-nil bytes_in) (Thinned-trans (result-Thinned s.pimpl p t (Leaves-cases B l)) h)

  Reach-received :
      (stream : B.Stream) {t : System B} (h : Reach B (start B (init B stream)) t)
      → Thinned ◌≡◌ (received t.pimpl) (arrived h)
  unfolding start init
  Reach-received stream here = end
  Reach-received stream (next h st) = Step-received (arrived h) st (Reach-received stream h)

  -- In every interleaving of user threads, completions and the strand, with errors, closes and reopenings:
  -- the bytes handed to a frame handler so far, one frame after the other, are bytes that Asio has read
  -- into the buffer, in the order in which they came in and each of them at most once. Nothing is made up,
  -- repeated or reordered; what a cleared buffer or a dropped frame loses is missing.
  pub Reach-frames :
      (stream : B.Stream) {t : System B} (h : Reach B (start B (init B stream)) t)
      → Thinned ◌≡◌ (handed_bytes t.pimpl.log) (arrived h)
  Reach-frames stream {t} h =
      Thinned-trans
        (subst (λ l. Thinned ◌≡◌ l (received t.pimpl)) (append-nil (handed_bytes t.pimpl.log))
          (Thinned-append (Thinned-refl (handed_bytes t.pimpl.log))
            (Thinned-nil t.pimpl.rx_buffer)))
        (Reach-received stream h)
