-- ===== src/Api/Transport/Accounting.antt =====
-- What one task of the strand does to the messages, while the session goes on.
use easy_lo_ra_reforged.Base.{
  ℕ, ◌≡◌, refl, sym, ◌∙◌, false, List, [], ◌∷◌, ◌++◌, ◌⊎◌, inl, inr, some, arith, append-nil,
  append_assoc,
}
use easy_lo_ra_reforged.Api.Boost.{Boost}
use easy_lo_ra_reforged.Api.Transport.{Pimpl, returned, thrown}
use easy_lo_ra_reforged.Api.Transport.Strand.{
  Task, open_task, enqueue_task, write_task, read_task, exec,
}
use easy_lo_ra_reforged.Api.Transport.Lifecycle.{IsConsistent}
use easy_lo_ra_reforged.Api.Transport.Exclusion.{NoReadError}
use easy_lo_ra_reforged.Api.Transport.Traffic.{deque_ids, deque_ids-append}
use easy_lo_ra_reforged.Api.Transport.Reports.{reported_ids, reported_ids-snoc, task_ids}

module _ (B : Boost) where
  -- The session goes on, and its writes are told to handler `h`.
  abbrev pub Lasts : (p q : Pimpl B) → Type 0
  Lasts p q =
      (p.stopped ≡ false) × (q.generation ≡ p.generation) × ((h : ℕ) × (p.write_handler ≡ some h))

  -- Nothing is told, and nothing leaves the deque.
  Same : (p q : Pimpl B) → Type 0
  Same p q =
      (q.stopped ≡ false) × (reported_ids q.log ≡ reported_ids p.log) × (q.tx_deque ≡ p.tx_deque)

  abbrev pub Ends : (p q : Pimpl B) → Task B → Type 0
  Ends p q t = (exec B p t ≡ returned q) ⊎ (exec B p t ≡ thrown q)

  read-Same :
      (p q : Pimpl B) (ec : B.ErrorCode) (n g : ℕ)
      → Lasts p q
      → Ends p q (read_task ec n g)
      → Same p q
  unfolding exec Same
  read-Same p q ec n g l e = grind (arith, reported_ids-snoc, append-nil)

  open-Same :
      (p q : Pimpl B) (path : _) (c : _) (b : _)
      → IsConsistent B p
      → Lasts p q
      → Ends p q (open_task path c b)
      → Same p q
  unfolding exec Same
  open-Same p q path c b v l e = ground arith

  enqueue-Joined :
      (p q : Pimpl B) (to_write : List ℕ) (packet_id : ℕ)
      → IsConsistent B p
      → Lasts p q
      → Ends p q (enqueue_task to_write packet_id)
      → (q.stopped ≡ false)
        × (reported_ids q.log ≡ reported_ids p.log)
        × (q.tx_deque ≡ p.tx_deque ++ (to_write, packet_id) ∷ [])
  unfolding exec
  enqueue-Joined p q to_write packet_id v l e = ground arith

  -- A completion of an earlier session is ignored; one of this session tells of the message in front.
  write-Told :
      (p q : Pimpl B) (ec : B.ErrorCode) (n g id : ℕ) (bytes : List ℕ) (rest : List (List ℕ × ℕ))
      → p.tx_deque ≡ (bytes, id) ∷ rest
      → B.is_not_found ec ≡ false
      → Lasts p q
      → Ends p q (write_task ec n g)
      → Same p q
        ⊎ ((q.stopped ≡ false)
            × (reported_ids q.log ≡ reported_ids p.log ++ id ∷ [])
            × (q.tx_deque ≡ rest))
  unfolding exec Same
  write-Told p q ec n g id bytes rest d f l e = grind (arith, reported_ids-snoc, append-nil)

  write-Same :
      (p q : Pimpl B) (ec : B.ErrorCode) (n g : ℕ)
      → p.tx_deque ≡ []
      → B.is_not_found ec ≡ false
      → Lasts p q
      → Ends p q (write_task ec n g)
      → Same p q
  unfolding exec Same
  write-Same p q ec n g d f l e = grind (arith, reported_ids-snoc, append-nil)

  -- Told or in the deque.
  abbrev pub accounted : Pimpl B → List ℕ
  accounted p = reported_ids p.log ++ deque_ids p.tx_deque

  abbrev pub Keeps : (p q : Pimpl B) (ids : List ℕ) → Type 0
  Keeps p q ids = (q.stopped ≡ false) × (accounted q ≡ accounted p ++ ids)

  Same-Keeps : (p q : Pimpl B) → Same p q → Keeps p q []
  unfolding Same
  Same-Keeps p q (r, told, left) = (r, rw (told, left) (sym (append-nil (accounted p))))

  pub result-Keeps :
      (p q : Pimpl B) (t : Task B)
      → IsConsistent B p
      → NoReadError B t
      → Lasts p q
      → Ends p q t
      → Keeps p q (task_ids B t)
  unfolding exec Same
  result-Keeps p q (open_task path c b) v n l e = Same-Keeps p q (open-Same p q path c b v l e)
  result-Keeps p q (read_task ec m g) v n l e = Same-Keeps p q (read-Same p q ec m g l e)
  result-Keeps p q (enqueue_task to_write packet_id) v n l e =
      let (r, told, left) = enqueue-Joined p q to_write packet_id v l e in
      (
        r,
        rw (told, left, deque_ids-append p.tx_deque to_write packet_id)
            (sym (append_assoc (reported_ids p.log) (deque_ids p.tx_deque) (packet_id ∷ []))),
      )
  result-Keeps p q (write_task ec m g) v n l e = go p.tx_deque refl
    where
      go : (d : List (List ℕ × ℕ)) → p.tx_deque ≡ d → Keeps p q []
      go [] d = Same-Keeps p q (write-Same p q ec m g d n l e)
      go ((bytes, id) ∷ rest) d = elim (write-Told p q ec m g id bytes rest d n l e) [
        | inl same ↦ Same-Keeps p q same
        | inr (r, told, left) ↦ (
          r,
          rw (told, left, d)
              (append_assoc (reported_ids p.log) (id ∷ []) (deque_ids rest)
                ∙ sym (append-nil (reported_ids p.log ++ id ∷ deque_ids rest))),
        )
      ]
  result-Keeps p q t v n l e = Same-Keeps p q (ground arith)
