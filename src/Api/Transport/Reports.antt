-- ===== src/Api/Transport/Reports.antt =====
-- What the write handler is told, over any history: every message that `asyncWrite` has posted is
-- reported at most once, and in the order of the posts.
use easy_lo_ra_reforged.Base.{
  ℕ, ◌≡◌, refl, sym, ap, ◌∙◌, subst, false, List, [], ◌∷◌, ◌++◌, ◌⊎◌, inl, inr, arith, append-nil,
  append_assoc,
}
use easy_lo_ra_reforged.Base.Thinned.{Thinned, Thinned-refl, Thinned-nil, Thinned-append}
use easy_lo_ra_reforged.Api.Boost.{Boost}
use easy_lo_ra_reforged.Api.Transport.{Pimpl, returned, thrown, Call, write_call}
use easy_lo_ra_reforged.Api.Transport.Strand.{
  Task, open_task, enqueue_task, write_task, read_task, exec,
}
use easy_lo_ra_reforged.Api.Transport.Lifecycle.{IsConsistent}
use easy_lo_ra_reforged.Api.Transport.Exclusion.{NoReadError}
use easy_lo_ra_reforged.Api.Transport.Traffic.{deque_ids, deque_ids-append}

-- The packets reported, whatever the result, oldest first.
abbrev pub reported : Call → List ℕ
reported (write_call h result id) = id ∷ []
reported _ = []

abbrev pub reported_ids : List Call → List ℕ
reported_ids [] = []
reported_ids (call ∷ calls) = reported call ++ reported_ids calls

reported_ids-append :
    (xs ys : List Call) → reported_ids (xs ++ ys) ≡ reported_ids xs ++ reported_ids ys
reported_ids-append [] ys = refl
reported_ids-append (c ∷ xs) ys =
    ap (λ l. reported c ++ l) (reported_ids-append xs ys)
    ∙ sym (append_assoc (reported c) (reported_ids xs) (reported_ids ys))

pub reported_ids-snoc :
    (xs : List Call) (c : Call) → reported_ids (xs ++ c ∷ []) ≡ reported_ids xs ++ reported c
reported_ids-snoc xs c =
    reported_ids-append xs (c ∷ []) ∙ ap (λ l. reported_ids xs ++ l) (append-nil (reported c))

module _ (B : Boost) where
  -- The packet that a task brings to the deque.
  abbrev pub task_ids : Task B → List ℕ
  task_ids (enqueue_task to_write packet_id) = packet_id ∷ []
  task_ids _ = []

  abbrev pub queue_ids : List (Task B) → List ℕ
  queue_ids [] = []
  queue_ids (t ∷ ts) = task_ids t ++ queue_ids ts

  -- A task that is no write reports nothing, and keeps or clears the deque.
  Quiet : (p q : Pimpl B) → Type 0
  Quiet p q =
      (reported_ids q.log ≡ reported_ids p.log) × ((q.tx_deque ≡ p.tx_deque) ⊎ (q.tx_deque ≡ []))

  read-Quiet :
      (p q : Pimpl B) (ec : B.ErrorCode) (n g : ℕ)
      → (exec B p (read_task ec n g) ≡ returned q) ⊎ (exec B p (read_task ec n g) ≡ thrown q)
      → Quiet p q
  unfolding exec Quiet
  read-Quiet p q ec n g e = grind (arith, reported_ids-snoc, append-nil)

  open-Quiet :
      (p q : Pimpl B) (path : _) (c : _) (b : _)
      → (exec B p (open_task path c b) ≡ returned q) ⊎ (exec B p (open_task path c b) ≡ thrown q)
      → Quiet p q
  unfolding exec Quiet
  open-Quiet p q path c b e = ground arith

  -- A completed write reports the message in front or nothing, and takes it out, or clears the deque, or
  -- does nothing.
  WriteDone : (p q : Pimpl B) → ℕ → List (List ℕ × ℕ) → Type 0
  WriteDone p q id rest =
      ((reported_ids q.log ≡ reported_ids p.log) × (q.tx_deque ≡ p.tx_deque))
      ⊎ (((reported_ids q.log ≡ reported_ids p.log ++ id ∷ [])
            ⊎ (reported_ids q.log ≡ reported_ids p.log))
          × ((q.tx_deque ≡ rest) ⊎ (q.tx_deque ≡ [])))

  write-WriteDone :
      (p q : Pimpl B) (ec : B.ErrorCode) (n g id : ℕ) (bytes : List ℕ) (rest : List (List ℕ × ℕ))
      → p.tx_deque ≡ (bytes, id) ∷ rest
      → B.is_not_found ec ≡ false
      → (exec B p (write_task ec n g) ≡ returned q) ⊎ (exec B p (write_task ec n g) ≡ thrown q)
      → WriteDone p q id rest
  unfolding exec WriteDone
  write-WriteDone p q ec n g id bytes rest d f e = grind (arith, reported_ids-snoc, append-nil)

  write-Quiet :
      (p q : Pimpl B) (ec : B.ErrorCode) (n g : ℕ)
      → p.tx_deque ≡ []
      → B.is_not_found ec ≡ false
      → (exec B p (write_task ec n g) ≡ returned q) ⊎ (exec B p (write_task ec n g) ≡ thrown q)
      → Quiet p q
  unfolding exec Quiet
  write-Quiet p q ec n g d f e = grind (arith, reported_ids-snoc, append-nil)

  -- A posted message joins the end of the deque; on a transport that does not run it is reported, or there
  -- is no handler.
  enqueue-Joined :
      (p q : Pimpl B) (to_write : List ℕ) (packet_id : ℕ)
      → IsConsistent B p
      → (exec B p (enqueue_task to_write packet_id) ≡ returned q)
        ⊎ (exec B p (enqueue_task to_write packet_id) ≡ thrown q)
      → ((reported_ids q.log ≡ reported_ids p.log)
          × ((q.tx_deque ≡ p.tx_deque ++ (to_write, packet_id) ∷ []) ⊎ (q.tx_deque ≡ [])))
        ⊎ ((reported_ids q.log ≡ reported_ids p.log ++ packet_id ∷ [])
            × (p.tx_deque ≡ [])
            × (q.tx_deque ≡ []))
  unfolding exec
  enqueue-Joined p q to_write packet_id v e = grind (arith, reported_ids-snoc, append-nil)

  -- What a task reports and leaves in the deque is what was in the deque and what the task brought, or a
  -- part of it in the same order.
  pub record Tells (p q : Pimpl B) (ids : List ℕ) : Type 0 where
    pub told : List ℕ
    pub log : reported_ids q.log ≡ reported_ids p.log ++ told
    pub left : Thinned ◌≡◌ (told ++ deque_ids q.tx_deque) (deque_ids p.tx_deque ++ ids)

  -- It reports nothing.
  silent :
      (p q : Pimpl B)
      → reported_ids q.log ≡ reported_ids p.log
      → reported_ids q.log ≡ reported_ids p.log ++ []
  silent p q e = e ∙ sym (append-nil (reported_ids p.log))

  Quiet-Tells : (p q : Pimpl B) (ids : List ℕ) → Quiet p q → Tells p q ids
  unfolding Quiet
  Quiet-Tells p q ids (e, o) = record { told = []; log = silent p q e; left = kept o }
    where
      kept :
          (q.tx_deque ≡ p.tx_deque) ⊎ (q.tx_deque ≡ [])
          → Thinned ◌≡◌ (deque_ids q.tx_deque) (deque_ids p.tx_deque ++ ids)
      kept (inl d) =
          subst (λ l. Thinned ◌≡◌ l (deque_ids p.tx_deque ++ ids))
            (append-nil (deque_ids p.tx_deque) ∙ ap deque_ids (sym d))
            (Thinned-append (Thinned-refl (deque_ids p.tx_deque)) (Thinned-nil ids))
      kept (inr d) = rw d (Thinned-nil (deque_ids p.tx_deque ++ ids))

  WriteDone-Tells :
      (p q : Pimpl B) (bytes : List ℕ) (id : ℕ) (rest : List (List ℕ × ℕ))
      → p.tx_deque ≡ (bytes, id) ∷ rest
      → WriteDone p q id rest
      → Tells p q []
  unfolding WriteDone Quiet
  WriteDone-Tells p q bytes id rest d (inl (e, same)) = Quiet-Tells p q [] (e, inl same)
  WriteDone-Tells p q bytes id rest d (inr (told, o)) = go told
    where
      kept : Thinned ◌≡◌ (deque_ids q.tx_deque) (deque_ids rest ++ [])
      kept = elim o [
        | inl e ↦ rw (e, append-nil (deque_ids rest)) (Thinned-refl (deque_ids rest))
        | inr e ↦ rw e (Thinned-nil (deque_ids rest ++ []))
      ]

      go :
          (reported_ids q.log ≡ reported_ids p.log ++ id ∷ [])
            ⊎ (reported_ids q.log ≡ reported_ids p.log)
          → Tells p q []
      go (inl e) = record {
        told = id ∷ [];
        log = e;
        left = rw d (Thinned-append (Thinned-refl (id ∷ [])) kept);
      }
      go (inr e) = record {
        told = [];
        log = silent p q e;
        left = rw d (Thinned-append (Thinned-nil (id ∷ [])) kept);
      }

  pub result-Tells :
      (p q : Pimpl B) (t : Task B)
      → IsConsistent B p
      → NoReadError B t
      → (exec B p t ≡ returned q) ⊎ (exec B p t ≡ thrown q)
      → Tells p q (task_ids t)
  unfolding exec Quiet
  result-Tells p q (open_task path c b) v n e = Quiet-Tells p q [] (open-Quiet p q path c b e)
  result-Tells p q (read_task ec m g) v n e = Quiet-Tells p q [] (read-Quiet p q ec m g e)
  result-Tells p q (write_task ec m g) v n e = go p.tx_deque refl
    where
      go : (d : List (List ℕ × ℕ)) → p.tx_deque ≡ d → Tells p q []
      go [] d = Quiet-Tells p q [] (write-Quiet p q ec m g d n e)
      go ((bytes, id) ∷ rest) d =
          WriteDone-Tells p q bytes id rest d (write-WriteDone p q ec m g id bytes rest d n e)
  result-Tells p q (enqueue_task to_write packet_id) v n e =
      elim (enqueue-Joined p q to_write packet_id v e) [
        | inl (told, inl d) ↦ record {
          told = [];
          log = silent p q told;
          left =
              rw (d, deque_ids-append p.tx_deque to_write packet_id)
                (Thinned-refl (deque_ids p.tx_deque ++ packet_id ∷ []));
        }
        | inl (told, inr d) ↦ record {
          told = [];
          log = silent p q told;
          left = rw d (Thinned-nil (deque_ids p.tx_deque ++ packet_id ∷ []));
        }
        | inr (told, d, d') ↦ record {
          told = packet_id ∷ [];
          log = told;
          left = rw (d, d') (Thinned-refl (packet_id ∷ []));
        }
      ]
  result-Tells p q t v n e = Quiet-Tells p q [] (ground arith)
