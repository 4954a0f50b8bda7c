-- ===== src/Api/Transport/AtMostOnce.antt =====
-- The reports of writes over whole histories.
use easy_lo_ra_reforged.Base.{
  ℕ, ◌≡◌, refl, sym, ap, ◌∙◌, subst, List, [], ◌∷◌, ◌++◌, append-nil, append_assoc,
}
use easy_lo_ra_reforged.Base.Thinned.{
  Thinned, end, Thinned-refl, Thinned-nil, Thinned-trans, Thinned-append,
}
use easy_lo_ra_reforged.Api.Boost.{Boost}
use easy_lo_ra_reforged.Api.Transport.{Pimpl, init}
use easy_lo_ra_reforged.Api.Transport.Strand.{
  Task, IsMethod, opens, closes, sets_frame_handler, sets_fatal_error_handler,
  sets_recuperable_error_handler, sets_write_handler, enqueue_task, write_task, read_task,
  Leaves-cases, System, Step, posts, checks, reserves, enqueues, reads, writes, runs, start,
}
use easy_lo_ra_reforged.Api.Transport.Lifecycle.{reserve-fields}
use easy_lo_ra_reforged.Api.Transport.Sessions.{IsSound, History, here, next, History-IsSound}
use easy_lo_ra_reforged.Api.Transport.Traffic.{deque_ids}
use easy_lo_ra_reforged.Api.Transport.Reports.{
  reported_ids, task_ids, queue_ids, Tells, result-Tells,
}

module _ (B : Boost) where
  -- The packet that a step posts to the strand, the last of the three steps of `asyncWrite`.
  abbrev pub step_ids : {s t : System B} → Step B s t → List ℕ
  step_ids (enqueues bytes id xs ys h) = id ∷ []
  step_ids _ = []

  abbrev pub posted_ids : {s t : System B} → History B s t → List ℕ
  posted_ids here = []
  posted_ids (next h w st) = posted_ids h ++ step_ids st

  -- Reported, in the deque, or posted to the strand.
  abbrev pub on_the_way : System B → List ℕ
  on_the_way s = reported_ids s.pimpl.log ++ (deque_ids s.pimpl.tx_deque ++ queue_ids B s.queue)

  pub queue_ids-append :
      (ts : List (Task B)) (t : Task B)
      → queue_ids B (ts ++ t ∷ []) ≡ queue_ids B ts ++ task_ids B t
  queue_ids-append [] t = append-nil (task_ids B t)
  queue_ids-append (u ∷ ts) t =
      ap (λ l. task_ids B u ++ l) (queue_ids-append ts t)
      ∙ sym (append_assoc (task_ids B u) (queue_ids B ts) (task_ids B t))

  pub IsMethod-brings : (t : Task B) → IsMethod B t → task_ids B t ≡ []
  IsMethod-brings t (opens path c b) = refl
  IsMethod-brings t closes = refl
  IsMethod-brings t (sets_frame_handler h) = refl
  IsMethod-brings t (sets_fatal_error_handler h) = refl
  IsMethod-brings t (sets_recuperable_error_handler h) = refl
  IsMethod-brings t (sets_write_handler h) = refl

  -- A task joins the strand.
  joined :
      (reported deque posted : List ℕ) (ts : List (Task B)) (t : Task B)
      → Thinned ◌≡◌ (reported ++ (deque ++ queue_ids B ts)) posted
      → Thinned ◌≡◌ (reported ++ (deque ++ queue_ids B (ts ++ t ∷ []))) (posted ++ task_ids B t)
  joined reported deque posted ts t h =
      subst (λ l. Thinned ◌≡◌ l (posted ++ task_ids B t))
        (append_assoc reported (deque ++ queue_ids B ts) (task_ids B t)
          ∙ ap (λ l. reported ++ l)
              (append_assoc deque (queue_ids B ts) (task_ids B t)
                ∙ ap (λ l. deque ++ l) (sym (queue_ids-append ts t))))
        (Thinned-append h (Thinned-refl (task_ids B t)))

  -- The strand runs a task.
  ran :
      (p q : Pimpl B) (t : Task B) (rest : List (Task B)) (posted : List ℕ)
      → Tells B p q (task_ids B t)
      → Thinned ◌≡◌ (reported_ids p.log ++ (deque_ids p.tx_deque ++ queue_ids B (t ∷ rest))) posted
      → Thinned ◌≡◌ (reported_ids q.log ++ (deque_ids q.tx_deque ++ queue_ids B rest)) posted
  ran p q t rest posted d h =
      let before = reported_ids p.log in
      let later = queue_ids B rest in
      subst (λ l. Thinned ◌≡◌ l posted)
        (ap (λ l. before ++ l) (append_assoc d.told (deque_ids q.tx_deque) later)
          ∙ sym (append_assoc before d.told (deque_ids q.tx_deque ++ later))
          ∙ ap (λ l. l ++ (deque_ids q.tx_deque ++ later)) (sym d.log))
        (Thinned-trans
          (Thinned-append (Thinned-refl before) (
            subst (λ l. Thinned ◌≡◌ ((d.told ++ deque_ids q.tx_deque) ++ later) l)
              (append_assoc (deque_ids p.tx_deque) (task_ids B t) later)
              (Thinned-append d.left (Thinned-refl later))))
          h)

  Step-keeps :
      {s t : System B} (posted : List ℕ) (st : Step B s t)
      → IsSound B s
      → Thinned ◌≡◌ (on_the_way s) posted
      → Thinned ◌≡◌ (on_the_way t) (posted ++ step_ids st)
  Step-keeps {s} posted (posts t m) v h =
      subst (λ l. Thinned ◌≡◌ (on_the_way (record s { queue = s.queue ++ t ∷ [] })) (posted ++ l))
        (IsMethod-brings t m)
        (joined (reported_ids s.pimpl.log) (deque_ids s.pimpl.tx_deque) posted s.queue t h)
  Step-keeps posted (checks bytes id c) v h = rw (append-nil posted) h
  Step-keeps {s} posted (reserves bytes id current observed xs ys c k) v h =
      rw (append-nil posted, reserve-fields B s.pimpl current observed) h
  Step-keeps {s} posted (enqueues bytes id xs ys c) v h =
      joined (reported_ids s.pimpl.log) (deque_ids s.pimpl.tx_deque) posted s.queue
        (enqueue_task bytes id) h
  Step-keeps {s} posted (reads bytes ec n g xs ys c k) v h =
      joined (reported_ids s.pimpl.log) (deque_ids s.pimpl.tx_deque) posted s.queue
        (read_task ec n g) h
  Step-keeps {s} posted (writes ec n g xs ys c k) v h =
      joined (reported_ids s.pimpl.log) (deque_ids s.pimpl.tx_deque) posted s.queue
        (write_task ec n g) h
  Step-keeps {s} posted (runs t rest p e l) v h = rw (append-nil posted) (
      ran s.pimpl p t rest posted
        (result-Tells B s.pimpl p t v.consistent (rw e at v.clean).0 (Leaves-cases B l))
        (subst
          (λ q.
            Thinned ◌≡◌ (reported_ids s.pimpl.log ++ (deque_ids s.pimpl.tx_deque ++ queue_ids B q))
              posted)
          e h))

  History-keeps :
      (stream : B.Stream) {t : System B} (h : History B (start B (init B stream)) t)
      → Thinned ◌≡◌ (on_the_way t) (posted_ids h)
  unfolding start init
  History-keeps stream here = end
  History-keeps stream (next h w st) =
      Step-keeps (posted_ids h) st (History-IsSound B stream h) (History-keeps stream h)

  -- Over any history of threads, Asio and the strand, with errors, closes and reopenings: the packets that
  -- have been reported to a write handler, with whatever result, are packets that `asyncWrite` has posted,
  -- in the order of the posts and each post at most once.
  pub History-reports :
      (stream : B.Stream) {t : System B} (h : History B (start B (init B stream)) t)
      → Thinned ◌≡◌ (reported_ids t.pimpl.log) (posted_ids h)
  History-reports stream {t} h =
      Thinned-trans
        (subst (λ l. Thinned ◌≡◌ l (on_the_way t)) (append-nil (reported_ids t.pimpl.log))
          (Thinned-append (Thinned-refl (reported_ids t.pimpl.log))
            (Thinned-nil (deque_ids t.pimpl.tx_deque ++ queue_ids B t.queue))))
        (History-keeps stream h)
