-- ===== src/Api/Transport/Lossless.antt =====
-- What the write handler is told while a session lasts: every message that `asyncWrite` posts, in the order
-- of the posts.
use easy_lo_ra_reforged.Base.{
  ℕ, ◌+◌, ◌^◌, ◌<◌, ◌≡◌, sym, ap, ◌∙◌, false, List, [], ◌∷◌, ◌++◌, append-nil, append_assoc,
}
use easy_lo_ra_reforged.Api.Boost.{Boost}
use easy_lo_ra_reforged.Api.Transport.{Pimpl, init}
use easy_lo_ra_reforged.Api.Transport.Strand.{
  Task, enqueue_task, write_task, read_task, Leaves-cases, System, Step, posts, checks, reserves,
  enqueues, reads, writes, runs, start,
}
use easy_lo_ra_reforged.Api.Transport.Lifecycle.{reserve-fields}
use easy_lo_ra_reforged.Api.Transport.Sessions.{IsSound, Step-IsSound, History, History-IsSound}
use easy_lo_ra_reforged.Api.Transport.Traffic.{deque_ids}
use easy_lo_ra_reforged.Api.Transport.Reports.{reported_ids, task_ids, queue_ids}
use easy_lo_ra_reforged.Api.Transport.AtMostOnce.{
  step_ids, on_the_way, queue_ids-append, IsMethod-brings,
}
use easy_lo_ra_reforged.Api.Transport.Accounting.{Lasts, Keeps, accounted, result-Keeps}

module _ (B : Boost) where
  -- A step of a session that goes on.
  abbrev pub StepLasts : {s t : System B} → Step B s t → Type 0
  StepLasts {s} (runs t rest p e l) = Lasts B s.pimpl p
  StepLasts _ = Unit {0}

  -- Steps in which the session goes on.
  pub data Session (s : System B) : System B → Type 0 where
    begun : Session s s
    next :
        {t u : System B}
        → Session s t
        → t.pimpl.generation + 1 < 2 ^ 64
        → (st : Step B t u) → StepLasts st
        → Session s u

  -- The packets posted in it.
  abbrev pub session_ids : {s t : System B} → Session s t → List ℕ
  session_ids begun = []
  session_ids (next r w st l) = session_ids r ++ step_ids B st

  -- A task joins the strand.
  joined :
      (p : Pimpl B) (ts : List (Task B)) (t : Task B)
      → reported_ids p.log ++ (deque_ids p.tx_deque ++ queue_ids B (ts ++ t ∷ []))
        ≡ (reported_ids p.log ++ (deque_ids p.tx_deque ++ queue_ids B ts)) ++ task_ids B t
  joined p ts t =
      ap (λ l. reported_ids p.log ++ (deque_ids p.tx_deque ++ l)) (queue_ids-append B ts t)
      ∙ ap (λ l. reported_ids p.log ++ l)
          (sym (append_assoc (deque_ids p.tx_deque) (queue_ids B ts) (task_ids B t)))
      ∙ sym (append_assoc (reported_ids p.log) _ (task_ids B t))

  -- The strand runs a task.
  ran :
      (p q : Pimpl B) (t : Task B) (rest : List (Task B))
      → Keeps B p q (task_ids B t)
      → reported_ids q.log ++ (deque_ids q.tx_deque ++ queue_ids B rest)
        ≡ reported_ids p.log ++ (deque_ids p.tx_deque ++ queue_ids B (t ∷ rest))
  ran p q t rest (r, k) =
      sym (append_assoc (reported_ids q.log) (deque_ids q.tx_deque) (queue_ids B rest))
      ∙ ap (λ l. l ++ queue_ids B rest) k
      ∙ append_assoc (accounted B p) (task_ids B t) (queue_ids B rest)
      ∙ append_assoc (reported_ids p.log) (deque_ids p.tx_deque) (queue_ids B (t ∷ rest))

  -- A step keeps the transport running, and every packet in its place or one further.
  Step-keeps :
      {s t : System B} (st : Step B s t)
      → StepLasts st
      → IsSound B s
      → s.pimpl.stopped ≡ false
      → (t.pimpl.stopped ≡ false) × (on_the_way B t ≡ on_the_way B s ++ step_ids B st)
  Step-keeps {s} (posts t m) l v r =
      (r, joined s.pimpl s.queue t ∙ ap (λ i. on_the_way B s ++ i) (IsMethod-brings B t m))
  Step-keeps {s} (checks bytes id c) l v r = (r, sym (append-nil (on_the_way B s)))
  Step-keeps {s} (reserves bytes id current observed xs ys c k) l v r =
      rw (reserve-fields B s.pimpl current observed) (r, sym (append-nil (on_the_way B s)))
  Step-keeps {s} (enqueues bytes id xs ys c) l v r =
      (r, joined s.pimpl s.queue (enqueue_task bytes id))
  Step-keeps {s} (reads bytes ec n g xs ys c k) l v r =
      (r, joined s.pimpl s.queue (read_task ec n g))
  Step-keeps {s} (writes ec n g xs ys c k) l v r = (r, joined s.pimpl s.queue (write_task ec n g))
  Step-keeps {s} (runs t rest p e o) l v r =
      let k = result-Keeps B s.pimpl p t v.consistent (rw e at v.clean).0 l (Leaves-cases B o) in
      let before = reported_ids s.pimpl.log in
      (
        k.0,
        ran s.pimpl p t rest k
            ∙ ap (λ q. before ++ (deque_ids s.pimpl.tx_deque ++ queue_ids B q)) (sym e)
            ∙ sym (append-nil (on_the_way B s)),
      )

  Session-keeps :
      {s t : System B} (r : Session s t)
      → IsSound B s
      → s.pimpl.stopped ≡ false
      → IsSound B t × (t.pimpl.stopped ≡ false) × (on_the_way B t ≡ on_the_way B s ++ session_ids r)
  Session-keeps {s} begun v run = (v, run, sym (append-nil (on_the_way B s)))
  Session-keeps {s} (next r w st l) v run =
      let (v', run', kept) = Session-keeps r v run in
      let (run'', one) = Step-keeps st l v' run' in
      (
        Step-IsSound B st w v',
        run'',
        one
            ∙ ap (λ i. i ++ step_ids B st) kept
            ∙ append_assoc (on_the_way B s) (session_ids r) (step_ids B st),
      )

  -- From any running system that a history leads to, and in any interleaving of user threads, Asio and the
  -- strand in which the session goes on with a write handler: the packets told to a write handler, then
  -- those in the deque, then those on the strand are the ones that were so before, followed by those that
  -- `asyncWrite` has posted since then, in the order of the posts. No message is lost, repeated or
  -- overtaken.
  pub Session-on_the_way :
      (stream : B.Stream) {s t : System B}
      → History B (start B (init B stream)) s
      → s.pimpl.stopped ≡ false
      → (r : Session s t) → on_the_way B t ≡ on_the_way B s ++ session_ids r
  Session-on_the_way stream h run r = (Session-keeps r (History-IsSound B stream h) run).2
