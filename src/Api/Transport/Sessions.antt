-- ===== src/Api/Transport/Sessions.antt =====
-- In every interleaving: one write and one read of the session at most, and no undefined behaviour.
use easy_lo_ra_reforged.Base.{ℕ, ◌+◌, ◌^◌, ◌<◌, ◌≡◌, ◌≢◌, refl, List, [], ◌∷◌, ◌++◌, arith, ap}
use easy_lo_ra_reforged.Api.Boost.{Boost}
use easy_lo_ra_reforged.Api.Transport.{Pimpl, undefined, init}
use easy_lo_ra_reforged.Api.Transport.Handlers.{reserve}
use easy_lo_ra_reforged.Api.Transport.Strand.{
  Task, enqueue_task, read_task, write_task, exec, Leaves-cases, System, Step, posts, checks,
  reserves, enqueues, reads, writes, runs, start, IsMethod, opens, closes, sets_frame_handler,
  sets_fatal_error_handler, sets_recuperable_error_handler, sets_write_handler,
}
use easy_lo_ra_reforged.Api.Transport.Counting.{
  count, count-append, is_read, is_write, total-append,
}
use easy_lo_ra_reforged.Api.Transport.Lifecycle.{IsConsistent, Step-IsConsistent, reserve-fields}
use easy_lo_ra_reforged.Api.Transport.Exclusion.{
  OneWrite, OneRead, NoReadError, result-OneWrite, result-OneRead, reads_of, writes_of,
}

module _ (B : Boost) where
  abbrev pub AllClean : List (Task B) → Type 0
  AllClean [] = Unit {0}
  AllClean (t ∷ ts) = NoReadError B t × AllClean ts

  AllClean-append :
      (ts : List (Task B)) (t : Task B) → AllClean ts → NoReadError B t → AllClean (ts ++ t ∷ [])
  AllClean-append [] t c n = (n, tt)
  AllClean-append (u ∷ ts) t c n = (c.0, AllClean-append ts t c.1 n)

  pub record IsSound (s : System B) : Type 0 where
    pub consistent : IsConsistent B s.pimpl
    pub one_write : OneWrite B s.pimpl s.queue
    pub one_read : OneRead B s.pimpl s.queue
    pub clean : AllClean s.queue

  -- A system that differs only in what the counts do not see.
  same-IsSound :
      (s t : System B)
      → ((g : ℕ) → reads_of B t.pimpl t.queue g ≡ reads_of B s.pimpl s.queue g)
      → ((g : ℕ) → writes_of B t.pimpl t.queue g ≡ writes_of B s.pimpl s.queue g)
      → t.pimpl.generation ≡ s.pimpl.generation
      → t.pimpl.stopped ≡ s.pimpl.stopped
      → t.pimpl.tx_deque ≡ s.pimpl.tx_deque
      → IsConsistent B t.pimpl
      → AllClean t.queue
      → IsSound s
      → IsSound t
  same-IsSound s t hr hw g st d c a v = record {
    consistent = c;
    one_write = record {
      future = λ k h. omega (arith, hw k, v.one_write.future k, g);
      exclusive = λ h. ground (arith, hw s.pimpl.generation, v.one_write.exclusive, g, st, d);
    };
    one_read = record {
      future = λ k h. omega (arith, hr k, v.one_read.future k, g);
      exclusive = λ h. ground (arith, hr s.pimpl.generation, v.one_read.exclusive, g, st);
    };
    clean = a;
  }

  method_quiet :
      {t : Task B}
      → IsMethod B t
      → (g : ℕ) → (is_read B g t ≡ 0) × (is_write B g t ≡ 0) × NoReadError B t
  method_quiet (opens path c b) g = (refl, refl, tt)
  method_quiet closes g = (refl, refl, tt)
  method_quiet (sets_frame_handler h) g = (refl, refl, tt)
  method_quiet (sets_fatal_error_handler h) g = (refl, refl, tt)
  method_quiet (sets_recuperable_error_handler h) g = (refl, refl, tt)
  method_quiet (sets_write_handler h) g = (refl, refl, tt)

  pub Step-IsSound :
      {s t : System B} → Step B s t → s.pimpl.generation + 1 < 2 ^ 64 → IsSound s → IsSound t
  Step-IsSound {s} (posts t h) w v =
      same-IsSound s (record s { queue = s.queue ++ t ∷ [] })
        (λ g. omega (arith, total-append B (is_read B g) s.queue (t ∷ []), (method_quiet h g).0))
        (λ g. omega (arith, total-append B (is_write B g) s.queue (t ∷ []), (method_quiet h g).1))
        refl refl refl v.consistent (AllClean-append s.queue t v.clean (method_quiet h 0).2) v
  Step-IsSound {s} (checks bytes id h) w v = record {
    consistent = v.consistent;
    one_write = v.one_write;
    one_read = v.one_read;
    clean = v.clean;
  }
  Step-IsSound {s} (reserves bytes id current observed xs ys h k) w v =
      rw (reserve-fields B s.pimpl current observed) (
        same-IsSound s
          (record s {
            pimpl = record s.pimpl {
              pending_writes = (reserve B s.pimpl current observed).1.pending_writes;
            };
            checked = xs ++ ys;
            reserved = (bytes, id) ∷ s.reserved;
          })
          (λ g. refl) (λ g. refl) refl refl refl
          (rw (← reserve-fields B s.pimpl current observed) (
            Step-IsConsistent B {s = s} (reserves bytes id current observed xs ys h k)
              v.consistent))
          v.clean v)
  Step-IsSound {s} (enqueues bytes id xs ys h) w v =
      same-IsSound s
        (record s { queue = s.queue ++ enqueue_task bytes id ∷ []; reserved = xs ++ ys })
        (λ g. omega (arith, total-append B (is_read B g) s.queue (enqueue_task bytes id ∷ [])))
        (λ g. omega (arith, total-append B (is_write B g) s.queue (enqueue_task bytes id ∷ [])))
        refl refl refl v.consistent (AllClean-append s.queue (enqueue_task bytes id) v.clean tt) v
  Step-IsSound {s} (reads bytes ec n g xs ys h k) w v =
      same-IsSound s
        (record s {
          pimpl = record s.pimpl { rx_buffer = s.pimpl.rx_buffer ++ bytes; reads = xs ++ ys };
          queue = s.queue ++ read_task ec n g ∷ [];
        })
        (λ a. omega (
          arith,
          ap (count a) h,
          count-append a xs ys,
          count-append a xs (g ∷ ys),
          total-append B (is_read B a) s.queue (read_task ec n g ∷ []),
        ))
        (λ a. omega (arith, total-append B (is_write B a) s.queue (read_task ec n g ∷ []))) refl
        refl refl (Step-IsConsistent B {s = s} (reads bytes ec n g xs ys h k) v.consistent)
        (AllClean-append s.queue (read_task ec n g) v.clean tt) v
  Step-IsSound {s} (writes ec n g xs ys h k) w v =
      same-IsSound s
        (record s {
          pimpl = record s.pimpl { writes = xs ++ ys };
          queue = s.queue ++ write_task ec n g ∷ [];
        })
        (λ a. omega (arith, total-append B (is_read B a) s.queue (write_task ec n g ∷ [])))
        (λ a. omega (
          arith,
          ap (count a) h,
          count-append a xs ys,
          count-append a xs (g ∷ ys),
          total-append B (is_write B a) s.queue (write_task ec n g ∷ []),
        ))
        refl refl refl (Step-IsConsistent B {s = s} (writes ec n g xs ys h k) v.consistent)
        (AllClean-append s.queue (write_task ec n g) v.clean k) v
  Step-IsSound {s} (runs t rest p h l) w v =
      let clean : AllClean (t ∷ rest) = rw h at v.clean in
      record {
        consistent = Step-IsConsistent B {s = s} (runs t rest p h l) v.consistent;
        one_write =
            result-OneWrite B s.pimpl p t rest v.consistent w clean.0 (rw h at v.one_write)
              (Leaves-cases B l);
        one_read =
            result-OneRead B s.pimpl p t rest v.consistent w clean.0 (rw h at v.one_read)
              (Leaves-cases B l);
        clean = clean.1;
      }

  -- A history of steps, over which the generation does not come round to 0.
  pub data History (s : System B) : System B → Type 0 where
    here : History s s
    next :
        {t u : System B} → History s t → t.pimpl.generation + 1 < 2 ^ 64 → Step B t u → History s u

  History-keeps-IsSound : {s t : System B} → IsSound s → History s t → IsSound t
  History-keeps-IsSound v here = v
  History-keeps-IsSound v (next h w st) = Step-IsSound st w (History-keeps-IsSound v h)

  -- Whatever threads, Asio and the strand do, and in whatever order: while the transport runs, one write
  -- of the session is in flight or completed and posted exactly if the deque holds a message, and
  -- none otherwise, so no two writes overlap; and exactly one read of the session is.
  pub History-IsSound :
      (stream : B.Stream) {t : System B} → History (start B (init B stream)) t → IsSound t
  unfolding start init
  History-IsSound stream h =
      History-keeps-IsSound
        (record {
          consistent = ground arith;
          one_write = record { future = λ g h. omega arith; exclusive = λ h. ground arith };
          one_read = record { future = λ g h. omega arith; exclusive = λ h. ground arith };
          clean = tt;
        })
        h

  run-ne-undefined :
      (p : Pimpl B) (t : Task B) (rest : List (Task B))
      → OneWrite B p (t ∷ rest)
      → exec B p t ≢ undefined
  unfolding exec
  run-ne-undefined p (write_task ec n g) rest o e = ground arith
  run-ne-undefined p t rest o e = ground arith

  -- Nor does the strand's next task ever read or pop the front of an empty deque.
  pub exec-ne-undefined :
      (stream : B.Stream) {s : System B} (t : Task B) (rest : List (Task B))
      → History (start B (init B stream)) s
      → s.queue ≡ t ∷ rest
      → exec B s.pimpl t ≢ undefined
  exec-ne-undefined stream {s} t rest h e =
      run-ne-undefined s.pimpl t rest (rw e at (History-IsSound stream h).one_write)
