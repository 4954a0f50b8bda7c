-- ===== src/Api/Transport/Progress.antt =====
-- No accepted message gets stuck.
use easy_lo_ra_reforged.Base.{
  ℕ, ◌+◌, ◌^◌, ◌<◌, ◌≡◌, ◌≢◌, refl, sym, ◌∙◌, false, List, [], ◌∷◌, ◌++◌, arith, inl, inr, ◌==◌,
  if◌then◌else◌, ap, subst, Bool-cases, append-nil, append_assoc,
}
use easy_lo_ra_reforged.Api.Types.{written}
use easy_lo_ra_reforged.Api.Boost.{Boost}
use easy_lo_ra_reforged.Api.Transport.{
  Pimpl, Outcome, init, returned, decrement, write_call, is_empty,
}
use easy_lo_ra_reforged.Api.Transport.Strand.{
  write_task, exec, Leaves, by_return, System, writes, runs, start,
}
use easy_lo_ra_reforged.Api.Transport.Counting.{count}
use easy_lo_ra_reforged.Api.Transport.Sessions.{
  IsSound, Step-IsSound, History, History-IsSound, here, next,
}
use easy_lo_ra_reforged.Api.Transport.Traffic.{written_ids, written_ids-append, deque_ids, IsServed}

-- A member of a list stands somewhere in it.
split-count :
    (g : ℕ) (xs : List ℕ)
    → count g xs ≢ 0
    → (before : List ℕ) × (after : List ℕ) × (xs ≡ before ++ g ∷ after)
split-count g [] h = absurd (h refl)
split-count g (x ∷ xs) h = elim (Bool-cases (x == g)) [
  | inl e ↦ let same : x ≡ g = ground (arith, e) in ([], xs, ap (λ y. y ∷ xs) same)
  | inr n ↦
      let (before, after, e) = split-count g xs (ground (arith, n, h)) in
      (x ∷ before, after, ap (◌∷◌ x) e)
]

module _ (B : Boost) where
  open B use {ErrorCode}

  -- Writes complete with code `success` and `n` bytes, one after the other, and nothing else happens: Asio
  -- completes a write that is in flight, and the strand, which has nothing else to do, runs its handler.
  pub data Completions (success : ErrorCode) (n : ℕ) : System B → System B → Type 0 where
    idle : {s : System B} → Completions success n s s
    completes :
        {s t : System B} (p : Pimpl B) (before after : List ℕ)
        → s.queue ≡ []
        → s.pimpl.writes ≡ before ++ s.pimpl.generation ∷ after
        → exec B
            (record s.pimpl { writes = before ++ after })
            (write_task success n s.pimpl.generation)
          ≡ returned p
        → Completions success n (record s { pimpl = p; queue = [] }) t
        → Completions success n s t

  Leaves-returned : {o : Outcome (Pimpl B)} (p : Pimpl B) → o ≡ returned p → Leaves B o p
  Leaves-returned p e = subst (λ o. Leaves B o p) (sym e) (by_return p)

  handle_write-served :
      (p : Pimpl B) (h : ℕ) (ec : ErrorCode) (n id : ℕ) (bytes : List ℕ) (rest : List (List ℕ × ℕ))
      → IsServed B p h
      → B.failed ec ≡ false
      → p.tx_deque ≡ (bytes, id) ∷ rest
      → exec B p (write_task ec n p.generation)
        ≡ returned (record p {
          pending_writes = decrement p.pending_writes;
          tx_deque = rest;
          writes = if is_empty rest then p.writes else p.generation ∷ p.writes;
          log = p.log ++ write_call h written id ∷ [];
        })
  unfolding exec
  handle_write-served p h ec n id bytes rest s f e = ground arith

  -- The write of the front message completes and its handler runs.
  writes_one :
      (s : System B) (h id : ℕ) (bytes : List ℕ) (rest : List (List ℕ × ℕ)) (success : ErrorCode)
      (n : ℕ)
      → B.failed success ≡ false
      → B.is_not_found success ≡ false
      → s.pimpl.generation + 1 < 2 ^ 64
      → IsSound B s
      → s.queue ≡ []
      → IsServed B s.pimpl h
      → s.pimpl.tx_deque ≡ (bytes, id) ∷ rest
      → (t : System B) × History B s t
        × ((u : System B) → Completions success n t u → Completions success n s u)
        × (t.queue ≡ [])
        × IsServed B t.pimpl h
        × (t.pimpl.tx_deque ≡ rest)
        × (t.pimpl.generation ≡ s.pimpl.generation)
        × (written_ids t.pimpl.log ≡ written_ids s.pimpl.log ++ id ∷ [])
  writes_one s h id bytes rest success n good found small v q serves front =
      let g = s.pimpl.generation in
      let flying : count g s.pimpl.writes ≢ 0 =
        ground (arith, q, front, serves.1, v.one_write.exclusive) in
      let (before, after, e) = split-count g s.pimpl.writes flying in
      let p = record s.pimpl { writes = before ++ after } in
      let done = handle_write-served p h success n id bytes rest serves good front in
      let r = record p {
        pending_writes = decrement p.pending_writes;
        tx_deque = rest;
        writes = if is_empty rest then p.writes else p.generation ∷ p.writes;
        log = p.log ++ write_call h written id ∷ [];
      } in
      (
        record s { pimpl = r; queue = [] },
        next (next here small (writes success n g before after e found)) small (
            runs (write_task success n g) [] r (ap (λ l. l ++ write_task success n g ∷ []) q)
              (Leaves-returned r done)),
        λ u c. completes r before after q e done c,
        refl,
        serves,
        refl,
        refl,
        written_ids-append s.pimpl.log (write_call h written id ∷ []),
      )

  pub History-keeps : {s t : System B} → IsSound B s → History B s t → IsSound B t
  History-keeps v here = v
  History-keeps v (next h w st) = Step-IsSound B st w (History-keeps v h)

  drains :
      (d : List (List ℕ × ℕ)) (s : System B) (h : ℕ) (success : ErrorCode) (n : ℕ)
      → B.failed success ≡ false
      → B.is_not_found success ≡ false
      → s.pimpl.generation + 1 < 2 ^ 64
      → IsSound B s
      → s.queue ≡ []
      → IsServed B s.pimpl h
      → s.pimpl.tx_deque ≡ d
      → (t : System B) × Completions success n s t
        × (t.pimpl.tx_deque ≡ [])
        × IsServed B t.pimpl h
        × (written_ids t.pimpl.log ≡ written_ids s.pimpl.log ++ deque_ids d)
  drains [] s h success n good found small v q serves e =
      (s, idle, e, serves, sym (append-nil (written_ids s.pimpl.log)))
  drains ((bytes, id) ∷ d) s h success n good found small v q serves e =
      let (t, first, continued, q', serves', left, same, told) =
        writes_one s h id bytes d success n good found small v q serves e in
      let (u, more, empty, serves'', told') =
        drains d t h success n good found (rw same small) (History-keeps v first) q' serves' left in
      (
        u,
        continued u more,
        empty,
        serves'',
        told'
            ∙ ap (λ l. l ++ deque_ids d) told
            ∙ append_assoc (written_ids s.pimpl.log) (id ∷ []) (deque_ids d),
      )

  -- In every reachable system whose transport runs with a write handler and whose strand has nothing to
  -- do: completions of writes with `success`, which is no error, and nothing else, empty the deque, and
  -- each message in it is reported as written once, in order. In particular a write is in flight for
  -- each of these completions, until the deque is empty.
  pub History-drains :
      (stream : B.Stream) {s : System B} (h : ℕ) (success : ErrorCode) (n : ℕ)
      → History B (start B (init B stream)) s
      → B.failed success ≡ false
      → B.is_not_found success ≡ false
      → s.pimpl.generation + 1 < 2 ^ 64
      → s.queue ≡ []
      → IsServed B s.pimpl h
      → (t : System B) × Completions success n s t
        × (t.pimpl.tx_deque ≡ [])
        × IsServed B t.pimpl h
        × (written_ids t.pimpl.log ≡ written_ids s.pimpl.log ++ deque_ids s.pimpl.tx_deque)
  History-drains stream {s} h success n r good found small q serves =
      drains s.pimpl.tx_deque s h success n good found small (History-IsSound B stream r) q serves
        refl
