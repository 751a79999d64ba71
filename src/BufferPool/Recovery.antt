-- ===== src/BufferPool/Recovery.antt =====
-- Replay of the log of a file's pages gives the header that was there at the end.
use miniob4cqu_db_exp.Common.{
  ℕ, ◌+◌, ◌≤◌, ◌<◌, ◌≡◌, refl, sym, ap, ◌∙◌, subst, Rc, List, [], ◌∷◌, ◌++◌, All, le→leb,
  if◌then◌else◌, arith,
}
use miniob4cqu_db_exp.BufferPool.{
  Header, Operation, allocate, deallocate, Pool, with_page, without_page, redo_allocate_page,
  redo_deallocate_page, replay_entry, replay, is_success,
}
use miniob4cqu_db_exp.BufferPool.Valid.{
  IsValid, with_page-IsValid, extended-IsValid, without_page-IsValid,
}
use miniob4cqu_db_exp.BufferPool.Steps.{
  unchanged, reuses, extends, releases, start, then_steps, PoolRun, Effect, Steps-Effect,
}
use miniob4cqu_db_exp.BufferPool.Redo.{
  Agrees, replayed, replay-append, Reaches, redo-reuse, redo-extend, redo-release,
}

-- The state of a run, and where a replay from its beginning leads.
pub record Reached (s u : Pool) : Type 0 where
  pub recovers : Reaches (replay u.log s.header) u.header
  pub valid : IsValid u.header
  pub ahead : u.header.lsn < u.next_lsn

replay-one :
    (e : ℕ × Operation) (h k : Header)
    → Reaches (replay_entry e h) k
    → Reaches (replay (e ∷ []) h) k
unfolding replay
replay-one e h k (l, run, a) =
    (l, ap (λ (r : Rc × Header). if is_success r.0 then replay [] r.1 else r) run, a)

replay-step :
    (s : Header) (log : List (ℕ × Operation)) (e : ℕ × Operation) (k l : Header)
    → Reaches (replay log s) k
    → ((h : Header) → Agrees h k → Reaches (replay_entry e h) l)
    → Reaches (replay (log ++ e ∷ []) s) l
replay-step s log e k l (h, run, a) entry =
    subst (λ r. Reaches r l) (sym (replay-append log e s h run)) (replay-one e h l (entry h a))

IsValid-lsn : (h : Header) (lsn : ℕ) → IsValid h → IsValid (record h { lsn = lsn })
IsValid-lsn h lsn v = record {
  bits = v.bits;
  room = v.room;
  within = v.within;
  counted = v.counted;
  behind = v.behind;
}

Effect-Reached : (s t u : Pool) → Reached s t → Effect t u → Reached s u
unfolding replay_entry
Effect-Reached s t u r (unchanged same) = subst (Reached s) (sym same) r
Effect-Reached s t u r (reuses p below free same) = subst (Reached s) (sym same) (record {
  recovers =
      replay-step s.header t.log (t.next_lsn, allocate p) t.header
        (with_page p (record t.header { lsn = t.next_lsn })) r.recovers
        (λ h a. redo-reuse t.next_lsn p h t.header a r.ahead below free);
  valid =
      with_page-IsValid (record t.header { lsn = t.next_lsn }) p
        (IsValid-lsn t.header t.next_lsn r.valid) below free;
  ahead = omega arith;
})
Effect-Reached s t u r (extends room same) = subst (Reached s) (sym same) (record {
  recovers =
      replay-step s.header t.log (t.next_lsn, allocate t.header.page_count) t.header
        (with_page t.header.page_count
          (record t.header { page_count = t.header.page_count + 1; lsn = t.next_lsn }))
        r.recovers (λ h a. redo-extend t.next_lsn h t.header a r.ahead room);
  valid = extended-IsValid t.header t.next_lsn r.valid room;
  ahead = omega arith;
})
Effect-Reached s t u r (releases p below marked same) = subst (Reached s) (sym same) (record {
  recovers =
      replay-step s.header t.log (t.next_lsn, deallocate p) t.header
        (without_page p (record t.header { lsn = t.next_lsn })) r.recovers
        (λ h a. redo-release t.next_lsn p h t.header a r.ahead below marked);
  valid =
      without_page-IsValid (record t.header { lsn = t.next_lsn }) p
        (IsValid-lsn t.header t.next_lsn r.valid) marked;
  ahead = omega arith;
})

-- An entry that the header has is skipped.
skips : (e : ℕ × Operation) (h : Header) → e.0 ≤ h.lsn → replay_entry e h ≡ replayed Rc.success h
unfolding replay_entry redo_allocate_page redo_deallocate_page
skips (lsn, allocate p) h old = rw (le→leb lsn h.lsn old) refl
skips (lsn, deallocate p) h old = rw (le→leb lsn h.lsn old) refl

replay-skips :
    (log : List (ℕ × Operation)) (h : Header)
    → All (λ e. e.0 ≤ h.lsn) log
    → replay log h ≡ replayed Rc.success h
unfolding replay
replay-skips [] h old = refl
replay-skips (e ∷ log) h old =
    ap (λ (r : Rc × Header). if is_success r.0 then replay log r.1 else r) (skips e h old.0)
    ∙ replay-skips log h old.1

PoolRun-Reached :
    (s u : Pool)
    → IsValid s.header
    → All (λ e. e.0 ≤ s.header.lsn) s.log
    → s.header.lsn < s.next_lsn
    → PoolRun s u
    → Reached s u
PoolRun-Reached s u v old ahead start = record {
  recovers = (
    s.header,
    replay-skips s.log s.header old,
    record { page_count = refl; allocated_pages = refl; bitmap = refl; lsn = omega arith },
  );
  valid = v;
  ahead = ahead;
}
PoolRun-Reached s u v old ahead (then_steps {t = t} run step) =
    let r : Reached s t = PoolRun-Reached s t v old ahead run in
    Effect-Reached s t u r (Steps-Effect t u r.valid step)

-- Recovery of the pages of a file. After any run of allocations that do not lack a frame and of
-- disposals of allocated pages, a replay of the whole log on the header that was on disk, which may
-- be the one of any moment of the log, succeeds. It gives the page count, the number of allocated
-- pages and the bitmap that were there at the end, and that header is valid: the number of allocated
-- pages is the number of bits set below the page count, and none is set behind it.
pub replay-PoolRun :
    (s u : Pool)
    → IsValid s.header
    → All (λ e. e.0 ≤ s.header.lsn) s.log
    → s.header.lsn < s.next_lsn
    → PoolRun s u
    → (h : Header) × (replay u.log s.header ≡ (Rc.success, h))
      × (h.page_count ≡ u.header.page_count)
      × (h.allocated_pages ≡ u.header.allocated_pages)
      × (h.bitmap ≡ u.header.bitmap)
      × IsValid u.header
replay-PoolRun s u v old ahead run =
    let r : Reached s u = PoolRun-Reached s u v old ahead run in
    let (h, is, a) = r.recovers in (h, is, a.page_count, a.allocated_pages, a.bitmap, r.valid)
