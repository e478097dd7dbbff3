-- ===== src/Async/Pool/Retries.antt =====
-- internal/async/worker.go: the attempts of the items on the channel and in the workers.
use openclaw_cortex.Base.{
  ℕ, ◌≤◌, ◌<◌, String, List, [], ◌∷◌, ◌++◌, ◌≡◌, ◌⊎◌, refl, subst, inl, inr, arith, All, All-append,
}
use openclaw_cortex.Async.Wal.{WorkItem, add_line, AppendIo, append_ok, append_entry}
use openclaw_cortex.Async.Queue.{
  Queue, CompactIo, Disk, try_send, compact, prepared, pending_entry, after_append, enqueue,
  complete, fail,
}
use openclaw_cortex.Async.Pool.{
  Pool, new_pool, Processed, succeeded, Surroundings, settle, started, State, Step, take, finish,
  submit, Reach, here, next,
}

channel-try_send :
    (item : WorkItem) (q : Queue)
    → ((try_send item q).channel ≡ q.channel) ⊎ ((try_send item q).channel ≡ q.channel ++ item ∷ [])
unfolding try_send
channel-try_send item q = ground arith

channel-after_append :
    (d : Disk) (io : CompactIo) (item : WorkItem) (q : Queue)
    → ((after_append d io item q).0.channel ≡ q.channel)
      ⊎ ((after_append d io item q).0.channel ≡ q.channel ++ item ∷ [])
unfolding after_append compact
channel-after_append d io item q = ground (arith, channel-try_send item q)

-- `Enqueue` sends the item once or not at all.
channel-enqueue :
    (d : Disk) (io : AppendIo) (cio : CompactIo) (fresh : String) (now now' : ℕ) (item : WorkItem)
    (q : Queue)
    → ((enqueue d io cio fresh now now' item q).0.channel ≡ q.channel)
      ⊎ ((enqueue d io cio fresh now now' item q).0.channel
          ≡ q.channel ++ prepared fresh now item ∷ [])
unfolding enqueue append_entry
channel-enqueue d append_ok cio fresh now now' item q =
    channel-after_append d cio (prepared fresh now item)
      (record q { wal = add_line d.size (pending_entry (prepared fresh now item) now') q.wal })
channel-enqueue d _ cio fresh now now' item q = inl refl

channel-settle :
    (d : Disk) (p : Pool) (env : Surroundings) (r : Processed) (item : WorkItem) (q : Queue)
    → ((settle d p env r item q).0.channel ≡ q.channel)
      ⊎ (((settle d p env r item q).0.channel ≡ q.channel ++ prepared env.fresh env.now item ∷ [])
          × (item.attempts < p.max_retries))
unfolding settle complete fail
channel-settle d p env succeeded item q = inl refl
channel-settle d p env r item q =
    ground (arith, channel-enqueue d env.append_io env.compact_io env.fresh env.now env.now' item q)

All-split :
    (P : WorkItem → Type 0) (xs ys : List WorkItem) (x : WorkItem)
    → All P (xs ++ x ∷ ys)
    → P x × All P (xs ++ ys)
All-split P [] ys x a = a
All-split P (y ∷ xs) ys x a = let (b, rest) = All-split P xs ys x a.1 in (b, (a.0, rest))

module _ (d : Disk) (p : Pool) where
  abbrev Startable : WorkItem → Type 0
  Startable item = item.attempts < p.max_retries

  abbrev Started : WorkItem → Type 0
  Started item = (1 ≤ item.attempts) × (item.attempts ≤ p.max_retries)

  pub record Bounded (s : State) : Type 0 where
    pub waiting : All Startable s.queue.channel
    pub in_flight : All Started s.running

  sent_or_not :
      (item : WorkItem) (xs ys : List WorkItem)
      → Startable item
      → All Startable xs
      → (ys ≡ xs) ⊎ (ys ≡ xs ++ item ∷ [])
      → All Startable ys
  sent_or_not item xs ys h a (inl e) = rw e a
  sent_or_not item xs ys h a (inr e) = rw e (All-append Startable xs (item ∷ []) a (h, tt))

  Started-started : (item : WorkItem) → Startable item → Started (started item)
  unfolding started
  Started-started item h = omega arith

  Bounded-step : {s t : State} → Step d p s t → 0 < p.max_retries → Bounded s → Bounded t
  Bounded-step {s} (take item rest e) pos b =
      let a : All Startable (item ∷ rest) = subst (All Startable) e b.waiting in
      record { waiting = a.1; in_flight = (Started-started item a.0, b.in_flight) }
  Bounded-step {s} (finish env r before after item e) pos b =
      let (one, others) = All-split Started before after item (subst (All Started) e b.in_flight) in
      record {
        waiting = elim (channel-settle d p env r item s.queue) [
          | inl same ↦ rw same b.waiting
          | inr (sent, few) ↦
              sent_or_not (prepared env.fresh env.now item) s.queue.channel _ few b.waiting
                (inr sent)
        ];
        in_flight = others;
      }
  Bounded-step {s} (submit io cio fresh now now' item zero_attempts) pos b = record {
    waiting =
        sent_or_not (prepared fresh now item) s.queue.channel _ (omega arith) b.waiting
          (channel-enqueue d io cio fresh now now' item s.queue);
    in_flight = b.in_flight;
  }

  -- In every interleaving of workers and clients an item is on an attempt from 1 to maxRetries
  -- while it is processed, and has attempts left while it waits, if this held at the start and new
  -- items have no attempts.
  pub retries-Bounded : {s t : State} → Reach d p s t → 0 < p.max_retries → Bounded s → Bounded t
  retries-Bounded here pos b = b
  retries-Bounded (next r st) pos b = Bounded-step st pos (retries-Bounded r pos b)

-- The pool that `NewPool` makes retries at least once.
new_pool_positive : (m delay : ℕ) → 0 < (new_pool m delay).max_retries
unfolding new_pool
new_pool_positive m delay = ground arith
