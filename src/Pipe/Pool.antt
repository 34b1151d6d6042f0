-- ===== src/Pipe/Pool.antt =====
-- `listenLoop` and `acceptWorker` of rcvr_namedpipe.go: a pool of workers that accept, and the loop
-- that waits for all of them to end.
use trace2receiver.Common.{
  ℕ, ◌+◌, ◌*◌, ◌-◌, ◌≤◌, ◌<◌, ◌≡◌, arith, eqb, eqb_iff, Bool, true, false, inl, inr, ◌⊎◌,
  Bool-cases, if◌then◌else◌,
}

-- The workers that still accept, the messages in the channel `acceptWorkerDoneCh`, the count of
-- those received, whether the loop waits for more, whether the listener is closed and whether the
-- context is cancelled.
pub record Pool : Type 0 where
  pub running : ℕ
  pub in_channel : ℕ
  pub nr_finished : ℕ
  pub waiting : Bool
  pub listener_closed : Bool
  pub cancelled : Bool

-- The start of listenLoop.
unfoldable pub new_pool : ℕ → Pool
new_pool size = record {
  running = size;
  in_channel = 0;
  nr_finished = 0;
  waiting = true;
  listener_closed = false;
  cancelled = false;
}

-- acceptWorker, where Accept fails with net.ErrClosed: it sends a message and ends.
unfoldable pub on_err_closed : Pool → Pool
on_err_closed p = record p { running = p.running - 1; in_channel = p.in_channel + 1 }

-- The `select` of listenLoop, where the context is cancelled.
unfoldable pub on_ctx_done : Pool → Pool
on_ctx_done p = record p { listener_closed = true }

-- The same, where a message is received: the loop ends with the last one.
unfoldable pub on_worker_done : ℕ → Pool → Pool
on_worker_done size p =
    let count = p.nr_finished + 1 in
    record p {
      in_channel = p.in_channel - 1;
      nr_finished = count;
      waiting = if eqb count size then false else p.waiting;
    }

-- Shutdown, for the pool.
unfoldable pub on_shutdown : Pool → Pool
on_shutdown p = record p { listener_closed = true; cancelled = true }

-- Of the pool of a given size. Accepting a connection, or failing to with another error than
-- net.ErrClosed, leaves the pool as it is.
pub data Step (size : ℕ) : Pool → Pool → Type 0 where
  err_closed : (p : Pool) → 0 < p.running → p.listener_closed ≡ true → Step size p (on_err_closed p)
  ctx_done : (p : Pool) → p.waiting ≡ true → p.cancelled ≡ true → Step size p (on_ctx_done p)
  worker_done :
      (p : Pool) → p.waiting ≡ true → 0 < p.in_channel → Step size p (on_worker_done size p)
  shut : (p : Pool) → Step size p (on_shutdown p)

pub data Reach (size : ℕ) : Pool → Type 0 where
  begin : Reach size (new_pool size)
  next : {p p' : Pool} → Reach size p → Step size p p' → Reach size p'

-- No message is lost, and the loop ends with the last one.
pub record IsCounted (size : ℕ) (p : Pool) : Type 0 where
  pub total : p.running + p.in_channel + p.nr_finished ≡ size
  pub ended : p.waiting ≡ false → p.nr_finished ≡ size
  pub unended : p.waiting ≡ true → p.nr_finished < size

Step-IsCounted : (size : ℕ) (p p' : Pool) → Step size p p' → IsCounted size p → IsCounted size p'
unfolding on_err_closed on_ctx_done on_worker_done on_shutdown
Step-IsCounted size p p' (err_closed _ runs is_closed) h = record {
  total = ground (arith, h.total);
  ended = h.ended;
  unended = h.unended;
}
Step-IsCounted size p p' (ctx_done _ waits cancelled) h = record {
  total = h.total;
  ended = h.ended;
  unended = h.unended;
}
Step-IsCounted size p p' (worker_done _ waits sent) h = record {
  total = ground (arith, h.total);
  ended = ground (arith, waits, h.ended, eqb_iff (p.nr_finished + 1) size);
  unended = ground (arith, waits, h.unended, eqb_iff (p.nr_finished + 1) size);
}
Step-IsCounted size p p' (shut _) h = record {
  total = h.total;
  ended = h.ended;
  unended = h.unended;
}

pub Reach-IsCounted : (size : ℕ) (p : Pool) → 0 < size → Reach size p → IsCounted size p
unfolding new_pool
Reach-IsCounted size p some_workers begin = record {
  total = omega arith;
  ended = ground arith;
  unended = λ waits. some_workers;
}
Reach-IsCounted size p some_workers (next {p = before} reached step) =
    Step-IsCounted size before p step (Reach-IsCounted size before some_workers reached)

busy : (p : Pool) → 0 < p.running + p.in_channel → (0 < p.running) ⊎ (0 < p.in_channel)
busy p h = ground (arith, h)

-- In every state that a pool of workers can come to, the channel, which has room for one message of
-- each worker, has room for the messages of those that still run, so that no worker waits to send;
-- and the loop waits for messages that have not been received, or it has ended and so has every
-- worker, with no message left.
pub Reach-pool :
    (size : ℕ) (p : Pool)
    → 0 < size
    → Reach size p
    → (p.running + p.in_channel ≤ size)
      × (((p.waiting ≡ true) × (p.nr_finished < size))
          ⊎ ((p.waiting ≡ false) × (p.running ≡ 0) × (p.in_channel ≡ 0)))
Reach-pool size p some_workers reached =
    let h = Reach-IsCounted size p some_workers reached in
    (
      omega (arith, h.total),
      elim (Bool-cases p.waiting) [
        | inl waits ↦ inl (waits, h.unended waits)
        | inr ended ↦
            inr
              (ended, omega (arith, h.total, h.ended ended), omega (arith, h.total, h.ended ended))
      ],
    )

-- Once the listener is closed, a loop that waits has a step to wait for: a worker ends, or a message
-- is received; and with it there is less to wait for.
pub Reach-Step :
    (size : ℕ) (p : Pool)
    → 0 < size
    → Reach size p
    → p.waiting ≡ true
    → p.listener_closed ≡ true
    → (p' : Pool) × Step size p p' × (2 * p'.running + p'.in_channel < 2 * p.running + p.in_channel)
unfolding on_err_closed on_worker_done
Reach-Step size p some_workers reached waits is_closed =
    let h = Reach-IsCounted size p some_workers reached in
    elim (busy p (ground (arith, h.total, h.unended waits))) [
      | inl runs ↦ (on_err_closed p, err_closed p runs is_closed, ground (arith, runs))
      | inr sent ↦ (on_worker_done size p, worker_done p waits sent, ground (arith, sent))
    ]
