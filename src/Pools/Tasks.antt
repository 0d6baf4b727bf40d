-- ===== src/Pools/Tasks.antt =====
-- `Thread_pool::enqueue` of `include/Thread_pool/Thread_pool_define.h`: the counter of the pending
-- tasks and the notifications, under any interleaving of the callers with the worker threads, whose
-- loop (`work`) is only declared: that it takes tasks from the queue and runs them is all that is
-- used of it.
use net_way.Prelude.{
  ℕ, ◌+◌, ◌-◌, ◌/◌, ◌%◌, ◌^◌, ◌<◌, ◌≡◌, refl, Bool, ltb, ◌==◌, if◌then◌else◌, arith,
}

-- The members, and where the tasks are: counted by `enqueue` but not in the queue yet, in the queue,
-- or with a worker. `finished` counts the notifications of `cv_finished`.
pub record ThreadPool : Type 0 where
  pub threads : ℕ
  pub pending_tasks : ℕ
  pub counted : ℕ
  pub queued : ℕ
  pub running : ℕ
  pub finished : ℕ

abbrev pub fresh_pool : ℕ → ThreadPool
fresh_pool n = record {
  threads = n;
  pending_tasks = 0;
  counted = 0;
  queued = 0;
  running = 0;
  finished = 0;
}

-- The three atomic parts of `enqueue`: the count, the insertion, and the choice of how many workers
-- are notified (all of them, or one).
unfoldable pub count_task : ThreadPool → ThreadPool
count_task p = record p { pending_tasks = (p.pending_tasks + 1) % 2 ^ 64; counted = p.counted + 1 }

unfoldable pub queue_task : ThreadPool → ThreadPool
queue_task p = record p { counted = p.counted - 1; queued = p.queued + 1 }

unfoldable pub notifies_all : ThreadPool → Bool
notifies_all p = ltb (p.threads / 2) p.pending_tasks

unfoldable pub take_task : ThreadPool → ThreadPool
take_task p = record p { queued = p.queued - 1; running = p.running + 1 }

-- The end of the wrapper around a task: `fetch_sub`, and the notification if the old value was 1.
unfoldable pub finish_task : ThreadPool → ThreadPool
finish_task p = record p {
  pending_tasks = (p.pending_tasks + (2 ^ 64 - 1)) % 2 ^ 64;
  running = p.running - 1;
  finished = if p.pending_tasks == 1 then p.finished + 1 else p.finished;
}

abbrev pub tasks : ThreadPool → ℕ
tasks p = p.counted + p.queued + p.running

-- A `size_t` counts more tasks than memory holds.
pub data PoolStep (p q : ThreadPool) : Type 0 where
  counts : tasks p + 1 < 2 ^ 64 → q ≡ count_task p → PoolStep p q
  queues : 0 < p.counted → q ≡ queue_task p → PoolStep p q
  takes : 0 < p.queued → q ≡ take_task p → PoolStep p q
  finishes : 0 < p.running → q ≡ finish_task p → PoolStep p q

pub data PoolReach (p : ThreadPool) : ThreadPool → Type 0 where
  here : PoolReach p p
  next : {q r : ThreadPool} → PoolReach p q → PoolStep q r → PoolReach p r

-- The counter counts the tasks, without a wrap-around.
pub record IsTallied (p : ThreadPool) : Type 0 where
  pub pending : p.pending_tasks ≡ tasks p
  pub fits : tasks p < 2 ^ 64

Step-IsTallied : {p q : ThreadPool} → PoolStep p q → IsTallied p → IsTallied q
unfolding count_task queue_task take_task finish_task
Step-IsTallied (counts h e) c = ground arith
Step-IsTallied (queues h e) c = ground arith
Step-IsTallied (takes h e) c = ground arith
Step-IsTallied (finishes h e) c = ground arith

Reach-IsTallied : {n : ℕ} {p : ThreadPool} → PoolReach (fresh_pool n) p → IsTallied p
Reach-IsTallied here = record { pending = refl; fits = omega arith }
Reach-IsTallied (next r st) = Step-IsTallied st (Reach-IsTallied r)

-- In every interleaving `pending_tasks` is the number of tasks that are counted, queued or running,
-- so that it never wraps around below zero; and the end of a task notifies `cv_finished` exactly when
-- no task is left.
pub pool_tallies :
    (n : ℕ) (p : ThreadPool)
    → PoolReach (fresh_pool n) p
    → (p.pending_tasks ≡ tasks p)
      × (0 < p.running
          → (tasks (finish_task p) + 1 ≡ tasks p)
            × ((finish_task p).finished
                ≡ (if tasks (finish_task p) == 0 then p.finished + 1 else p.finished)))
unfolding finish_task
pool_tallies n p r =
    let c = Reach-IsTallied r in (c.pending, λ h. (omega arith, ground (arith, c.pending)))
