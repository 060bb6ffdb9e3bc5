-- ===== src/Sched/Wake.antt =====
-- Sleeping, waking and the timer tick; and the invariant over every sequence of these calls.
use experiment.Base.{
  ℕ, ◌+◌, ◌%◌, ◌^◌, ◌≡◌, ◌≢◌, ◌∙◌, ◌⊎◌, ◌<◌, Bool, true, false, ◌&&◌, List, [], ◌∷◌, arith,
  Bool-cases, inl, inr, ◌==◌, if◌then◌else◌, ==_iff,
}
use experiment.Sched.{
  Thread, Process, Sched, blocked, map_processes, map_threads, at_tid, is_running, is_blocked,
  block_current, thread_sleep, thread_resumed, wake_on, thread_wakeup, wake_due, spend_tick,
  scheduler_tick, schedule,
}
use experiment.Sched.Rotation.{all_threads}
use experiment.Sched.Switch.{all_threads-map, All-map_threads, OnlyRunning, OneRuns, sched-OneRuns}

-- A change that starts no thread keeps the invariant.
map-OneRuns :
    (f : Thread → Thread) (a : ℕ) (ps : List Process)
    → ((t : Thread) → is_running (f t).state ≡ true → is_running t.state ≡ true)
    → ((t : Thread) → (f t).tid ≡ t.tid)
    → OnlyRunning a (all_threads ps)
    → OnlyRunning a (all_threads (map_processes f ps))
map-OneRuns f a ps starts same h = rw (all_threads-map f ps) (
    All-map_threads (λ t. is_running t.state ≡ true → t.tid ≡ a)
      (λ t. is_running t.state ≡ true → t.tid ≡ a) f (all_threads ps)
      (λ t k r. same t ∙ k (starts t r)) h)

wake_due-stands :
    (now : ℕ) (t : Thread) → is_running (wake_due now t).state ≡ true → is_running t.state ≡ true
unfolding wake_due
wake_due-stands now t = ground arith

wake_due-tid : (now : ℕ) (t : Thread) → (wake_due now t).tid ≡ t.tid
unfolding wake_due
wake_due-tid now t = ground arith

wake_on-stands :
    (chan : ℕ) (t : Thread) → is_running (wake_on chan t).state ≡ true → is_running t.state ≡ true
unfolding wake_on
wake_on-stands chan t = ground arith

wake_on-tid : (chan : ℕ) (t : Thread) → (wake_on chan t).tid ≡ t.tid
unfolding wake_on
wake_on-tid chan t = ground arith

-- The calls that change the scheduler's state.
pub data Call : Type 0 where
  yields : Call
  sleeps : (chan : ℕ) → Call
  resumed : (tid : ℕ) → Call
  wakes : (chan : ℕ) → Call
  tick : Call

pub run_call : Call → Sched → Sched
run_call yields s = schedule s
run_call (sleeps chan) s = thread_sleep chan s
run_call (resumed tid) s = thread_resumed tid s
run_call (wakes chan) s = thread_wakeup chan s
run_call tick s = (scheduler_tick s).1

pub run_calls : List Call → Sched → Sched
unfolding run_call
run_calls [] s = s
run_calls (c ∷ cs) s = run_calls cs (run_call c s)

block_current-OneRuns : (chan : ℕ) (s : Sched) → OneRuns s → OneRuns (block_current chan s)
unfolding block_current OneRuns
block_current-OneRuns chan s h =
    map-OneRuns (at_tid s.active_thread (λ t. record t { chan = chan; state = blocked }))
      s.active_thread s.processes (λ t r. ground arith) (λ t. ground arith) h

thread_sleep-OneRuns : (chan : ℕ) (s : Sched) → OneRuns s → OneRuns (thread_sleep chan s)
unfolding thread_sleep
thread_sleep-OneRuns chan s h = elim (Bool-cases (s.active_thread == 0)) [
  | inl null ↦ rw null h
  | inr here ↦ rw here (sched-OneRuns (block_current chan s) (block_current-OneRuns chan s h))
]

scheduler_tick-OneRuns : (s : Sched) → OneRuns s → OneRuns (scheduler_tick s).1
unfolding scheduler_tick OneRuns
scheduler_tick-OneRuns s h = elim (Bool-cases s.scheduler_ready) [
  | inr early ↦ rw early h
  | inl up ↦
      let now = (s.ticks + 1) % 2 ^ 64 in
      rw up (
        map-OneRuns (at_tid s.active_thread spend_tick) s.active_thread
          (map_processes (wake_due now) s.processes) (λ t r. ground arith) (λ t. ground arith)
          (map-OneRuns (wake_due now) s.active_thread s.processes (λ t r. wake_due-stands now t r)
            (λ t. wake_due-tid now t) h))
]

run_call-OneRuns : (c : Call) (s : Sched) → OneRuns s → OneRuns (run_call c s)
unfolding run_call schedule thread_resumed thread_wakeup OneRuns
run_call-OneRuns yields s h = sched-OneRuns s h
run_call-OneRuns (sleeps chan) s h = thread_sleep-OneRuns chan s h
run_call-OneRuns (resumed tid) s h =
    map-OneRuns (at_tid tid (λ t. record t { chan = 0 })) s.active_thread s.processes
      (λ t r. ground arith) (λ t. ground arith) h
run_call-OneRuns (wakes chan) s h =
    map-OneRuns (wake_on chan) s.active_thread s.processes (λ t r. wake_on-stands chan t r)
      (λ t. wake_on-tid chan t) h
run_call-OneRuns tick s h = scheduler_tick-OneRuns s h

-- If each thread in the state of running is the active one, then this holds again after every
-- sequence of yields, sleeps, wakeups and timer ticks.
pub run_calls-OneRuns : (cs : List Call) (s : Sched) → OneRuns s → OneRuns (run_calls cs s)
unfolding run_calls
run_calls-OneRuns [] s h = h
run_calls-OneRuns (c ∷ cs) s h = run_calls-OneRuns cs (run_call c s) (run_call-OneRuns c s h)

-- A thread whose time to wake up has not come, or that does not sleep for a time.
abbrev pub MaySleep : (now : ℕ) → Thread → Type 0
MaySleep now t = ((t.state ≢ blocked) ⊎ (t.sleep_until ≡ 0)) ⊎ (now < t.sleep_until)

abbrev waits_on : ℕ → Thread → Bool
waits_on chan t = is_blocked t.state && t.chan == chan

wake_on-awake : (chan : ℕ) (t : Thread) → waits_on chan (wake_on chan t) ≡ false
unfolding wake_on
wake_on-awake chan t = ground arith

wake_on-other :
    (chan other : ℕ) (t : Thread)
    → other ≢ chan
    → waits_on other (wake_on chan t) ≡ waits_on other t
unfolding wake_on
wake_on-other chan other t h = ground arith

-- The threads that are blocked on a channel, by tid.
pub waiters : ℕ → List Thread → List ℕ
waiters chan [] = []
waiters chan (t ∷ ts) = let rest = waiters chan ts in if waits_on chan t then t.tid ∷ rest else rest

waiters-wake_on :
    (chan other : ℕ) (ts : List Thread)
    → waiters other (map_threads (wake_on chan) ts)
      ≡ (if other == chan then [] else waiters other ts)
unfolding waiters map_threads
waiters-wake_on chan other [] = ground arith
waiters-wake_on chan other (t ∷ ts) = elim (Bool-cases (other == chan)) [
  | inl same ↦
      let e : other ≡ chan = (==_iff other chan).0 same in
      ground (arith, waiters-wake_on chan other ts, wake_on-awake chan t)
  | inr ne ↦
      ground (arith, waiters-wake_on chan other ts, wake_on-other chan other t, wake_on-tid chan t)
]

-- A wakeup leaves no thread blocked on its channel, and on every other channel the same threads.
pub waiters-thread_wakeup :
    (chan other : ℕ) (s : Sched)
    → waiters other (all_threads (thread_wakeup chan s).processes)
      ≡ (if other == chan then [] else waiters other (all_threads s.processes))
unfolding thread_wakeup
waiters-thread_wakeup chan other s =
    rw (all_threads-map (wake_on chan) s.processes)
      (waiters-wake_on chan other (all_threads s.processes))
