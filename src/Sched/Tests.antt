-- ===== src/Sched/Tests.antt =====
-- Runs of the scheduler on three processes, and its theorems there.
use experiment.Base.{ℕ, ◌+◌, ◌≡◌, refl, true, false, none, some, [], ◌∷◌, arith}
use experiment.Sched.{
  Thread, Process, Sched, ThreadState, ready, running, blocked, sched, pick, first_runnable,
  find_process, find_in_processes, runnable, thread_wakeup,
}
use experiment.Sched.Rotation.{all_threads, rotation}
use experiment.Sched.Switch.{OneRuns}
use experiment.Sched.Choice.{Current, Enters, sched-Enters}
use experiment.Sched.Wake.{yields, sleeps, wakes, tick, run_calls, run_calls-OneRuns}

abbrev thread : (tid process : ℕ) → ThreadState → Thread
thread tid process state = record {
  tid = tid;
  process = process;
  state = state;
  kstack_top = 0x1000 + tid;
  saved_user_rsp = 0x2000 + tid;
  fpu_state = tid;
  sleep_until = 0;
  chan = 0;
  is_idle = false;
  ticks_remaining = 2;
}

-- Process 1 has the idle thread and thread 2, which runs; process 3 has a sleeper and a ready thread.
abbrev demo_with : ThreadState → Sched
demo_with last = record {
  processes =
      record {
        pid = 1;
        pml4 = 0x100;
        threads = record (thread 1 1 ready) { is_idle = true } ∷ thread 2 1 running ∷ [];
      }
      ∷ record {
        pid = 3;
        pml4 = 0x300;
        threads =
            record (thread 4 3 blocked) { sleep_until = 11; chan = 50 } ∷ thread 5 3 last ∷ [];
      }
      ∷ [];
  active_thread = 2;
  idle_thread = 1;
  ticks = 10;
  scheduler_ready = true;
  cr3 = 0x100;
  syscall_stack = 0x1002;
  user_rsp = 0x2222;
  fpu = 22;
}

abbrev demo : Sched
demo = demo_with ready

-- The same, with every other thread blocked.
abbrev quiet : Sched
quiet = demo_with blocked

demo-OneRuns : OneRuns demo
unfolding OneRuns all_threads
demo-OneRuns = ground arith

demo-Current : Current demo (thread 2 1 running) (record {
  pid = 1;
  pml4 = 0x100;
  threads = record (thread 1 1 ready) { is_idle = true } ∷ thread 2 1 running ∷ [];
})
unfolding find_in_processes find_process rotation all_threads experiment.Sched.threads_after
    experiment.Sched.threads_before
demo-Current = record { found = refl; home = refl; lives = (refl, (refl, tt)); alone = refl }

quiet-Current : Current quiet (thread 2 1 running) (record {
  pid = 1;
  pml4 = 0x100;
  threads = record (thread 1 1 ready) { is_idle = true } ∷ thread 2 1 running ∷ [];
})
unfolding find_in_processes find_process rotation all_threads experiment.Sched.threads_after
    experiment.Sched.threads_before
quiet-Current = record { found = refl; home = refl; lives = (refl, (refl, tt)); alone = refl }

demo_first : first_runnable (rotation 2 (all_threads demo.processes)) ≡ some (thread 5 3 ready)
unfolding first_runnable rotation all_threads experiment.Sched.threads_after
    experiment.Sched.threads_before
demo_first = refl

quiet_first : first_runnable (rotation 2 (all_threads quiet.processes)) ≡ none
unfolding first_runnable rotation all_threads experiment.Sched.threads_after
    experiment.Sched.threads_before
quiet_first = refl

quiet_idle :
    find_in_processes 1 quiet.processes ≡ some (record (thread 1 1 ready) { is_idle = true })
unfolding find_in_processes
quiet_idle = refl

demo_enters : (sched demo).cr3 ≡ 0x300
unfolding sched
demo_enters = refl

sched-Enters_example :
    (runnable (thread 5 3 ready) ≡ true)
    × Enters demo (thread 2 1 running) (thread 5 3 ready) (sched demo)
sched-Enters_example =
    sched-Enters demo (thread 2 1 running) (thread 5 3 ready) _ demo-Current demo_first

run_calls-OneRuns_example : OneRuns (run_calls (tick ∷ sleeps 50 ∷ wakes 50 ∷ yields ∷ []) demo)
run_calls-OneRuns_example =
    run_calls-OneRuns (tick ∷ sleeps 50 ∷ wakes 50 ∷ yields ∷ []) demo demo-OneRuns
