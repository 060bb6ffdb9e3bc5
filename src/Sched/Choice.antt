-- ===== src/Sched/Choice.antt =====
-- Which thread a call of sched() enters, and what it loads into the CPU.
use experiment.Base.{◌≡◌, ◌≢◌, refl, true, false, none, some, List, [], ◌∷◌, arith, ◌==◌}
use experiment.Sched.{
  Thread, Process, Sched, runnable, first_runnable, or_else, find_in_processes, find_process,
  switch_to_thread, enter, sched_from, sched,
}
use experiment.Sched.Rotation.{all_threads, rotation, has_tid, LivesIn, pick-rotation}
use experiment.Sched.Switch.{find_in_processes-tid}

-- The scheduler knows the current thread: it is in the list of its process, in no other list, and
-- no other thread has its tid.
pub record Current (s : Sched) (curr : Thread) (p : Process) : Type 0 where
  pub found : find_in_processes s.active_thread s.processes ≡ some curr
  pub home : find_process curr.process s.processes ≡ some p
  pub lives : LivesIn curr.tid curr.process s.processes
  pub alone : has_tid curr.tid (rotation curr.tid (all_threads s.processes)) ≡ false

first_runnable-has :
    (ts : List Thread) (n : Thread) → first_runnable ts ≡ some n → has_tid n.tid ts ≡ true
unfolding first_runnable
first_runnable-has [] n e = cc
first_runnable-has (t ∷ ts) n e = ground (arith, first_runnable-has ts n)

first_runnable-runnable :
    (ts : List Thread) (n : Thread) → first_runnable ts ≡ some n → runnable n ≡ true
unfolding first_runnable
first_runnable-runnable [] n e = cc
first_runnable-runnable (t ∷ ts) n e = ground (arith, first_runnable-runnable ts n)

sched-enter :
    (s : Sched) (curr : Thread) (p : Process)
    → Current s curr p
    → sched s
      ≡ enter curr
          (or_else
            (first_runnable (rotation curr.tid (all_threads s.processes)))
            (find_in_processes s.idle_thread s.processes))
          s
unfolding sched sched_from
sched-enter s curr p c =
    rw (c.found, sched, c.home, pick-rotation curr.tid curr.process p s.processes c.home c.lives)

-- The state after a call of sched() that enters `n`.
pub record Enters (s : Sched) (curr n : Thread) (t : Sched) : Type 0 where
  pub active : t.active_thread ≡ n.tid
  pub rsp : t.user_rsp ≡ n.saved_user_rsp
  pub fpu : t.fpu ≡ n.fpu_state
  pub stack : t.syscall_stack ≡ n.kstack_top

enter-Enters :
    (s : Sched) (curr n : Thread)
    → (n.tid == curr.tid) ≡ false
    → Enters s curr n (enter curr (some n) s)
unfolding enter switch_to_thread
enter-Enters s curr n e = rw e (record { active = refl; rsp = refl; fpu = refl; stack = refl })

enter-same : (s : Sched) (curr n : Thread) → (n.tid == curr.tid) ≡ true → enter curr (some n) s ≡ s
unfolding enter
enter-same s curr n e = rw e

-- If the scheduler knows the current thread and some other thread is runnable, sched() enters the
-- first such thread in cyclic order behind the current one, which is ready and not the idle
-- thread, and loads that thread's saved registers and stack.
pub sched-Enters :
    (s : Sched) (curr n : Thread) (p : Process)
    → Current s curr p
    → first_runnable (rotation curr.tid (all_threads s.processes)) ≡ some n
    → (runnable n ≡ true) × Enters s curr n (sched s)
sched-Enters s curr n p c first = (
  first_runnable-runnable _ n first,
  rw (sched-enter s curr p c, first) (enter-Enters s curr n (other)),
)
  where
    other : (n.tid == curr.tid) ≡ false
    other =
        ground
          (arith, first_runnable-has (rotation curr.tid (all_threads s.processes)) n first, c.alone)

-- If the scheduler knows the current thread and no other thread is runnable, sched() enters the
-- idle thread, even while the current thread could go on; from the idle thread itself it changes
-- nothing.
pub sched-idle :
    (s : Sched) (curr i : Thread) (p : Process)
    → Current s curr p
    → first_runnable (rotation curr.tid (all_threads s.processes)) ≡ none
    → find_in_processes s.idle_thread s.processes ≡ some i
    → (s.idle_thread ≢ curr.tid → Enters s curr i (sched s))
      × (s.idle_thread ≡ curr.tid → sched s ≡ s)
sched-idle s curr i p c nobody idle =
    let e = find_in_processes-tid s.idle_thread s.processes i idle in
    (
      λ ne. rw (sched-enter s curr p c, nobody, idle) (enter-Enters s curr i (ground arith)),
      λ same. rw (sched-enter s curr p c, nobody, idle) (enter-same s curr i (ground arith)),
    )
