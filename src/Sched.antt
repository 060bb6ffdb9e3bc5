-- ===== src/Sched.antt =====
-- The scheduler of kernel/task/process.c. The process list and each process's thread list are lists
-- in their order; a pointer to a thread is its `tid`, a pointer to a process its `pid`, 0 for null.

pub mod Choice
pub mod Rotation
pub mod Switch
pub mod Wake
mod Tests
use experiment.Base.{
  ℕ, zero, suc, ◌+◌, ◌-◌, ◌%◌, ◌^◌, Bool, true, false, ◌&&◌, ◌||◌, not, Option, none, some, List,
  [], ◌∷◌, ltb, leb, ◌==◌, if◌then◌else◌,
}

pub data ThreadState : Type 0 where
  ready running blocked terminated : ThreadState

abbrev pub is_ready : ThreadState → Bool
is_ready ready = true
is_ready _ = false

abbrev pub is_running : ThreadState → Bool
is_running running = true
is_running _ = false

abbrev pub is_blocked : ThreadState → Bool
is_blocked blocked = true
is_blocked _ = false

-- TIME_SLICE_MS * TIMER_FREQUENCY_HZ / 1000
abbrev pub time_slice_ticks : ℕ
time_slice_ticks = 2

-- The fields of `thread_t` that the scheduler reads or writes. The FPU state is a value that is only
-- moved.
pub record Thread : Type 0 where
  pub tid : ℕ
  pub process : ℕ
  pub state : ThreadState
  pub kstack_top : ℕ
  pub saved_user_rsp : ℕ
  pub fpu_state : ℕ
  pub sleep_until : ℕ
  pub chan : ℕ
  pub is_idle : Bool
  pub ticks_remaining : ℕ

pub record Process : Type 0 where
  pub pid : ℕ
  pub pml4 : ℕ
  pub threads : List Thread

-- The CPU's own registers and the file's variables.
pub record Sched : Type 0 where
  pub processes : List Process
  pub active_thread : ℕ
  pub idle_thread : ℕ
  pub ticks : ℕ
  pub scheduler_ready : Bool
  pub cr3 : ℕ
  pub syscall_stack : ℕ
  pub user_rsp : ℕ
  pub fpu : ℕ

-- What sched() looks for.
abbrev pub runnable : Thread → Bool
runnable t = is_ready t.state && not t.is_idle

pub first_runnable : List Thread → Option Thread
first_runnable [] = none
first_runnable (t ∷ ts) = if runnable t then some t else first_runnable ts

abbrev pub or_else {ℓ} : {A : Type ℓ} → Option A → Option A → Option A
or_else none b = b
or_else (some a) b = some a

pub first_in_processes : List Process → Option Thread
unfolding first_runnable
first_in_processes [] = none
first_in_processes (p ∷ ps) = or_else (first_runnable p.threads) (first_in_processes ps)

-- The list nodes behind the thread and before it, and the same for a process.
pub threads_after : ℕ → List Thread → List Thread
threads_after tid [] = []
threads_after tid (t ∷ ts) = if t.tid == tid then ts else threads_after tid ts

pub threads_before : ℕ → List Thread → List Thread
threads_before tid [] = []
threads_before tid (t ∷ ts) = if t.tid == tid then [] else t ∷ threads_before tid ts

pub processes_after : ℕ → List Process → List Process
processes_after pid [] = []
processes_after pid (p ∷ ps) = if p.pid == pid then ps else processes_after pid ps

pub processes_before : ℕ → List Process → List Process
processes_before pid [] = []
processes_before pid (p ∷ ps) = if p.pid == pid then [] else p ∷ processes_before pid ps

-- The object behind a pointer.
pub find_thread : ℕ → List Thread → Option Thread
find_thread tid [] = none
find_thread tid (t ∷ ts) = if t.tid == tid then some t else find_thread tid ts

pub find_in_processes : ℕ → List Process → Option Thread
unfolding find_thread
find_in_processes tid [] = none
find_in_processes tid (p ∷ ps) = or_else (find_thread tid p.threads) (find_in_processes tid ps)

pub find_process : ℕ → List Process → Option Process
find_process pid [] = none
find_process pid (p ∷ ps) = if p.pid == pid then some p else find_process pid ps

-- The four searches of sched(), in their order.
pub pick : (tid : ℕ) → Process → List Process → Option Thread
unfolding first_runnable first_in_processes threads_after threads_before processes_after
    processes_before
pick tid p ps = or_else (first_runnable (threads_after tid p.threads)) (
    or_else (first_in_processes (processes_after p.pid ps)) (
      or_else (first_in_processes (processes_before p.pid ps))
        (first_runnable (threads_before tid p.threads))))

-- A change to every thread, and to the thread behind a pointer.
pub map_threads : (Thread → Thread) → List Thread → List Thread
map_threads f [] = []
map_threads f (t ∷ ts) = f t ∷ map_threads f ts

pub map_processes : (Thread → Thread) → List Process → List Process
unfolding map_threads
map_processes f [] = []
map_processes f (p ∷ ps) = record p { threads = map_threads f p.threads } ∷ map_processes f ps

abbrev pub at_tid : ℕ → (Thread → Thread) → Thread → Thread
at_tid tid f t = if t.tid == tid then f t else t

pub page_table : ℕ → List Process → ℕ
unfolding find_process
page_table pid ps = elim (find_process pid ps) [ none ↦ 0 | some p ↦ p.pml4 ]

-- What the switch writes into the thread it leaves and into the one it enters.
abbrev pub left_thread : Sched → Thread → Thread
left_thread s t = record t {
  saved_user_rsp = s.user_rsp;
  fpu_state = s.fpu;
  state = if is_running t.state then ready else t.state;
}

abbrev pub entered_thread : Thread → Thread
entered_thread t = record t { state = running; ticks_remaining = time_slice_ticks }

-- The part of sched() behind `found` for another thread than the current one.
pub switch_to_thread : (curr next : Thread) → Sched → Sched
unfolding map_processes page_table
switch_to_thread curr next s =
    let pml4 = page_table next.process s.processes in
    record s {
      processes =
          map_processes (at_tid next.tid entered_thread)
            (map_processes (at_tid curr.tid (left_thread s)) s.processes);
      active_thread = next.tid;
      cr3 = if curr.process == next.process then s.cr3 else if pml4 == 0 then s.cr3 else pml4;
      syscall_stack = next.kstack_top;
      user_rsp = next.saved_user_rsp;
      fpu = next.fpu_state;
    }

-- `none` is a null `next_thread`.
pub enter : (curr : Thread) → Option Thread → Sched → Sched
unfolding switch_to_thread
enter curr none s = s
enter curr (some next) s = if next.tid == curr.tid then s else switch_to_thread curr next s

pub sched_from : (curr : Thread) → Option Process → Sched → Sched
unfolding enter pick find_in_processes
sched_from curr none s = s
sched_from curr (some p) s =
    enter curr (or_else (pick curr.tid p s.processes) (find_in_processes s.idle_thread s.processes))
      s

pub sched : Sched → Sched
unfolding sched_from find_process find_in_processes
sched s = elim (find_in_processes s.active_thread s.processes) [
  | none ↦ s
  | some curr ↦ sched_from curr (find_process curr.process s.processes) s
]

-- schedule(), which yield() calls: the interrupt flag and the lock are taken and given back.
pub schedule : Sched → Sched
unfolding sched
schedule s = sched s

-- thread_sleep up to the switch away, and what it does once the thread runs again.
pub block_current : (chan : ℕ) → Sched → Sched
unfolding map_processes
block_current chan s = record s {
  processes =
      map_processes (at_tid s.active_thread (λ t. record t { chan = chan; state = blocked }))
        s.processes;
}

pub thread_sleep : (chan : ℕ) → Sched → Sched
unfolding sched block_current
thread_sleep chan s = if s.active_thread == 0 then s else sched (block_current chan s)

pub thread_resumed : (tid : ℕ) → Sched → Sched
unfolding map_processes
thread_resumed tid s = record s {
  processes = map_processes (at_tid tid (λ t. record t { chan = 0 })) s.processes;
}

pub wake_on : (chan : ℕ) → Thread → Thread
wake_on chan t =
    if is_blocked t.state && t.chan == chan then record t { state = ready; chan = 0 } else t

pub thread_wakeup : (chan : ℕ) → Sched → Sched
unfolding map_processes wake_on
thread_wakeup chan s = record s { processes = map_processes (wake_on chan) s.processes }

-- The sleepers whose time has come.
abbrev pub is_due : ℕ → Thread → Bool
is_due now t = is_blocked t.state && not (t.sleep_until == 0) && leb t.sleep_until now

pub wake_due : ℕ → Thread → Thread
wake_due now t = if is_due now t then record t { state = ready; sleep_until = 0 } else t

pub any_due : ℕ → List Thread → Bool
any_due now [] = false
any_due now (t ∷ ts) = is_due now t || any_due now ts

pub any_due_in : ℕ → List Process → Bool
unfolding any_due
any_due_in now [] = false
any_due_in now (p ∷ ps) = any_due now p.threads || any_due_in now ps

abbrev pub spend_tick : Thread → Thread
spend_tick t =
    if is_running t.state && not t.is_idle
    then record t { ticks_remaining = t.ticks_remaining - 1 }
    else t

-- Whether the current thread, after its tick was taken, is to be replaced.
abbrev pub slice_over : Option Thread → Bool
slice_over none = false
slice_over (some t) = if t.is_idle then true else is_running t.state && t.ticks_remaining - 1 == 0

pub scheduler_tick : Sched → Bool × Sched
unfolding map_processes wake_due any_due_in find_in_processes
scheduler_tick s =
    let now = (s.ticks + 1) % 2 ^ 64 in
    let woken = map_processes (wake_due now) s.processes in
    if s.scheduler_ready
    then (
      any_due_in now s.processes || slice_over (find_in_processes s.active_thread woken),
      record s { ticks = now; processes = map_processes (at_tid s.active_thread spend_tick) woken },
    )
    else (false, s)
