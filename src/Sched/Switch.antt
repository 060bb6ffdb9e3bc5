-- ===== src/Sched/Switch.antt =====
-- What a call of sched() changes: which thread runs, and with which registers.
use experiment.Base.{
  ℕ, ◌≡◌, refl, ap, sym, ◌∙◌, true, false, Option, none, some, List, [], ◌∷◌, ◌++◌, arith, All,
  Bool-cases, inl, inr, ◌==◌,
}
use experiment.Sched.{
  is_running, Thread, Process, Sched, find_thread, find_in_processes, find_process, map_threads,
  map_processes, at_tid, left_thread, entered_thread, switch_to_thread, enter, sched_from, sched,
}
use experiment.Sched.Rotation.{all_threads}

map_threads-append :
    (f : Thread → Thread) (xs ys : List Thread)
    → map_threads f (xs ++ ys) ≡ map_threads f xs ++ map_threads f ys
unfolding map_threads
map_threads-append f [] ys = refl
map_threads-append f (t ∷ xs) ys = ap (λ r. f t ∷ r) (map_threads-append f xs ys)

pub all_threads-map :
    (f : Thread → Thread) (ps : List Process)
    → all_threads (map_processes f ps) ≡ map_threads f (all_threads ps)
unfolding map_processes all_threads
all_threads-map f [] = refl
all_threads-map f (p ∷ ps) =
    ap (λ r. map_threads f p.threads ++ r) (all_threads-map f ps)
    ∙ sym (map_threads-append f p.threads (all_threads ps))

-- Every running thread is the active one.
abbrev pub OnlyRunning : ℕ → List Thread → Type 0
OnlyRunning a = All (λ t. is_running t.state ≡ true → t.tid ≡ a)

-- The invariant of the scheduler between its calls.
unfoldable pub OneRuns : Sched → Type 0
OneRuns s = OnlyRunning s.active_thread (all_threads s.processes)

pub All-map_threads :
    (P Q : Thread → Type 0) (f : Thread → Thread) (ts : List Thread)
    → ((t : Thread) → P t → Q (f t))
    → All P ts
    → All Q (map_threads f ts)
unfolding map_threads
All-map_threads P Q f [] keep h = tt
All-map_threads P Q f (t ∷ ts) keep h = (keep t h.0, All-map_threads P Q f ts keep h.1)

abbrev NotRunning : Thread → Type 0
NotRunning t = is_running t.state ≡ false

left_thread-stops :
    (s : Sched) (a b : ℕ) (t : Thread)
    → b ≡ a
    → (is_running t.state ≡ true → t.tid ≡ a)
    → NotRunning (at_tid b (left_thread s) t)
left_thread-stops s a b t e h = elim (Bool-cases (is_running t.state)) [
  | inl runs ↦ ground (arith, h runs)
  | inr stands ↦ ground arith
]

switch_to_thread-OneRuns :
    (curr next : Thread) (s : Sched)
    → curr.tid ≡ s.active_thread
    → OneRuns s
    → OneRuns (switch_to_thread curr next s)
unfolding OneRuns switch_to_thread
switch_to_thread-OneRuns curr next s e h =
    rw
      (
        all_threads-map (at_tid next.tid entered_thread)
            (map_processes (at_tid curr.tid (left_thread s)) s.processes),
        all_threads-map (at_tid curr.tid (left_thread s)) s.processes,
      )
      (All-map_threads NotRunning (λ t. is_running t.state ≡ true → t.tid ≡ next.tid)
        (at_tid next.tid entered_thread)
        (map_threads (at_tid curr.tid (left_thread s)) (all_threads s.processes))
        (λ t stands runs. ground arith)
        (All-map_threads (λ t. is_running t.state ≡ true → t.tid ≡ s.active_thread) NotRunning
          (at_tid curr.tid (left_thread s)) (all_threads s.processes)
          (λ t k. left_thread-stops s s.active_thread curr.tid t e k) h))

enter-OneRuns :
    (curr : Thread) (next : Option Thread) (s : Sched)
    → curr.tid ≡ s.active_thread
    → OneRuns s
    → OneRuns (enter curr next s)
unfolding enter
enter-OneRuns curr none s e h = h
enter-OneRuns curr (some next) s e h = elim (Bool-cases (next.tid == curr.tid)) [
  | inl same ↦ rw same h
  | inr other ↦ rw other (switch_to_thread-OneRuns curr next s e h)
]

find_thread-tid :
    (tid : ℕ) (ts : List Thread) (t : Thread) → find_thread tid ts ≡ some t → t.tid ≡ tid
unfolding find_thread
find_thread-tid tid [] t f = cc
find_thread-tid tid (u ∷ ts) t f = ground (arith, find_thread-tid tid ts t)

pub find_in_processes-tid :
    (tid : ℕ) (ps : List Process) (t : Thread) → find_in_processes tid ps ≡ some t → t.tid ≡ tid
unfolding find_in_processes
find_in_processes-tid tid [] t f = cc
find_in_processes-tid tid (p ∷ ps) t f =
    ground (arith, find_thread-tid tid p.threads t, find_in_processes-tid tid ps t)

sched_from-OneRuns :
    (curr : Thread) (p : Option Process) (s : Sched)
    → curr.tid ≡ s.active_thread
    → OneRuns s
    → OneRuns (sched_from curr p s)
unfolding sched_from
sched_from-OneRuns curr none s e h = h
sched_from-OneRuns curr (some p) s e h = enter-OneRuns curr _ s e h

-- After a call of sched(), as before it, no thread but the active one is in the state of running.
pub sched-OneRuns : (s : Sched) → OneRuns s → OneRuns (sched s)
unfolding sched OneRuns
sched-OneRuns s h = go (find_in_processes s.active_thread s.processes) refl
  where
    go : (o : Option Thread) → find_in_processes s.active_thread s.processes ≡ o → OneRuns (sched s)
    go none e = rw (e, sched) h
    go (some curr) e =
        rw (e, sched)
          (sched_from-OneRuns curr (find_process curr.process s.processes) s
            (find_in_processes-tid s.active_thread s.processes curr e) h)
