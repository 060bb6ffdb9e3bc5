-- ===== src/Sched/Rotation.antt =====
-- The four searches of sched() are one search of the threads in cyclic order, from behind the
-- current one.
use experiment.Base.{
  ℕ, ◌≡◌, refl, ap, sym, ◌∙◌, Bool, true, false, ◌||◌, Option, none, some, List, [], ◌∷◌, ◌++◌,
  arith, All, Bool-cases, inl, inr, ◌==◌, append_assoc,
}
use experiment.Sched.{
  Thread, Process, first_runnable, or_else, first_in_processes, threads_after, threads_before,
  processes_after, processes_before, find_process, pick,
}

-- The threads of all processes, in list order.
unfoldable pub all_threads : List Process → List Thread
all_threads [] = []
all_threads (p ∷ ps) = p.threads ++ all_threads ps

-- The other threads in cyclic order from behind a thread.
unfoldable pub rotation : ℕ → List Thread → List Thread
rotation tid ts = threads_after tid ts ++ threads_before tid ts

abbrev pub has_tid : ℕ → List Thread → Bool
has_tid tid [] = false
has_tid tid (t ∷ ts) = (t.tid == tid) || has_tid tid ts

-- The thread stands in the list of the process `pid`, and of no other.
abbrev pub LivesIn : ℕ → ℕ → List Process → Type 0
LivesIn tid pid = All (λ q. has_tid tid q.threads ≡ (q.pid == pid))

first_runnable-append :
    (xs ys : List Thread)
    → first_runnable (xs ++ ys) ≡ or_else (first_runnable xs) (first_runnable ys)
unfolding first_runnable
first_runnable-append [] ys = refl
first_runnable-append (t ∷ xs) ys = ground (arith, first_runnable-append xs ys)

first_in_processes-all :
    (ps : List Process) → first_in_processes ps ≡ first_runnable (all_threads ps)
unfolding first_in_processes all_threads
first_in_processes-all [] = refl
first_in_processes-all (p ∷ ps) =
    ap (or_else (first_runnable p.threads)) (first_in_processes-all ps)
    ∙ sym (first_runnable-append p.threads (all_threads ps))

threads_after-here :
    (tid : ℕ) (ts rest : List Thread)
    → has_tid tid ts ≡ true
    → (threads_after tid (ts ++ rest) ≡ threads_after tid ts ++ rest)
      × (threads_before tid (ts ++ rest) ≡ threads_before tid ts)
unfolding threads_after threads_before
threads_after-here tid [] rest h = cc
threads_after-here tid (t ∷ ts) rest h = elim (Bool-cases (t.tid == tid)) [
  | inl e ↦ rw e (refl, refl)
  | inr ne ↦
      let ih = threads_after-here tid ts rest (ground arith) in rw ne (ih.0, ap (λ r. t ∷ r) ih.1)
]

threads_after-not_here :
    (tid : ℕ) (ts rest : List Thread)
    → has_tid tid ts ≡ false
    → (threads_after tid (ts ++ rest) ≡ threads_after tid rest)
      × (threads_before tid (ts ++ rest) ≡ ts ++ threads_before tid rest)
unfolding threads_after threads_before
threads_after-not_here tid [] rest h = (refl, refl)
threads_after-not_here tid (t ∷ ts) rest h =
    let ih = threads_after-not_here tid ts rest (ground arith) in
    let ne : (t.tid == tid) ≡ false = ground arith in rw ne (ih.0, ap (λ r. t ∷ r) ih.1)

-- Where the thread's process cuts the process list, the thread cuts the list of all threads.
rotation_parts :
    (tid pid : ℕ) (p : Process) (ps : List Process)
    → find_process pid ps ≡ some p
    → LivesIn tid pid ps
    → (threads_after tid (all_threads ps)
        ≡ threads_after tid p.threads ++ all_threads (processes_after pid ps))
      × (threads_before tid (all_threads ps)
          ≡ all_threads (processes_before pid ps) ++ threads_before tid p.threads)
unfolding find_process all_threads processes_after processes_before
rotation_parts tid pid p [] f home = cc
rotation_parts tid pid p (q ∷ ps) f home = elim (Bool-cases (q.pid == pid)) [
  | inl e ↦
      let same : q ≡ p = ground arith in
      let cut = threads_after-here tid q.threads (all_threads ps) (home.0 ∙ e) in rw (e, ← same) cut
  | inr ne ↦
      let ih = rotation_parts tid pid p ps (ground arith) home.1 in
      let cut = threads_after-not_here tid q.threads (all_threads ps) (home.0 ∙ ne) in
      rw ne (
        cut.0 ∙ ih.0,
        cut.1
            ∙ ap (λ r. q.threads ++ r) ih.1
            ∙ sym (
                append_assoc q.threads (all_threads (processes_before pid ps))
                  (threads_before tid p.threads)),
      )
]

or_else_assoc : (a b c : Option Thread) → or_else (or_else a b) c ≡ or_else a (or_else b c)
or_else_assoc none b c = refl
or_else_assoc (some a) b c = refl

find_process-pid :
    (pid : ℕ) (p : Process) (ps : List Process) → find_process pid ps ≡ some p → p.pid ≡ pid
unfolding find_process
find_process-pid pid p [] f = cc
find_process-pid pid p (q ∷ ps) f = ground (arith, find_process-pid pid p ps)

-- For a thread that stands in the list of its process and in no other, the search order of sched()
-- is the cyclic order of all threads: behind it first, then from the start up to it.
pub pick-rotation :
    (tid pid : ℕ) (p : Process) (ps : List Process)
    → find_process pid ps ≡ some p
    → LivesIn tid pid ps
    → pick tid p ps ≡ first_runnable (rotation tid (all_threads ps))
unfolding pick rotation
pick-rotation tid pid p ps f home =
    let parts = rotation_parts tid pid p ps f home in
    let a = threads_after tid p.threads in
    let b = all_threads (processes_after pid ps) in
    let c = all_threads (processes_before pid ps) in
    let d = threads_before tid p.threads in
    rw
      (
        find_process-pid pid p ps f,
        parts.0,
        parts.1,
        first_in_processes-all (processes_after pid ps),
        first_in_processes-all (processes_before pid ps),
        first_runnable-append (a ++ b) (c ++ d),
        first_runnable-append a b,
        first_runnable-append c d,
      )
      (sym (
        or_else_assoc (first_runnable a) (first_runnable b)
          (or_else (first_runnable c) (first_runnable d))))
