-- ===== src/Sched/Switch.antt =====
-- ScheduleNext and the state changes of single threads: at most one thread runs, and the scheduling
-- list stays as it is.
use dragon_ware.Base.{ℕ, ◌≡◌, ◌≢◌, List, [], ◌∷◌, arith, ◌==◌, if◌then◌else◌, ◌&&◌}
use dragon_ware.Base.Store.{null}
use dragon_ware.Sched.{
  Thread, ThreadState, Sched, same_state, select_next_thread, switch_to, schedule_next,
  block_thread, wake_thread, swap_scheduler_thread_state,
}
use dragon_ware.Sched.Chain.{SameLinks, Chain-SameLinks}
use dragon_ware.Sched.Walk.{Lists}

-- Only the current thread may be in the state THREAD_RUNNING.
abbrev pub OneRuns : Sched → Type 0
OneRuns s = (x : ℕ) → (s.threads x).state ≡ ThreadState.running → x ≡ s.current_thread

-- SelectNextThread changes no thread's state, link or owner.
record Keeps (s s' : Sched) : Type 0 where
  states : (x : ℕ) → (s'.threads x).state ≡ (s.threads x).state
  links : (x : ℕ) → (s'.threads x).next ≡ (s.threads x).next
  list : s'.thread_list ≡ s.thread_list

select_next_thread-Keeps : (fuel : ℕ) (s : Sched) → Keeps s (select_next_thread fuel s).1
unfolding select_next_thread
select_next_thread-Keeps fuel s = record {
  states = λ x. ground arith;
  links = λ x. ground arith;
  list = ground arith;
}

select_next_thread_current :
    (fuel : ℕ) (s : Sched)
    → s.current_thread ≢ null
    → (select_next_thread fuel s).1.current_thread ≡ s.current_thread
unfolding select_next_thread
select_next_thread_current fuel s cn = ground arith

switch_to_states :
    (s : Sched) (prev next x : ℕ)
    → prev ≢ next
    → ((switch_to s prev next).threads x).state ≡ (
        if next == x
        then ThreadState.running
        else if prev == x
        then (if same_state (s.threads prev).state ThreadState.running
            then ThreadState.ready
            else (s.threads prev).state)
        else (s.threads x).state)
unfolding switch_to
switch_to_states s prev next x ne = ground arith

switch_to_current : (s : Sched) (prev next : ℕ) → (switch_to s prev next).current_thread ≡ next
unfolding switch_to
switch_to_current s prev next = ground arith

switch_to_list : (s : Sched) (prev next : ℕ) → (switch_to s prev next).thread_list ≡ s.thread_list
unfolding switch_to
switch_to_list s prev next = ground arith

switch_to_links :
    (s : Sched) (prev next x : ℕ) → ((switch_to s prev next).threads x).next ≡ (s.threads x).next
unfolding switch_to
switch_to_links s prev next x = ground arith

switch_to_resched :
    (s : Sched) (prev next : ℕ) → (switch_to s prev next).needs_resched ≡ s.needs_resched
unfolding switch_to
switch_to_resched s prev next = ground arith

-- `next` may be any thread: the state that ScheduleNext leaves.
abbrev cleared : ℕ → Sched → Sched
cleared fuel s = record ((select_next_thread fuel s).1) { needs_resched = 0 }

schedule_next-Keeps_links :
    (fuel : ℕ) (s : Sched)
    → ((x : ℕ) → ((schedule_next fuel s).threads x).next ≡ (s.threads x).next)
      × ((schedule_next fuel s).thread_list ≡ s.thread_list)
unfolding schedule_next
schedule_next-Keeps_links fuel s =
    let k = select_next_thread-Keeps fuel s in
    let next = (select_next_thread fuel s).0 in
    (
      λ x. ground (arith, k.links x, switch_to_links (cleared fuel s) s.current_thread next x),
      ground (arith, k.list, switch_to_list (cleared fuel s) s.current_thread next),
    )

SameLinks-all :
    (m m' : ℕ → Thread) (xs : List ℕ) → ((x : ℕ) → (m' x).next ≡ (m x).next) → SameLinks m m' xs
SameLinks-all m m' [] h = tt
SameLinks-all m m' (x ∷ xs) h = (h x, SameLinks-all m m' xs h)

-- ScheduleNext leaves the scheduling list as it is, thread by thread.
pub schedule_next-Lists :
    (fuel : ℕ) (s : Sched) (xs : List ℕ) → Lists s xs → Lists (schedule_next fuel s) xs
schedule_next-Lists fuel s xs l =
    let (links, list) = schedule_next-Keeps_links fuel s in
    record {
      chain = rw list (
          Chain-SameLinks s.threads (schedule_next fuel s).threads s.thread_list xs l.chain
            (SameLinks-all s.threads (schedule_next fuel s).threads xs links));
      distinct = l.distinct;
    }

-- With a current thread, if at most that one runs, then after ScheduleNext at most the new current thread runs.
pub schedule_next-OneRuns :
    (fuel : ℕ) (s : Sched) → s.current_thread ≢ null → OneRuns s → OneRuns (schedule_next fuel s)
unfolding schedule_next
schedule_next-OneRuns fuel s cn one x r =
    let k = select_next_thread-Keeps fuel s in
    let next = (select_next_thread fuel s).0 in
    ground (
      arith,
      k.states x,
      k.states s.current_thread,
      one x,
      select_next_thread_current fuel s cn,
      switch_to_states (cleared fuel s) s.current_thread next x,
      switch_to_current (cleared fuel s) s.current_thread next,
    )

-- WakeThread, BlockThread and SwapSchedulerThreadState keep it that at most the current thread runs.
pub wake_thread-OneRuns : (s : Sched) (t : ℕ) → OneRuns s → OneRuns (wake_thread s t)
unfolding wake_thread
wake_thread-OneRuns s t one x r = ground (arith, one x)

pub block_thread-OneRuns : (s : Sched) (t : ℕ) → OneRuns s → OneRuns (block_thread s t)
unfolding block_thread
block_thread-OneRuns s t one x r = ground (arith, one x)

pub swap_scheduler_thread_state-OneRuns :
    (s : Sched) (new : ℕ) → OneRuns s → OneRuns (swap_scheduler_thread_state s new)
unfolding swap_scheduler_thread_state
swap_scheduler_thread_state-OneRuns s new one x r = ground (arith, one x)

-- With a current thread, and where another thread is selected, ScheduleNext makes it the current one and sets it running, the
-- thread that ran before becomes ready again, every other thread keeps its state, and the request for
-- rescheduling is cleared.
pub schedule_next_switches :
    (fuel : ℕ) (s : Sched)
    → s.thread_list ≢ null
    → (select_next_thread fuel s).0 ≢ null
    → (select_next_thread fuel s).0 ≢ s.current_thread
    → let next = (select_next_thread fuel s).0 in
      let s' = schedule_next fuel s in
      (s'.current_thread ≡ next)
      × (s'.needs_resched ≡ 0)
      × ((x : ℕ)
          → (s'.threads x).state ≡ (
              if next == x
              then ThreadState.running
              else if s.current_thread == x && same_state (s.threads x).state ThreadState.running
              then ThreadState.ready
              else (s.threads x).state))
unfolding schedule_next
schedule_next_switches fuel s tn nn nc =
    let k = select_next_thread-Keeps fuel s in
    let next = (select_next_thread fuel s).0 in
    (
      ground (arith, switch_to_current (cleared fuel s) s.current_thread next),
      ground (arith, switch_to_resched (cleared fuel s) s.current_thread next),
      λ x. ground (
        arith,
        k.states x,
        k.states s.current_thread,
        switch_to_states (cleared fuel s) s.current_thread next x,
      ),
    )
