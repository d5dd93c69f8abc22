-- ===== src/Sched.antt =====
-- The scheduler and the thread states, sys/sched/schedule.c and sys/task/task.c.
-- `Thread` pointers are addresses of a store, `next` links the scheduling list, and walks along it
-- take fuel: `Walk` shows that the length of the list is enough. What the processor does on a
-- switch (SwapProcess, the I/O port maps, SelectKernelStack, SwapThreadStack) is recorded as events.
pub mod Chain
pub mod Walk
pub mod Select
pub mod Round
pub mod Switch
pub mod Create
mod Tests
use dragon_ware.Base.{
  ℕ, zero, suc, ◌+◌, ◌≡◌, Bool, true, false, List, [], ◌∷◌, not, ◌&&◌, ltb, ◌==◌, if◌then◌else◌,
}
use dragon_ware.Base.Store.{null, update}
use dragon_ware.Status.{Status}

-- `ThreadState`, `ThreadPrivilegeLevel` and `ThreadPriorityLevel` (sys/task/task.h).
pub data ThreadState : Type 0 where
  terminated ready running blocked : ThreadState

pub data Privilege : Type 0 where
  kernel user : Privilege

-- `other` stands for the values of the `short` that have no name.
pub data ThreadPriority : Type 0 where
  no_priority idle low medium high highest other : ThreadPriority

-- `waiting_on` is left out: nothing in the kernel reads or writes it.
pub record Thread : Type 0 where
  pub esp : ℕ
  pub kernel_stack : ℕ
  pub trapframe : ℕ
  pub stack_top : ℕ
  pub quantum : ℕ
  pub state : ThreadState
  pub pl : Privilege
  pub priority : ThreadPriority
  pub id : ℕ
  pub owner : ℕ
  pub next : ℕ

-- What a switch asks of the processor, in the order of the calls.
pub data Event : Type 0 where
  swap_process disable_io_ports enable_io_ports select_kernel_stack : ℕ → Event
  swap_thread_stack : ℕ → ℕ → Event

-- The static variables of schedule.c, the threads, and the events so far, the latest first.
pub record Sched : Type 0 where
  pub threads : ℕ → Thread
  pub thread_list : ℕ
  pub current_thread : ℕ
  pub needs_resched : ℕ
  pub events : List Event

abbrev pub same_state : ThreadState → ThreadState → Bool
same_state ThreadState.terminated ThreadState.terminated = true
same_state ThreadState.ready ThreadState.ready = true
same_state ThreadState.running ThreadState.running = true
same_state ThreadState.blocked ThreadState.blocked = true
same_state _ _ = false

abbrev pub is_idle : ThreadPriority → Bool
is_idle ThreadPriority.idle = true
is_idle _ = false

-- `CPUTimeFromThreadPriority`; PRIORITY_IDLE has no case of its own.
unfoldable pub cpu_time_from_thread_priority : ThreadPriority → ℕ
cpu_time_from_thread_priority ThreadPriority.no_priority = 0
cpu_time_from_thread_priority ThreadPriority.low = 1
cpu_time_from_thread_priority ThreadPriority.medium = 12
cpu_time_from_thread_priority ThreadPriority.high = 20
cpu_time_from_thread_priority ThreadPriority.highest = 33
cpu_time_from_thread_priority _ = 60

abbrev pub write_thread : Sched → ℕ → Thread → Sched
write_thread s p t = record s { threads = update s.threads p t }

abbrev pub set_state : Sched → ℕ → ThreadState → Sched
set_state s p st = write_thread s p (record (s.threads p) { state = st })

-- `t->quantum = CPUTimeFromThreadPriority(t->priority)`.
abbrev pub refill : Sched → ℕ → Sched
refill s p =
    write_thread s p
      (record (s.threads p) { quantum = cpu_time_from_thread_priority (s.threads p).priority })

-- The test of the selection loop: not BLOCKED, not TERMINATED and not RUNNING.
abbrev pub is_runnable : Thread → Bool
is_runnable t =
    not (same_state t.state ThreadState.blocked)
    && not (same_state t.state ThreadState.terminated)
    && not (same_state t.state ThreadState.running)

-- `(t->next) ? t->next : thread_list`.
abbrev pub successor : Sched → ℕ → ℕ
successor s t = if (s.threads t).next == null then s.thread_list else (s.threads t).next

-- The `do … while (t != start)` of SelectNextThread: the thread that it stops at, or `null` where the
-- loop (or the fuel) ends, and the variable `idle`, here `spare`.
unfoldable pub select_loop : ℕ → Sched → ℕ → ℕ → ℕ → ℕ × ℕ
select_loop zero s start t spare = (null, spare)
select_loop (suc fuel) s start t spare =
    let runnable = is_runnable (s.threads t) in
    let lazy = is_idle (s.threads t).priority in
    let spare' = if runnable && lazy && spare == null then t else spare in
    let rest = select_loop fuel s start (successor s t) spare' in
    if runnable && not lazy
    then (t, spare')
    else if successor s t == start
    then (null, spare')
    else rest

unfoldable pub select_next_thread : ℕ → Sched → ℕ × Sched
select_next_thread fuel s =
    let s' = record s {
      current_thread = if s.current_thread == null then s.thread_list else s.current_thread;
    } in
    let start = successor s' s'.current_thread in
    let (t, spare) = select_loop fuel s' start start null in
    if s.thread_list == null
    then (null, s)
    else if not (t == null)
    then (t, refill s' t)
    else if not (spare == null)
    then (spare, refill s' spare)
    else (null, s')

-- `ForEachScheduledThread` of InitSchedulerState.
unfoldable pub init_threads : ℕ → ℕ → Sched → Sched
init_threads zero p s = s
init_threads (suc fuel) p s =
    let rest = init_threads fuel (s.threads p).next (set_state (refill s p) p ThreadState.ready) in
    if p == null then s else rest

unfoldable pub init_scheduler_state : ℕ → Sched → Status × Sched
init_scheduler_state fuel s =
    let s' = set_state (init_threads fuel s.thread_list s) s.current_thread ThreadState.running in
    let t = s'.threads s'.current_thread in
    if s.thread_list == null
    then (Status.retry, s)
    else (Status.ok, write_thread s' s'.current_thread (record t { quantum = t.quantum + 1 }))

abbrev pub emit : Event → Sched → Sched
emit e s = record s { events = e ∷ s.events }

-- The part of ScheduleNext that runs where `prev != next`.
unfoldable pub switch_to : Sched → ℕ → ℕ → Sched
switch_to s prev next =
    let s₁ =
      if same_state (s.threads prev).state ThreadState.running
      then set_state s prev ThreadState.ready
      else s in
    let s₂ = refill (set_state s₁ next ThreadState.running) next in
    let s₃ = record s₂ { current_thread = next } in
    let prev_owner = (s₃.threads prev).owner in
    let next_owner = (s₃.threads next).owner in
    let should_switch_process =
      not (not (prev == null) && not (prev_owner == null) && prev_owner == next_owner) in
    let s₄ =
      if not (next_owner == null) && should_switch_process
      then emit (Event.enable_io_ports next_owner) (
          let swapped = emit (Event.swap_process next_owner) s₃ in
          if prev_owner == null then swapped else emit (Event.disable_io_ports prev_owner) swapped)
      else s₃ in
    let kernel_stack = (s₄.threads next).kernel_stack in
    let s₅ = if ltb 0 kernel_stack then emit (Event.select_kernel_stack kernel_stack) s₄ else s₄ in
    emit (Event.swap_thread_stack prev next) s₅

unfoldable pub schedule_next : ℕ → Sched → Sched
schedule_next fuel s =
    let prev = s.current_thread in
    let (next, selected) = select_next_thread fuel s in
    let s' = record selected { needs_resched = 0 } in
    if s.thread_list == null
    then s
    else if next == null
    then record s' { current_thread = prev }
    else if prev == next
    then s'
    else switch_to s' prev next

-- `while (iter->next) iter = iter->next`.
unfoldable pub last_of : ℕ → Sched → ℕ → ℕ
last_of zero s iter = iter
last_of (suc fuel) s iter =
    let rest = last_of fuel s (s.threads iter).next in
    if (s.threads iter).next == null then iter else rest

abbrev pub set_next : Sched → ℕ → ℕ → Sched
set_next s p q = write_thread s p (record (s.threads p) { next = q })

unfoldable pub add_thread_to_scheduler : ℕ → Sched → ℕ → Sched
add_thread_to_scheduler fuel s thread =
    let s' = set_next (set_state s thread ThreadState.ready) thread null in
    if s.thread_list == null
    then record s' { thread_list = thread; current_thread = thread }
    else set_next s' (last_of fuel s' s'.thread_list) thread

-- The loop of RemoveThreadFromScheduler.
unfoldable pub remove_loop : ℕ → Sched → ℕ → ℕ → Status × Sched
remove_loop zero s t iter = (Status.not_found, s)
remove_loop (suc fuel) s t iter =
    let rest = remove_loop fuel s t (s.threads iter).next in
    if (s.threads iter).next == null
    then (Status.not_found, s)
    else if (s.threads iter).next == t
    then (Status.ok, set_next s iter (s.threads t).next)
    else rest

unfoldable pub remove_thread_from_scheduler : ℕ → Sched → ℕ → Status × Sched
remove_thread_from_scheduler fuel s t =
    if s.thread_list == null
    then (Status.not_found, s)
    else if t == s.thread_list
    then (Status.ok, record s { thread_list = (s.threads s.thread_list).next })
    else remove_loop fuel s t s.thread_list

unfoldable pub get_thread_by_id : ℕ → Sched → ℕ → ℕ → ℕ
get_thread_by_id zero s id walk = null
get_thread_by_id (suc fuel) s id walk =
    let rest = get_thread_by_id fuel s id (s.threads walk).next in
    if walk == null then null else if (s.threads walk).id == id then walk else rest

-- BlockThread, WakeThread, DeleteThread, DropQuantumOfCurrentThread and SwapSchedulerThreadState.
unfoldable pub block_thread : Sched → ℕ → Sched
block_thread s t = record (set_state s t ThreadState.blocked) { needs_resched = 1 }

unfoldable pub wake_thread : Sched → ℕ → Sched
wake_thread s t =
    if same_state (s.threads t).state ThreadState.running
    then s
    else record (set_state s t ThreadState.ready) { needs_resched = 1 }

unfoldable pub delete_thread : ℕ → Sched → ℕ → Sched
delete_thread fuel s t =
    let s' = set_state s t ThreadState.terminated in
    if s'.current_thread == t then s' else (remove_thread_from_scheduler fuel s' t).1

unfoldable pub drop_quantum_of_current_thread : Sched → Sched
drop_quantum_of_current_thread s =
    write_thread s s.current_thread (record (s.threads s.current_thread) { quantum = 0 })

unfoldable pub swap_scheduler_thread_state : Sched → ℕ → Sched
swap_scheduler_thread_state s new =
    let current = s.current_thread in
    let s₁ =
      if same_state (s.threads current).state ThreadState.running && not (new == current)
      then set_state s current ThreadState.ready
      else s in
    let s₂ =
      if (s₁.threads new).owner == (s₁.threads current).owner
      then s₁
      else emit (Event.swap_process (s₁.threads new).owner) s₁ in
    let s₃ = set_state (refill s₂ new) new ThreadState.running in
    emit (Event.swap_thread_stack current new) (record s₃ { current_thread = new })
