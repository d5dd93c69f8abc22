-- ===== src/Sched/Tests.antt =====
-- Three threads: the first one runs, the second is blocked, the third is an idle thread.
use dragon_ware.Base.{
  ◌≤◌, ◌<◌, ◌-◌, ◌⊎◌, some, ℕ, ◌≡◌, refl, List, [], ◌∷◌, arith, ◌==◌, if◌then◌else◌,
}
use dragon_ware.Base.Words.{add32}
use dragon_ware.Sched.Create.{Code, allocate_user_thread}
use dragon_ware.Sched.Create.Frame.{EntersUser, Resumes, allocate_user_thread_lem}
use dragon_ware.Base.Store.{null}
use dragon_ware.Status.{Status}
use dragon_ware.Sched.{
  Thread, ThreadState, Privilege, ThreadPriority, Sched, refill, select_loop, select_next_thread,
  schedule_next, add_thread_to_scheduler, last_of, get_thread_by_id, init_threads,
  init_scheduler_state,
}
use dragon_ware.Sched.Walk.{Lists}
use dragon_ware.Sched.Select.{choice}
use dragon_ware.Sched.Round.{turn_order, select_next_thread_lem}
use dragon_ware.Sched.Switch.{OneRuns, schedule_next-OneRuns}

abbrev thread_of : ThreadState → ThreadPriority → ℕ → ℕ → Thread
thread_of state priority id next = record {
  esp = 0;
  kernel_stack = 0xE0002000;
  trapframe = 0;
  stack_top = 0;
  quantum = 0;
  state = state;
  pl = Privilege.user;
  priority = priority;
  id = id;
  owner = id;
  next = next;
}

abbrev memory : ℕ → Thread
memory p =
    if p == 10
    then thread_of ThreadState.running ThreadPriority.medium 1 20
    else if p == 20
    then thread_of ThreadState.blocked ThreadPriority.high 2 30
    else if p == 30
    then thread_of ThreadState.ready ThreadPriority.idle 3 0
    else if p == 40
    then thread_of ThreadState.ready ThreadPriority.low 4 0
    else thread_of ThreadState.terminated ThreadPriority.no_priority 0 0

abbrev three : Sched
three = record {
  threads = memory;
  thread_list = 10;
  current_thread = 10;
  needs_resched = 1;
  events = [];
}

abbrev listing : List ℕ
listing = 10 ∷ 20 ∷ 30 ∷ []

three-Lists : Lists three listing
three-Lists = omega arith

-- The blocked thread is passed over, and the idle one taken.
takes_idle : (select_next_thread 3 three).0 ≡ 30
unfolding select_next_thread select_loop
takes_idle = refl

-- A ready thread behind it is preferred to the idle one.
takes_busy : (select_next_thread 4 (add_thread_to_scheduler 3 three 40)).0 ≡ 40
unfolding select_next_thread select_loop add_thread_to_scheduler last_of
takes_busy = refl

found : get_thread_by_id 4 three 3 10 ≡ 30
unfolding get_thread_by_id
found = refl

started : (init_scheduler_state 4 three).0 ≡ Status.ok
unfolding init_scheduler_state init_threads
started = refl

select_next_thread_lem_example : select_next_thread 3 three ≡ (
  choice memory (turn_order [] 10 (20 ∷ 30 ∷ [])),
  if choice memory (turn_order [] 10 (20 ∷ 30 ∷ [])) == null
      then three
      else refill three (choice memory (turn_order [] 10 (20 ∷ 30 ∷ []))),
)
select_next_thread_lem_example =
    select_next_thread_lem 3 three [] (20 ∷ 30 ∷ []) three-Lists (omega arith) (omega arith)
      (omega arith)

three-OneRuns : OneRuns three
three-OneRuns x h = ground arith

schedule_next-OneRuns_example : OneRuns (schedule_next 3 three)
schedule_next-OneRuns_example = schedule_next-OneRuns 3 three (omega arith) three-OneRuns

abbrev code : Code
code = record { exit_proc = 0xC0100100; trampoline = 0xC0100200 }

allocate_user_thread_lem_example :
    (new : Thread) × (words' : ℕ → ℕ) × (allocate_user_thread code 0x100000 0xBFFFF000 0xE0002000 0
        40 7
        (λ q. 0)
      ≡ some (new, (words', add32 7 1)))
    × ((new.state ≡ ThreadState.ready)
        × (new.pl ≡ Privilege.user)
        × (new.priority ≡ ThreadPriority.medium)
        × (new.id ≡ 7))
    × EntersUser words' new.trapframe 0x100000 0xBFFFF000 0
    × Resumes words' new.esp 0xC0100200
    × ((q : ℕ) → (0xE0002000 ≤ q) ⊎ (q < 0xE0002000 - 44) → words' q ≡ 0)
allocate_user_thread_lem_example =
    allocate_user_thread_lem code 0x100000 0xBFFFF000 0xE0002000 0 40 7 (λ q. 0) (omega arith)
      (omega arith)
