-- ===== src/Sched/Create.antt =====
-- New threads, sys/task/task.c: AllocateThread and AllocateUserThread. `t` and `stack_bottom` are the
-- results of kmalloc, `words` the memory of stacks by address. The addresses of the code that a
-- thread starts and ends in are parameters.
pub mod Frame
use dragon_ware.Base.{
  ℕ, ◌+◌, ◌-◌, ◌≤◌, ◌<◌, ◌≡◌, Bool, List, [], ◌∷◌, Option, none, some, ◌&&◌, leb, ltb, ◌==◌,
  if◌then◌else◌,
}
use dragon_ware.Base.Words.{add32}
use dragon_ware.Base.Store.{null, update}
use dragon_ware.Sched.{Thread, ThreadState, Privilege, ThreadPriority}

-- Where `_ThreadExitProc` and `_ThreadBootstrapTrampoline` are.
pub record Code : Type 0 where
  pub exit_proc : ℕ
  pub trampoline : ℕ

-- DEFAULT_THREAD_STACK, SEL_CODE_USER, SEL_DATA_USER and DEFAULT_EFLAGS.
abbrev pub default_thread_stack : ℕ
default_thread_stack = 1024

abbrev pub sel_code_user : ℕ
sel_code_user = 0x1B

abbrev pub sel_data_user : ℕ
sel_data_user = 0x23

abbrev pub default_eflags : ℕ
default_eflags = 0x202

-- `*(--esp) = value` for each value in turn; the stack pointer behind them.
unfoldable pub push_all : List ℕ → ℕ → (ℕ → ℕ) → ℕ × (ℕ → ℕ)
push_all [] esp words = (esp, words)
push_all (v ∷ values) esp words = push_all values (esp - 4) (update words (esp - 4) v)

-- The memory once the stack from `bottom` on is zeroed.
abbrev pub zeroed : ℕ → (ℕ → ℕ) → (ℕ → ℕ)
zeroed bottom words q = if leb bottom q && ltb q (bottom + default_thread_stack) then 0 else words q

-- A kernel thread, its stack, and the next number; `none` without memory for the thread. The fields
-- `kernel_stack` and `trapframe` are not written: they stay what the memory, `old`, held.
unfoldable pub allocate_thread :
    Code → ℕ → ℕ → ℕ → Thread → ℕ → ℕ → (ℕ → ℕ) → Option (Thread × ((ℕ → ℕ) × ℕ))
allocate_thread code entry owner t old stack_bottom next_id words =
    let top = stack_bottom + default_thread_stack in
    let (esp, words') =
      push_all (code.exit_proc ∷ entry ∷ 0 ∷ 0 ∷ 0 ∷ 0 ∷ []) top (zeroed stack_bottom words) in
    if t == null
    then none
    else some (
      record {
        esp = esp;
        kernel_stack = old.kernel_stack;
        trapframe = old.trapframe;
        stack_top = esp;
        quantum = 6;
        state = ThreadState.ready;
        pl = Privilege.kernel;
        priority = ThreadPriority.low;
        id = next_id;
        owner = owner;
        next = null;
      },
      (words', add32 next_id 1),
    )

-- What AllocateUserThread pushes, up to the trap frame and behind it.
abbrev pub trap_frame : ℕ → ℕ → ℕ → List ℕ
trap_frame entry useresp extra_data =
    extra_data ∷ sel_data_user ∷ useresp ∷ default_eflags ∷ sel_code_user ∷ entry ∷ []

abbrev pub volatile_state : Code → List ℕ
volatile_state code = code.trampoline ∷ 0 ∷ 0 ∷ 0 ∷ 0 ∷ []

unfoldable pub allocate_user_thread :
    Code → ℕ → ℕ → ℕ → ℕ → ℕ → ℕ → (ℕ → ℕ) → Option (Thread × ((ℕ → ℕ) × ℕ))
allocate_user_thread code entry useresp kernel_stack extra_data t next_id words =
    let (trapframe, framed) = push_all (trap_frame entry useresp extra_data) kernel_stack words in
    let (esp, words') = push_all (volatile_state code) trapframe framed in
    if t == null
    then none
    else some (
      record {
        esp = esp;
        kernel_stack = kernel_stack;
        trapframe = trapframe;
        stack_top = esp;
        quantum = 12;
        state = ThreadState.ready;
        pl = Privilege.user;
        priority = ThreadPriority.medium;
        id = next_id;
        owner = null;
        next = null;
      },
      (words', add32 next_id 1),
    )
