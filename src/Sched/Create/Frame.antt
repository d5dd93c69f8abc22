-- ===== src/Sched/Create/Frame.antt =====
-- What the stack of a new thread holds.
use dragon_ware.Base.{
  ℕ, zero, suc, ◌+◌, ◌*◌, ◌-◌, ◌≤◌, ◌<◌, ◌≡◌, refl, ap, ◌∙◌, ◌≢◌, ◌⊎◌, inl, inr, false, List, [],
  ◌∷◌, some, arith, ◌==◌, length, get_or,
}
use dragon_ware.Base.Words.{add32}
use dragon_ware.Base.Store.{null, update, update_self, update_ne}
use dragon_ware.Sched.{Thread, ThreadState, Privilege, ThreadPriority}
use dragon_ware.Sched.Create.{
  Code, push_all, trap_frame, volatile_state, allocate_user_thread, sel_code_user, sel_data_user,
  default_eflags,
}

-- After `n` pushes from `top` on the pointer is `4 * n` lower, the words pushed lie below `top` in their
-- order, and no other word has changed.
push_all_lem :
    (values : List ℕ) (top : ℕ) (words : ℕ → ℕ)
    → 4 * length values ≤ top
    → ((push_all values top words).0 ≡ top - 4 * length values)
      × ((i : ℕ)
          → i < length values
          → (push_all values top words).1 (top - 4 * (i + 1)) ≡ get_or values i 0)
      × ((q : ℕ)
          → (top ≤ q) ⊎ (q < top - 4 * length values)
          → (push_all values top words).1 q ≡ words q)
unfolding push_all
push_all_lem [] top words h = (omega arith, λ i l. absurd (omega arith), λ q l. refl)
push_all_lem (v ∷ values) top words h =
    let (esp, pushed, others) =
      push_all_lem values (top - 4) (update words (top - 4) v) (omega arith) in
    (
      omega (arith, esp),
      at v (push_all values (top - 4) (update words (top - 4) v)).1 pushed
          (others (top - 4) (inl (omega arith)) ∙ update_self words (top - 4) v),
      λ q l. others q (outside q l) ∙ update_ne words (top - 4) v q (not_here q l),
    )
  where
    at :
        (v : ℕ)
        → (f : ℕ → ℕ)
        → ((i : ℕ) → i < length values → f (top - 4 - 4 * (i + 1)) ≡ get_or values i 0)
        → f (top - 4) ≡ v
        → (i : ℕ) → i < suc (length values)
        → f (top - 4 * (i + 1)) ≡ get_or (v ∷ values) i 0
    at v f pushed first zero l = ap f (omega arith) ∙ first
    at v f pushed first (suc i) l = ap f (omega arith) ∙ pushed i (omega arith)

    outside :
        (q : ℕ)
        → (top ≤ q) ⊎ (q < top - 4 * suc (length values))
        → (top - 4 ≤ q) ⊎ (q < top - 4 - 4 * length values)
    outside q (inl l) = inl (omega arith)
    outside q (inr l) = inr (omega arith)

    not_here : (q : ℕ) → (top ≤ q) ⊎ (q < top - 4 * suc (length values)) → q ≢ top - 4
    not_here q (inl l) = omega arith
    not_here q (inr l) = omega arith

-- The frame that `iret` returns through to user code, from the trap frame's address up.
pub record EntersUser (words : ℕ → ℕ) (frame entry useresp extra_data : ℕ) : Type 0 where
  pub eip : words frame ≡ entry
  pub cs : words (frame + 4) ≡ sel_code_user
  pub eflags : words (frame + 8) ≡ default_eflags
  pub esp : words (frame + 12) ≡ useresp
  pub ss : words (frame + 16) ≡ sel_data_user
  pub extra : words (frame + 20) ≡ extra_data

-- What SwapThreadStack pops for a thread that runs for the first time, and where it returns to.
pub record Resumes (words : ℕ → ℕ) (esp target : ℕ) : Type 0 where
  pub edi : words esp ≡ 0
  pub esi : words (esp + 4) ≡ 0
  pub ebx : words (esp + 8) ≡ 0
  pub ebp : words (esp + 12) ≡ 0
  pub return_to : words (esp + 16) ≡ target

-- AllocateUserThread with memory for the thread, on a kernel stack of at least 44 bytes: the new thread
-- is ready, of user privilege and medium priority; its first switch returns to the trampoline, and its
-- trap frame enters the user's code with the user's stack and selectors; no word outside the 44 bytes
-- below the stack's top is written.
pub allocate_user_thread_lem :
    (code : Code) (entry useresp kernel_stack extra_data t next_id : ℕ) (words : ℕ → ℕ)
    → t ≢ null
    → 44 ≤ kernel_stack
    → (new : Thread) × (words' : ℕ → ℕ) × (allocate_user_thread code entry useresp kernel_stack
          extra_data t next_id words
        ≡ some (new, (words', add32 next_id 1)))
      × ((new.state ≡ ThreadState.ready)
          × (new.pl ≡ Privilege.user)
          × (new.priority ≡ ThreadPriority.medium)
          × (new.id ≡ next_id))
      × EntersUser words' new.trapframe entry useresp extra_data
      × Resumes words' new.esp code.trampoline
      × ((q : ℕ) → (kernel_stack ≤ q) ⊎ (q < kernel_stack - 44) → words' q ≡ words q)
unfolding allocate_user_thread
allocate_user_thread_lem code entry useresp kernel_stack extra_data t next_id words real room =
    let (at, pushed, kept) =
      push_all_lem (trap_frame entry useresp extra_data) kernel_stack words (omega arith) in
    let (frame, framed') = push_all (trap_frame entry useresp extra_data) kernel_stack words in
    let (low, saved, kept') =
      push_all_lem (volatile_state code) frame framed' (omega (arith, at)) in
    let top : frame ≡ kernel_stack - 24 = at in
    let words' = (push_all (volatile_state code) frame framed').1 in
    let esp = (push_all (volatile_state code) frame framed').0 in
    let some_thread : (t == null) ≡ false = ground arith in
    let slot : (i : ℕ)
        → (q : ℕ) → i < 6
        → q + 4 * (i + 1) ≡ kernel_stack
        → words' q ≡ get_or (trap_frame entry useresp extra_data) i 0 =
      λ i q l e. kept' q (inl (omega (arith, top))) ∙ ap framed' (omega arith) ∙ pushed i l in
    let low_slot : (i : ℕ)
        → (q : ℕ) → i < 5
        → q + 4 * (i + 1) ≡ frame
        → words' q ≡ get_or (volatile_state code) i 0 =
      λ i q l e. ap words' (omega arith) ∙ saved i l in
    let new : Thread = record {
      esp = esp;
      kernel_stack = kernel_stack;
      trapframe = frame;
      stack_top = esp;
      quantum = 12;
      state = ThreadState.ready;
      pl = Privilege.user;
      priority = ThreadPriority.medium;
      id = next_id;
      owner = null;
      next = null;
    } in
    (
      new,
      words',
      rw some_thread refl,
      (refl, refl, refl, refl),
      record {
        eip = slot 5 frame (omega arith) (omega (arith, top));
        cs = slot 4 (frame + 4) (omega arith) (omega (arith, top));
        eflags = slot 3 (frame + 8) (omega arith) (omega (arith, top));
        esp = slot 2 (frame + 12) (omega arith) (omega (arith, top));
        ss = slot 1 (frame + 16) (omega arith) (omega (arith, top));
        extra = slot 0 (frame + 20) (omega arith) (omega (arith, top));
      },
      record {
        edi = low_slot 4 esp (omega arith) (omega (arith, top, low));
        esi = low_slot 3 (esp + 4) (omega arith) (omega (arith, top, low));
        ebx = low_slot 2 (esp + 8) (omega arith) (omega (arith, top, low));
        ebp = low_slot 1 (esp + 12) (omega arith) (omega (arith, top, low));
        return_to = low_slot 0 (esp + 16) (omega arith) (omega (arith, top, low));
      },
      λ q l. elim l [
        | inl a ↦ kept' q (inl (omega (arith, top))) ∙ kept q (inl a)
        | inr b ↦ kept' q (inr (omega (arith, top))) ∙ kept q (inr (omega arith))
      ],
    )
