-- ===== src/Sched/Walk.antt =====
-- AddThreadToScheduler, RemoveThreadFromScheduler and GetThreadByID against the list of threads.
use dragon_ware.Base.{
  ℕ, zero, suc, ◌<◌, ◌≤◌, ◌≡◌, refl, sym, subst, ap, ◌∙◌, ◌≢◌, List, [], ◌∷◌, ◌++◌, arith, ◌==◌,
  if◌then◌else◌, length, Bool-cases, inl, inr, true, false,
}
use dragon_ware.Base.Store.{null}
use dragon_ware.Status.{Status}
use dragon_ware.Sched.{
  Thread, ThreadState, Sched, set_state, set_next, last_of, add_thread_to_scheduler, remove_loop,
  remove_thread_from_scheduler, get_thread_by_id,
}
use dragon_ware.Sched.Chain.{
  Chain, NotIn, Distinct, SameLinks, Chain-SameLinks, Distinct-append_one, remove, contains,
  NotIn-remove, Distinct-remove,
}

-- The scheduling list is `xs`, with no thread twice.
pub record Lists (s : Sched) (xs : List ℕ) : Type 0 where
  pub chain : Chain s.threads s.thread_list xs
  pub distinct : Distinct xs

abbrev pub last : ℕ → List ℕ → ℕ
last x [] = x
last x (y ∷ ys) = last y ys

NotIn-ne-last : (a x : ℕ) (xs : List ℕ) → NotIn a (x ∷ xs) → a ≢ last x xs
NotIn-ne-last a x [] (ne, n) = ne
NotIn-ne-last a x (y ∷ ys) (ne, n) = NotIn-ne-last a y ys n

last_of-last :
    (fuel : ℕ) (s : Sched) (x : ℕ) (xs : List ℕ)
    → Chain s.threads (s.threads x).next xs
    → length xs < fuel
    → last_of fuel s x ≡ last x xs
unfolding last_of
last_of-last zero s x xs c h = absurd (omega arith)
last_of-last (suc fuel) s x [] c h = ground arith
last_of-last (suc fuel) s x (y ∷ ys) (e, ne, c) h =
    rw e (ground (arith, last_of-last fuel s y ys c))

-- Memory `m'` differs from `m` in one link: the end of the list now points to `t`.
module _ (m m' : ℕ → Thread) (t : ℕ) (t_ends : (m' t).next ≡ null) (t_real : t ≢ null) where
  link_append :
      (x : ℕ) (xs : List ℕ)
      → Chain m (m x).next xs
      → Distinct (x ∷ xs)
      → (m' (last x xs)).next ≡ t
      → ((y : ℕ) → y ≢ last x xs → y ≢ t → (m' y).next ≡ (m y).next)
      → NotIn t (x ∷ xs)
      → Chain m' (m' x).next (xs ++ (t ∷ []))
  link_append x [] c d l others n = (l, t_real, t_ends)
  link_append x (y ∷ ys) (e, ne, c) (fresh, d) l others (tx, n) =
      let same : (m' x).next ≡ (m x).next =
        others x (NotIn-ne-last x y ys fresh) (λ k. tx (sym k)) in
      (same ∙ e, ne, link_append y ys c d l others n)

-- The state once AddThreadToScheduler has set the new thread's own fields.
abbrev prepared : Sched → ℕ → Sched
prepared s t = set_next (set_state s t ThreadState.ready) t null

links-prepared :
    (s : Sched) (t : ℕ) (xs : List ℕ) → NotIn t xs → SameLinks s.threads (prepared s t).threads xs
links-prepared s t [] n = tt
links-prepared s t (x ∷ xs) (ne, n) = (ground arith, links-prepared s t xs n)

module _ (fuel : ℕ) (s : Sched) (t : ℕ) (t_real : t ≢ null) where
  -- What follows `x` once the thread that the walk from `p` finds points to the new one.
  abbrev After : ℕ → ℕ → List ℕ → Type 0
  After p x xs =
      let s' = set_next (prepared s t) (last_of fuel (prepared s t) p) t in
      Chain s'.threads (s'.threads x).next (xs ++ (t ∷ []))

  append_last :
      (x : ℕ) (xs : List ℕ)
      → Chain s.threads (s.threads x).next xs
      → Distinct (x ∷ xs)
      → NotIn t (x ∷ xs)
      → length xs < fuel
      → After x x xs
  append_last x xs c d (tx, n) h =
      let x_same : ((prepared s t).threads x).next ≡ (s.threads x).next = ground arith in
      let c' : Chain (prepared s t).threads ((prepared s t).threads x).next xs =
        rw x_same
          (Chain-SameLinks s.threads (prepared s t).threads _ xs c (links-prepared s t xs n)) in
      let end : t ≢ last x xs = NotIn-ne-last t x xs (tx, n) in
      rw (last_of-last fuel (prepared s t) x xs c' h) (
        link_append (prepared s t).threads (set_next (prepared s t) (last x xs) t).threads t
          (ground arith) t_real x xs c' d (ground arith) (λ y a b. ground arith) (tx, n))

  -- AddThreadToScheduler puts a thread that is not in the list at its end.
  pub add_thread_to_scheduler-Lists :
      (xs : List ℕ)
      → Lists s xs
      → NotIn t xs
      → length xs ≤ fuel
      → Lists (add_thread_to_scheduler fuel s t) (xs ++ (t ∷ []))
  unfolding add_thread_to_scheduler
  add_thread_to_scheduler-Lists [] l n h =
      let empty : (s.thread_list == null) ≡ true = ground (arith, l.chain) in
      rw empty (record { chain = (refl, t_real, ground arith); distinct = (tt, tt) })
  add_thread_to_scheduler-Lists (x ∷ xs) l n h =
      let filled : (s.thread_list == null) ≡ false = ground (arith, l.chain) in
      rw filled (record {
        chain = (
          l.chain.0,
          l.chain.1,
          subst (λ p. After p x xs) (sym l.chain.0)
              (append_last x xs l.chain.2 l.distinct n (omega arith)),
        );
        distinct = Distinct-append_one (x ∷ xs) t l.distinct n;
      })

links-set_next :
    (s : Sched) (p q : ℕ) (xs : List ℕ)
    → NotIn p xs
    → SameLinks s.threads (set_next s p q).threads xs
links-set_next s p q [] n = tt
links-set_next s p q (x ∷ xs) (ne, n) = (ground arith, links-set_next s p q xs n)

-- RemoveThreadFromScheduler.
module _ (s : Sched) (t : ℕ) where
  -- The status tells whether the thread was in the list.
  remove_loop_status :
      (fuel x : ℕ) (xs : List ℕ)
      → Chain s.threads (s.threads x).next xs
      → length xs < fuel
      → (remove_loop fuel s t x).0 ≡ (if contains t xs then Status.ok else Status.not_found)
  unfolding remove_loop
  remove_loop_status zero x xs c h = absurd (omega arith)
  remove_loop_status (suc fuel) x [] c h = ground arith
  remove_loop_status (suc fuel) x (y ∷ ys) (e, ne, c) h =
      rw e (ground (arith, remove_loop_status fuel y ys c))

  remove_loop_list : (fuel x : ℕ) → (remove_loop fuel s t x).1.thread_list ≡ s.thread_list
  unfolding remove_loop
  remove_loop_list zero x = refl
  remove_loop_list (suc fuel) x = ground (arith, remove_loop_list fuel (s.threads x).next)

  -- The loop writes to threads of the list alone.
  remove_loop_elsewhere :
      (fuel x z : ℕ) (xs : List ℕ)
      → Chain s.threads (s.threads x).next xs
      → NotIn z (x ∷ xs)
      → length xs < fuel
      → ((remove_loop fuel s t x).1.threads z).next ≡ (s.threads z).next
  unfolding remove_loop
  remove_loop_elsewhere zero x z xs c n h = refl
  remove_loop_elsewhere (suc fuel) x z [] c n h = ground arith
  remove_loop_elsewhere (suc fuel) x z (y ∷ ys) (e, ne, c) (zx, n) h =
      rw e (ground (arith, remove_loop_elsewhere fuel y z ys c n))

  remove_loop-Chain :
      (fuel x : ℕ) (xs : List ℕ)
      → Chain s.threads (s.threads x).next xs
      → Distinct (x ∷ xs)
      → length xs < fuel
      → let s' = (remove_loop fuel s t x).1 in Chain s'.threads (s'.threads x).next (remove t xs)
  unfolding remove_loop
  remove_loop-Chain zero x xs c d h = absurd (omega arith)
  remove_loop-Chain (suc fuel) x [] c d h = ground arith
  remove_loop-Chain (suc fuel) x (y ∷ ys) (e, ne, c) ((xy, n), d) h =
      let more : (y == null) ≡ false = ground arith in
      elim (Bool-cases (y == t)) [
        | inl found ↦
            let same : y ≡ t = ground arith in
            let here : (t == y) ≡ true = ground arith in
            rw (e, more, found, here)
              (let skip : ((set_next s x (s.threads t).next).threads x).next ≡ (s.threads y).next =
                  ground (arith, ap (λ p. (s.threads p).next) same) in
                rw skip (
                  Chain-SameLinks s.threads (set_next s x (s.threads t).next).threads
                    (s.threads y).next ys c (links-set_next s x (s.threads t).next ys n)))
        | inr other ↦
            let there : (t == y) ≡ false = ground arith in
            rw (e, more, other, there)
              (
                remove_loop_elsewhere fuel y x ys c (xy, n) (omega arith) ∙ e,
                ne,
                remove_loop-Chain fuel y ys c d (omega arith),
              )
      ]

  after_loop :
      (fuel x : ℕ) (xs : List ℕ)
      → Lists s (x ∷ xs)
      → t ≢ x
      → length xs < fuel
      → Lists (remove_loop fuel s t x).1 (x ∷ remove t xs)
  after_loop fuel x xs l ne h = record {
    chain = (
      remove_loop_list fuel x ∙ l.chain.0,
      l.chain.1,
      remove_loop-Chain fuel x xs l.chain.2 l.distinct h,
    );
    distinct = (NotIn-remove x t xs l.distinct.0, Distinct-remove t xs l.distinct.1);
  }

  abbrev Looped : ℕ → ℕ → ℕ → List ℕ → Type 0
  Looped fuel p x xs =
      Lists (remove_loop fuel s t p).1 (x ∷ remove t xs)
      × ((remove_loop fuel s t p).0 ≡ (if contains t xs then Status.ok else Status.not_found))

  -- RemoveThreadFromScheduler takes the thread out of the list, keeps the order of the others, and
  -- says STATUS_OK exactly when the thread was in the list, STATUS_NOT_FOUND otherwise.
  pub remove_thread_from_scheduler_lem :
      (fuel : ℕ) (xs : List ℕ)
      → Lists s xs
      → length xs ≤ fuel
      → let (status, s') = remove_thread_from_scheduler fuel s t in
        Lists s' (remove t xs) × (status ≡ (if contains t xs then Status.ok else Status.not_found))
  unfolding remove_thread_from_scheduler
  remove_thread_from_scheduler_lem fuel [] l h =
      let empty : (s.thread_list == null) ≡ true = ground (arith, l.chain) in rw empty (l, refl)
  remove_thread_from_scheduler_lem fuel (x ∷ xs) l h =
      let filled : (s.thread_list == null) ≡ false = ground (arith, l.chain) in
      elim (Bool-cases (t == s.thread_list)) [
        | inl first ↦
            let same : (t == x) ≡ true = ground (arith, l.chain) in
            rw (filled, first, same)
              (
                record {
                  chain =
                      subst (λ p. Chain s.threads (s.threads p).next xs) (sym l.chain.0) l.chain.2;
                  distinct = l.distinct.1;
                },
                refl,
              )
        | inr later ↦
            let other : (t == x) ≡ false = ground (arith, l.chain) in
            rw (filled, later, other)
              (subst (λ p. Looped fuel p x xs) (sym l.chain.0)
                (
                  after_loop fuel x xs l (λ e. ground arith) (omega arith),
                  remove_loop_status fuel x xs l.chain.2 (omega arith),
                ))
      ]

-- GetThreadByID finds the first thread of the list with that number, or the null pointer.
abbrev pub find_id : (ℕ → Thread) → ℕ → List ℕ → ℕ
find_id threads id [] = null
find_id threads id (x ∷ xs) = if (threads x).id == id then x else find_id threads id xs

pub get_thread_by_id_lem :
    (fuel : ℕ) (s : Sched) (id p : ℕ) (xs : List ℕ)
    → Chain s.threads p xs
    → length xs < fuel
    → get_thread_by_id fuel s id p ≡ find_id s.threads id xs
unfolding get_thread_by_id
get_thread_by_id_lem zero s id p xs c h = absurd (omega arith)
get_thread_by_id_lem (suc fuel) s id p [] c h = ground arith
get_thread_by_id_lem (suc fuel) s id p (x ∷ xs) (e, ne, c) h =
    rw e (ground (arith, get_thread_by_id_lem fuel s id (s.threads x).next xs c))
