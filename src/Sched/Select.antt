-- ===== src/Sched/Select.antt =====
-- SelectNextThread: the round robin over the scheduling list.
use dragon_ware.Base.{
  ℕ, zero, suc, ◌<◌, ◌≡◌, refl, ◌≢◌, List, [], ◌∷◌, ◌++◌, arith, ◌==◌, if◌then◌else◌, length,
  Bool-cases, inl, inr, Bool, true, false, not, ◌&&◌,
}
use dragon_ware.Base.Store.{null}
use dragon_ware.Sched.{Thread, Sched, is_idle, is_runnable, successor, select_loop}
use dragon_ware.Sched.Chain.{Chain, NotIn}
use dragon_ware.Sched.Walk.{last}

-- A thread that is worth its time, and one that runs where nothing else can.
abbrev pub is_busy : Thread → Bool
is_busy t = is_runnable t && not (is_idle t.priority)

abbrev pub is_lazy : Thread → Bool
is_lazy t = is_runnable t && is_idle t.priority

abbrev pub first : (ℕ → Bool) → List ℕ → ℕ
first p [] = null
first p (x ∷ xs) = if p x then x else first p xs

-- The thread that should run next, of those in `order`: the first one that can run and is not idle,
-- or else the first idle one that can run, or else none.
abbrev pub choice : (ℕ → Thread) → List ℕ → ℕ
choice threads order =
    let busy = first (λ x. is_busy (threads x)) order in
    if busy == null then first (λ x. is_lazy (threads x)) order else busy

-- The loop's variable `idle` after it has passed thread `x`.
abbrev pub spare_after : (ℕ → Thread) → ℕ → ℕ → ℕ
spare_after threads x spare = if is_lazy (threads x) && spare == null then x else spare

pub scan : (ℕ → Thread) → List ℕ → ℕ → ℕ × ℕ
scan threads [] spare = (null, spare)
scan threads (x ∷ xs) spare =
    if is_busy (threads x)
    then (x, spare_after threads x spare)
    else scan threads xs (spare_after threads x spare)

abbrev pub AllReal : List ℕ → Type 0
AllReal [] = Unit {0}
AllReal (x ∷ xs) = (x ≢ null) × AllReal xs

pub scan-first :
    (threads : ℕ → Thread) (xs : List ℕ) (spare : ℕ)
    → (scan threads xs spare).0 ≡ first (λ z. is_busy (threads z)) xs
unfolding scan
scan-first threads [] spare = refl
scan-first threads (x ∷ xs) spare =
    ground (arith, scan-first threads xs (spare_after threads x spare))

pub scan-spare :
    (threads : ℕ → Thread) (xs : List ℕ) (spare : ℕ)
    → AllReal xs
    → first (λ z. is_busy (threads z)) xs ≡ null
    → (scan threads xs spare).1
      ≡ (if spare == null then first (λ z. is_lazy (threads z)) xs else spare)
unfolding scan
scan-spare threads [] spare real h = ground arith
scan-spare threads (x ∷ xs) spare (rx, real) h =
    ground (arith, scan-spare threads xs (spare_after threads x spare) real)

module _ (s : Sched) where
  -- From `x` the loop goes on to `ys`, one after the other.
  abbrev pub Run : ℕ → List ℕ → Type 0
  Run x [] = Unit {0}
  Run x (y ∷ ys) = (successor s x ≡ y) × Run y ys

  pub Run-Chain : (x : ℕ) (ys : List ℕ) → Chain s.threads (s.threads x).next ys → Run x ys
  Run-Chain x [] c = tt
  Run-Chain x (y ∷ ys) (e, ne, c) = (ground arith, Run-Chain y ys c)

  -- Behind the last thread of the list it starts over.
  pub successor-last :
      (x : ℕ) (ys : List ℕ)
      → Chain s.threads (s.threads x).next ys
      → successor s (last x ys) ≡ s.thread_list
  successor-last x [] c = ground arith
  successor-last x (y ∷ ys) (e, ne, c) = successor-last y ys c

  pub Run-append :
      (x : ℕ) (ys : List ℕ) (z : ℕ) (zs : List ℕ)
      → Run x ys
      → successor s (last x ys) ≡ z
      → Run z zs
      → Run x (ys ++ (z ∷ zs))
  Run-append x [] z zs r e q = (e, q)
  Run-append x (y ∷ ys) z zs (f, r) e q = (f, Run-append y ys z zs r e q)

  pub Run-prefix : (x : ℕ) (ys zs : List ℕ) → Run x (ys ++ zs) → Run x ys
  Run-prefix x [] zs r = tt
  Run-prefix x (y ∷ ys) zs (f, r) = (f, Run-prefix y ys zs r)

  -- The loop, once round, is the scan of the threads that it passes.
  pub select_loop-scan :
      (start fuel x spare : ℕ) (ys : List ℕ)
      → Run x ys
      → successor s (last x ys) ≡ start
      → NotIn start ys
      → length ys < fuel
      → select_loop fuel s start x spare ≡ scan s.threads (x ∷ ys) spare
  unfolding select_loop scan
  select_loop-scan start zero x spare ys r e n h = absurd (omega arith)
  select_loop-scan start (suc fuel) x spare [] r e n h =
      let back : (successor s x == start) ≡ true = ground arith in rw back
  select_loop-scan start (suc fuel) x spare (y ∷ ys) (f, r) e (ne, n) h =
      let on : (successor s x == start) ≡ false = ground arith in
      rw (on, f)
        (elim (Bool-cases (is_busy (s.threads x))) [
          | inl busy ↦ rw busy
          | inr not_busy ↦
              rw not_busy (
                select_loop-scan start fuel y (spare_after s.threads x spare) ys r e n
                  (omega arith))
        ])
