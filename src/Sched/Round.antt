-- ===== src/Sched/Round.antt =====
-- The circle of the threads, and what SelectNextThread picks on it.
use mathlib.Core.List.{append_assoc}
use dragon_ware.Base.{
  ℕ, ◌≤◌, ◌≡◌, refl, sym, subst, ap, ◌∙◌, ◌≢◌, List, [], ◌∷◌, ◌++◌, arith, ◌==◌, if◌then◌else◌,
  length, false, not,
}
use dragon_ware.Base.Store.{null}
use dragon_ware.Sched.{Thread, Sched, refill, successor, select_loop, select_next_thread}
use dragon_ware.Sched.Chain.{Chain, NotIn, Distinct, NotIn-append}
use dragon_ware.Sched.Walk.{Lists, last}
use dragon_ware.Sched.Select.{
  choice, scan, scan-first, scan-spare, AllReal, Run, Run-Chain, successor-last, Run-append,
  Run-prefix, select_loop-scan,
}

-- The circle of the threads as the loop goes round it from `start`.
record Round (s : Sched) (start : ℕ) (rest : List ℕ) : Type 0 where
  run : Run s start rest
  back : successor s (last start rest) ≡ start
  once : NotIn start rest
  real : AllReal (start ∷ rest)

last-append : (x : ℕ) (ys : List ℕ) (z : ℕ) (zs : List ℕ) → last x (ys ++ (z ∷ zs)) ≡ last z zs
last-append x [] z zs = refl
last-append x (y ∷ ys) z zs = last-append y ys z zs

Chain-AllReal : (m : ℕ → Thread) (p : ℕ) (xs : List ℕ) → Chain m p xs → AllReal xs
Chain-AllReal m p [] c = tt
Chain-AllReal m p (x ∷ xs) (e, ne, c) = (ne, Chain-AllReal m (m x).next xs c)

AllReal-append : (xs ys : List ℕ) → AllReal xs → AllReal ys → AllReal (xs ++ ys)
AllReal-append [] ys r q = q
AllReal-append (x ∷ xs) ys (h, r) q = (h, AllReal-append xs ys r q)

AllReal-split : (xs ys : List ℕ) → AllReal (xs ++ ys) → AllReal xs × AllReal ys
AllReal-split [] ys r = (tt, r)
AllReal-split (x ∷ xs) ys (h, r) = let (a, b) = AllReal-split xs ys r in ((h, a), b)

NotIn-split : (a : ℕ) (xs ys : List ℕ) → NotIn a (xs ++ ys) → NotIn a xs × NotIn a ys
NotIn-split a [] ys n = (tt, n)
NotIn-split a (x ∷ xs) ys (ne, n) = let (p, q) = NotIn-split a xs ys n in ((ne, p), q)

-- An element in the middle of a list without repetition stands nowhere else in it.
Distinct-middle :
    (xs : List ℕ) (a : ℕ) (ys : List ℕ) → Distinct (xs ++ (a ∷ ys)) → NotIn a xs × NotIn a ys
Distinct-middle [] a ys (n, d) = (tt, n)
Distinct-middle (x ∷ xs) a ys (n, d) =
    let (p, q) = Distinct-middle xs a ys d in
    (((λ e. (NotIn-split x xs (a ∷ ys) n).1.0 (sym e)), p), q)

Chain-behind :
    (m : ℕ → Thread) (p : ℕ) (xs : List ℕ) (a : ℕ) (ys : List ℕ)
    → Chain m p (xs ++ (a ∷ ys))
    → Chain m (m a).next ys
Chain-behind m p [] a ys (e, ne, c) = c
Chain-behind m p (x ∷ xs) a ys (e, ne, c) = Chain-behind m (m x).next xs a ys c

-- The threads from the head of the list up to `cur`, and on from the thread that follows it.
module _ (s : Sched) (cur : ℕ) where
  up_to :
      (b : ℕ) (bs after : List ℕ)
      → Chain s.threads (s.threads b).next (bs ++ (cur ∷ after))
      → Run s b (bs ++ (cur ∷ []))
  up_to b bs after c =
      Run-prefix s b (bs ++ (cur ∷ [])) after
        (rw (append_assoc bs (cur ∷ []) after) (Run-Chain s b (bs ++ (cur ∷ after)) c))

  Round-behind :
      (b a : ℕ) (bs ds : List ℕ)
      → s.thread_list ≡ b
      → Run s b bs
      → last b bs ≡ cur
      → Chain s.threads (s.threads cur).next (a ∷ ds)
      → NotIn a (ds ++ (b ∷ bs))
      → AllReal (b ∷ bs)
      → Round s a (ds ++ (b ∷ bs))
  Round-behind b a bs ds head r l (e, ne, c) n real = record {
    run = Run-append s a ds b bs (Run-Chain s a ds c) (successor-last s a ds c ∙ head) r;
    back = rw (last-append a ds b bs, l) (ground arith);
    once = n;
    real = (ne, AllReal-append ds (b ∷ bs) (Chain-AllReal s.threads _ ds c) real);
  }

-- Where the current thread stands in the list decides the order in which the others get their turn.
abbrev pub turn_order : List ℕ → ℕ → List ℕ → List ℕ
turn_order before cur after = after ++ (before ++ (cur ∷ []))

record Turn (s : Sched) (cur : ℕ) (order : List ℕ) : Type 0 where
  start : ℕ
  rest : List ℕ
  whole : order ≡ start ∷ rest
  follows : successor s cur ≡ start
  round : Round s start rest

Turn-Lists :
    (s : Sched) (before : List ℕ) (cur : ℕ) (after : List ℕ)
    → Lists s (before ++ (cur ∷ after))
    → Turn s cur (turn_order before cur after)
Turn-Lists s [] cur [] l = record {
  start = cur;
  rest = [];
  whole = refl;
  follows = ground (arith, l.chain);
  round = record { run = tt; back = ground (arith, l.chain); once = tt; real = (l.chain.1, tt) };
}
Turn-Lists s [] cur (a ∷ ds) l = record {
  start = a;
  rest = ds ++ (cur ∷ []);
  whole = refl;
  follows = ground (arith, l.chain);
  round =
      Round-behind s cur cur a [] ds l.chain.0 tt refl l.chain.2
        (NotIn-append a ds (cur ∷ []) l.distinct.1.0 ((λ e. l.distinct.0.0 (sym e)), tt))
        (l.chain.1, tt);
}
Turn-Lists s (b ∷ bs) cur [] l =
    let around = successor-last s b (bs ++ (cur ∷ [])) l.chain.2 ∙ l.chain.0 in
    record {
      start = b;
      rest = bs ++ (cur ∷ []);
      whole = refl;
      follows = rw (last-append b bs cur []) at around;
      round = record {
        run = Run-Chain s b (bs ++ (cur ∷ [])) l.chain.2;
        back = around;
        once = l.distinct.0;
        real = Chain-AllReal s.threads s.thread_list (b ∷ (bs ++ (cur ∷ []))) l.chain;
      };
    }
Turn-Lists s (b ∷ bs) cur (a ∷ ds) l =
    let behind = Chain-behind s.threads s.thread_list (b ∷ bs) cur (a ∷ ds) l.chain in
    let (n, k) =
      Distinct-middle ((b ∷ bs) ++ (cur ∷ [])) a ds
        (subst Distinct (sym (append_assoc (b ∷ bs) (cur ∷ []) (a ∷ ds))) l.distinct) in
    let real = Chain-AllReal s.threads s.thread_list ((b ∷ bs) ++ (cur ∷ a ∷ ds)) l.chain in
    let (rb, rc) = AllReal-split (b ∷ bs) (cur ∷ a ∷ ds) real in
    record {
      start = a;
      rest = ds ++ ((b ∷ bs) ++ (cur ∷ []));
      whole = refl;
      follows = ground arith;
      round =
          Round-behind s cur b a (bs ++ (cur ∷ [])) ds l.chain.0
            (up_to s cur b bs (a ∷ ds) l.chain.2) (last-append b bs cur []) behind
            (NotIn-append a ds ((b ∷ bs) ++ (cur ∷ [])) k n)
            (AllReal-append (b ∷ bs) (cur ∷ []) rb (rc.0, tt));
    }

-- What is selected, from what the scan of the round yields.
abbrev selected : Sched → ℕ × ℕ → ℕ × Sched
selected s (t, spare) =
    if not (t == null)
    then (t, refill s t)
    else if not (spare == null)
    then (spare, refill s spare)
    else (null, s)

abbrev given : Sched → ℕ → ℕ × Sched
given s next = (next, if next == null then s else refill s next)

selected-scan :
    (s : Sched) (xs : List ℕ)
    → AllReal xs
    → selected s (scan s.threads xs null) ≡ given s (choice s.threads xs)
selected-scan s xs real =
    ground (arith, scan-first s.threads xs null, scan-spare s.threads xs null real)

-- With the current thread in the list, SelectNextThread returns the thread whose turn it is: the
-- first one behind the current thread, round the list and the current thread last, that can run and
-- is not idle; or else the first idle one that can run; or else none. That thread's quantum is
-- refilled and nothing else changes.
pub select_next_thread_lem :
    (fuel : ℕ) (s : Sched) (before after : List ℕ)
    → Lists s (before ++ (s.current_thread ∷ after))
    → s.current_thread ≢ null
    → s.thread_list ≢ null
    → length (turn_order before s.current_thread after) ≤ fuel
    → let next = choice s.threads (turn_order before s.current_thread after) in
      select_next_thread fuel s ≡ (next, if next == null then s else refill s next)
unfolding select_next_thread
select_next_thread_lem fuel s before after l cn tn h =
    let cur = s.current_thread in
    let t = Turn-Lists s before cur after l in
    let started : (cur == null) ≡ false = ground arith in
    let filled : (s.thread_list == null) ≡ false = ground arith in
    let loop : select_loop fuel s t.start t.start null ≡ scan s.threads (t.start ∷ t.rest) null =
      select_loop-scan s t.start fuel t.start null t.rest t.round.run t.round.back t.round.once
        (omega (arith, ap length t.whole)) in
    rw (started, filled, t.follows, loop, t.whole) (selected-scan s (t.start ∷ t.rest) t.round.real)
