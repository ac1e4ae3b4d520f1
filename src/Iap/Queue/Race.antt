-- ===== src/Iap/Queue/Race.antt =====
-- A push and a pop of the report queue at the same time. `iap_set_track` pushes from the AirPlay
-- task (main.c), and `iap_tx_pump` pops in the USB task; no lock is held, and `txq_count++` and
-- `txq_count--` are a load and a store each.
use esp32_s3_car_adapter.Common.{
  ℕ, ◌+◌, ◌-◌, ◌%◌, ◌≤◌, ◌<◌, ◌≡◌, ◌≢◌, refl, ap, false, ◌⊎◌, inl, inr, List, [], ◌∷◌, some, arith,
  u8, length, set, leb, ltb,
}
use mathlib.Core.Option
use esp32_s3_car_adapter.Iap.Queue.{TxQueue, TxReport, txq_size, txq_push, txq_pop}
use esp32_s3_car_adapter.Iap.Queue.Inv.{IsValid}
mod Runs

-- The actions of `txq_push` and of a round of `iap_tx_pump` behind their tests: the slot and the
-- tail belong to the push alone, the head to the pop.
pub data Action : Type 0 where
  push_slot push_load push_store : Action
  pop_head pop_load pop_store : Action

-- The queue, and what each task has loaded.
pub record Tasks : Type 0 where
  pub queue : TxQueue
  pub push_count : ℕ
  pub pop_count : ℕ

unfoldable pub act : TxReport → Action → Tasks → Tasks
act r push_slot s = record s {
  queue = record (s.queue) {
    slots = set s.queue.slots s.queue.tail r;
    tail = u8 ((s.queue.tail + 1) % txq_size);
  };
}
act r push_load s = record s { push_count = s.queue.count }
act r push_store s = record s { queue = record (s.queue) { count = u8 (s.push_count + 1) } }
act r pop_head s = record s {
  queue = record (s.queue) { head = u8 ((s.queue.head + 1) % txq_size) };
}
act r pop_load s = record s { pop_count = s.queue.count }
act r pop_store s = record s { queue = record (s.queue) { count = u8 (s.pop_count + 255) } }

unfoldable pub run_tasks : TxReport → List Action → Tasks → Tasks
run_tasks r [] s = s
run_tasks r (a ∷ more) s = run_tasks r more (act r a s)

abbrev pub push_actions : List Action
push_actions = push_slot ∷ push_load ∷ push_store ∷ []

abbrev pub pop_actions : List Action
pop_actions = pop_head ∷ pop_load ∷ pop_store ∷ []

-- `more` has the actions of both lists, each in its order.
pub data Interleaves : List Action → List Action → List Action → Type 0 where
  stop : Interleaves [] [] []
  push :
      {a : Action} {ps qs more : List Action}
      → Interleaves ps qs more
      → Interleaves (a ∷ ps) qs (a ∷ more)
  pop :
      {a : Action} {ps qs more : List Action}
      → Interleaves ps qs more
      → Interleaves ps (a ∷ qs) (a ∷ more)

-- Both have run, and the count is `n`.
abbrev pub both : TxReport → TxQueue → ℕ → TxQueue
both r q n = record q {
  slots = set q.slots q.tail r;
  tail = u8 ((q.tail + 1) % txq_size);
  head = u8 ((q.head + 1) % txq_size);
  count = n;
}

module _ (r : TxReport) (q : TxQueue) where
  -- Nothing is loaded.
  abbrev pub start : Tasks
  start = record { queue = q; push_count = 0; pop_count = 0 }

  -- The queue of one after the other, or one whose count is one too many or one too few.
  abbrev pub Ends : Tasks → Type 0
  Ends t =
      (t.queue ≡ both r q q.count)
      ⊎ ((t.queue ≡ both r q (q.count + 1)) ⊎ (t.queue ≡ both r q (q.count - 1)))

  -- What the two tasks can do to the queue.
  pub record Races : Type 0 where
    pub in_turn : Option.map txq_pop (txq_push r.id r.bytes q) ≡ some (both r q q.count)
    pub ends :
        {acts : List Action}
        → Interleaves push_actions pop_actions acts
        → Ends (run_tasks r acts start)
    pub pop_lost : List Action
    pub pop_lost_runs : Interleaves push_actions pop_actions pop_lost
    pub one_more : (run_tasks r pop_lost start).queue ≡ both r q (q.count + 1)
    pub push_lost : List Action
    pub push_lost_runs : Interleaves push_actions pop_actions push_lost
    pub one_fewer : (run_tasks r push_lost start).queue ≡ both r q (q.count - 1)
    pub more_broken : ¬ IsValid (both r q (q.count + 1))
    pub fewer_broken : ¬ IsValid (both r q (q.count - 1))

module _ (r : TxReport) (q : TxQueue) (pos : 0 < q.count) (room : q.count < txq_size) where
  push_pop : u8 (u8 (q.count + 1) + 255) ≡ q.count
  push_pop = omega arith

  pop_push : u8 (u8 (q.count + 255) + 1) ≡ q.count
  pop_push = omega arith

  lost_pop : u8 (q.count + 1) ≡ q.count + 1
  lost_pop = omega arith

  lost_push : u8 (q.count + 255) ≡ q.count - 1
  lost_push = omega arith

  interleaved-Ends :
      {acts : List Action}
      → Interleaves push_actions pop_actions acts
      → Ends r q (run_tasks r acts (start r q))
  unfolding run_tasks act
  interleaved-Ends (push (push (push (pop (pop (pop stop)))))) = inl (ap (both r q) push_pop)
  interleaved-Ends (push (push (pop (push (pop (pop stop)))))) = inl (ap (both r q) push_pop)
  interleaved-Ends (push (push (pop (pop (push (pop stop)))))) = inr (inr (ap (both r q) lost_push))
  interleaved-Ends (push (push (pop (pop (pop (push stop)))))) = inr (inl (ap (both r q) lost_pop))
  interleaved-Ends (push (pop (push (push (pop (pop stop)))))) = inl (ap (both r q) push_pop)
  interleaved-Ends (push (pop (push (pop (push (pop stop)))))) = inr (inr (ap (both r q) lost_push))
  interleaved-Ends (push (pop (push (pop (pop (push stop)))))) = inr (inl (ap (both r q) lost_pop))
  interleaved-Ends (push (pop (pop (push (push (pop stop)))))) = inr (inr (ap (both r q) lost_push))
  interleaved-Ends (push (pop (pop (push (pop (push stop)))))) = inr (inl (ap (both r q) lost_pop))
  interleaved-Ends (push (pop (pop (pop (push (push stop)))))) = inl (ap (both r q) pop_push)
  interleaved-Ends (pop (push (push (push (pop (pop stop)))))) = inl (ap (both r q) push_pop)
  interleaved-Ends (pop (push (push (pop (push (pop stop)))))) = inr (inr (ap (both r q) lost_push))
  interleaved-Ends (pop (push (push (pop (pop (push stop)))))) = inr (inl (ap (both r q) lost_pop))
  interleaved-Ends (pop (push (pop (push (push (pop stop)))))) = inr (inr (ap (both r q) lost_push))
  interleaved-Ends (pop (push (pop (push (pop (push stop)))))) = inr (inl (ap (both r q) lost_pop))
  interleaved-Ends (pop (push (pop (pop (push (push stop)))))) = inl (ap (both r q) pop_push)
  interleaved-Ends (pop (pop (push (push (push (pop stop)))))) = inr (inr (ap (both r q) lost_push))
  interleaved-Ends (pop (pop (push (push (pop (push stop)))))) = inr (inl (ap (both r q) lost_pop))
  interleaved-Ends (pop (pop (push (pop (push (push stop)))))) = inl (ap (both r q) pop_push)
  interleaved-Ends (pop (pop (pop (push (push (push stop)))))) = inl (ap (both r q) pop_push)

  one_then_other :
      length r.bytes ≤ 64 → Option.map txq_pop (txq_push r.id r.bytes q) ≡ some (both r q q.count)
  unfolding txq_push txq_pop
  one_then_other h =
      let free : leb txq_size q.count ≡ false = ground arith in
      let short : ltb 64 (length r.bytes) ≡ false = ground arith in
      rw (free, short) (ap (λ n. some (both r q n)) (omega arith))

  -- A count that is off leaves the tail somewhere else than the end of what the queue holds.
  both-IsValid_not : (n : ℕ) → IsValid q → n ≢ q.count → n < q.count + 2 → ¬ IsValid (both r q n)
  both-IsValid_not n v ne h w = omega (arith, v.tail_at, w.tail_at, w.count_in, ne)

  -- On a valid queue with a report and with room, a push and a pop that run at the same time leave,
  -- in every order of their actions, the queue that one after the other leaves, or one whose count
  -- is one too many or one too few; both happen, and neither is a valid queue.
  pub tasks-Races : length r.bytes ≤ 64 → IsValid q → Races r q
  unfolding run_tasks act
  tasks-Races h v = record {
    in_turn = one_then_other h;
    ends = interleaved-Ends;
    pop_lost = push_slot ∷ push_load ∷ pop_head ∷ pop_load ∷ pop_store ∷ push_store ∷ [];
    pop_lost_runs = push (push (pop (pop (pop (push stop)))));
    one_more = ap (both r q) lost_pop;
    push_lost = push_slot ∷ push_load ∷ pop_head ∷ pop_load ∷ push_store ∷ pop_store ∷ [];
    push_lost_runs = push (push (pop (pop (push (pop stop)))));
    one_fewer = ap (both r q) lost_push;
    more_broken = both-IsValid_not (q.count + 1) v (omega arith) (omega arith);
    fewer_broken = both-IsValid_not (q.count - 1) v (omega arith) (omega arith);
  }
