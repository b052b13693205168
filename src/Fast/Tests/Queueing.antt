-- ===== src/Fast/Tests/Queueing.antt =====
-- The queue manager at work, on queues of two machines.
use tas.Base.{
  ℕ, ◌+◌, ◌<◌, ◌^◌, ◌≡◌, refl, sym, arith, true, false, ◌||◌, [], ◌∷◌, none, some, ◌==◌,
  if◌then◌else◌, pos,
}
use tas.Fast.Qman.{FlowQueue, FlowQman, VmQueue}
use tas.Fast.Qman.Flows.{Polled}
use tas.Fast.Qman.Poll.{flow_poll_nolimit, flow_qman_set, SetFlags, SetArgs}
use tas.Fast.Qman.Fifo.{IsQueue}
use tas.Fast.Qman.Fair.{ids, poll_nolimit_in_order}
use tas.Fast.Qman.Waiting.{waiting-empty}
use tas.Fast.Qman.Vms.{
  Context, vm_qman_set, vm_qman_poll, vm_set_impl, vm_set_avail, vm_queue_activate,
}
use tas.Fast.Qman.Balance.{AreBalanced}
use tas.Fast.Qman.Served.{IsServed, vm_poll-IsServed}
use tas.Fast.Qman.Update.{vm_set-AreBalanced}

-- the cleared memory of a flow queue
abbrev idle_flow : FlowQueue
idle_flow = record {
  next_idxs = λ l. some 0;
  next_ts = 0;
  rate = 0;
  avail = 0;
  max_chunk = 0;
  in_skiplist = false;
  in_nolimit = false;
}

abbrev no_flows : FlowQman
no_flows = record {
  queues = λ i. idle_flow;
  head_idx = λ l. none;
  nolimit_head_idx = none;
  nolimit_tail_idx = none;
  nolimit_first = false;
}

abbrev machine : FlowQman → ℕ → ℕ → VmQueue
machine fq i avail = record {
  id = i;
  next_idx = none;
  fqman = fq;
  avail = avail;
  in_nolimit = false;
  ts_real = 100;
  ts_virtual = 0;
}

-- as `vmcont_init` leaves it, the second machine out of budget
abbrev idle : Context
idle = record {
  vqman = record { queues = λ v. machine no_flows v 0; head_idx = none; tail_idx = none };
  seed = 12345;
  budgets = λ v. if v == 2 then pos 0 else pos 10;
  vm_counters = λ v. 0;
  counters_total = 0;
}

idle_balanced : AreBalanced idle.vqman
idle_balanced v = record {
  exact = sym (waiting-empty no_flows (λ i. refl));
  fits = omega arith;
  lists = record { heads = λ l. refl; nexts = λ i l. refl; first = refl; tail = refl };
}

abbrev all_flags : SetFlags
all_flags = record { set_rate = true; set_maxchunk = true; set_avail = false; add_avail = true }

abbrev three_chunks : SetArgs
three_chunks = record { rate = 0; avail = 3000; max_chunk = 1448 }

abbrev loaded : Context
loaded = (vm_qman_set idle 1 5 all_flags three_chunks).0

loaded_balanced : AreBalanced loaded.vqman
loaded_balanced =
    vm_set-AreBalanced idle 1 5 all_flags three_chunks (omega arith) idle_balanced (omega arith)

room_left : (loaded.vqman.queues 2).avail + 3000 < 2 ^ 32
unfolding vm_qman_set flow_qman_set vm_set_impl vm_set_avail vm_queue_activate
room_left = omega arith

vm_set-AreBalanced_example : AreBalanced (vm_qman_set loaded 2 7 all_flags three_chunks).0.vqman
vm_set-AreBalanced_example =
    vm_set-AreBalanced loaded 2 7 all_flags three_chunks (omega arith) loaded_balanced room_left

vm_poll-IsServed_example : IsServed (vm_qman_poll 7 64 1000 0 16 loaded)
vm_poll-IsServed_example = vm_poll-IsServed 7 64 1000 0 16 loaded loaded_balanced

-- the flows 5 and 6 in the list without limit
abbrev two_flows : FlowQman
two_flows = record no_flows {
  queues = λ i. record idle_flow {
    next_idxs = λ l. if i == 5 then some 6 else none;
    avail = 2000;
    max_chunk = 1448;
    in_nolimit = (i == 5) || (i == 6);
  };
  nolimit_head_idx = some 5;
  nolimit_tail_idx = some 6;
}

abbrev poll : Polled
poll = record {
  thread = record { vq = machine two_flows 1 4000; seed = 12345 };
  chunks = [];
  rate_limited = false;
}

two_flows-IsQueue : IsQueue two_flows (5 ∷ 6 ∷ [])
two_flows-IsQueue = record {
  chain = (refl, (refl, refl));
  tail = refl;
  once = refl;
  flags = λ i. ground arith;
}

poll_nolimit_in_order_example : ids (flow_poll_nolimit 4 2 poll).chunks ≡ 5 ∷ 6 ∷ []
poll_nolimit_in_order_example =
    poll_nolimit_in_order 4 2 poll (5 ∷ 6 ∷ []) two_flows-IsQueue (λ i m. (refl, omega arith))
      (λ i m. refl) (omega arith) (omega arith)
