-- ===== src/Select/Examples.antt =====
-- Tests of the select loop with two NotificationConsumers, and its theorems at concrete inputs.
use mathlib.Core.Bool.{true, false}
use sonic_swss_common.Prelude.{
  ℕ, zero, suc, ◌+◌, ◌≤◌, ◌<◌, List, [], ◌∷◌, some, Bytes, codes, ◌≡◌, refl, arith, nat_eq, eq_iff,
  lookup, contains,
}
use sonic_swss_common.Notification.Consumer.{
  fifo, push, has_data, has_cached_data, size, messages, process_reply, admit,
}
use sonic_swss_common.Notification.Waits.{
  Subscription, subscription, subscription_reads, subscription_keeps, read_next,
}
use sonic_swss_common.Select.{
  Base, before, Select, add_selectable, read_events, poll_descriptors, events, object, timeout,
  insert_ready,
}
use sonic_swss_common.Select.Valid.{IsValid}
use sonic_swss_common.Select.Reach.{adds, here, next, Reach-IsValid}
use sonic_swss_common.Select.Turns.{Waiting}
use sonic_swss_common.Select.Fair.{Call, IsFair, serves, select_serves}
use sonic_swss_common.Select.Twins.{twin_forgotten}

abbrev holding : List Bytes → Subscription
holding ms = record {
  kind = codes "message";
  channel = codes "N";
  consumer = record { pop_batch_size = 8; queue = fifo ms; ops = []; received = 0; dropped = 0 };
  batches = (codes "m", []) ∷ [];
}

abbrev tick : ℕ → ℕ
tick n = n + 10

-- Object 0 has descriptor 5, every other one has 6; all have the priority 100.
abbrev base_of : ℕ → Base
base_of zero = record { fd = 5; priority = 100; last_used = 1 }
base_of (suc n) = record { fd = 6; priority = 100; last_used = 2 }

abbrev start : Select subscription tick
start = record { bases = base_of; states = λ x. holding []; objects = []; ready = []; readings = 0 }

start-IsValid : IsValid subscription tick start
unfolding lookup
start-IsValid = record { sorted = tt; owned = tt; consistent = λ fd a h. cc }

Reach-IsValid_example :
    IsValid subscription tick
      (add_selectable subscription tick true 1 (add_selectable subscription tick true 0 start).1).1
Reach-IsValid_example = Reach-IsValid subscription tick start-IsValid (
    next (next here (adds true 0 start))
      (adds true 1 (add_selectable subscription tick true 0 start).1))

abbrev both : Select subscription tick
both = record start { objects = (5, 0) ∷ (6, 1) ∷ [] }

both-consistent : (fd a : ℕ) → lookup fd both.objects ≡ some a → (both.bases a).fd ≡ fd
unfolding lookup
both-consistent fd zero h = ground (arith, eq_iff 5 fd, eq_iff 6 fd)
both-consistent fd (suc a) h = ground (arith, eq_iff 5 fd, eq_iff 6 fd)

poll_test : (poll_descriptors subscription tick 2 (events (6 ∷ 5 ∷ [])) false both).0 ≡ object 0
unfolding poll_descriptors read_events lookup read_next process_reply admit insert_ready before size
    messages has_data push
poll_test = refl

-- Object 1 waits behind object 0, which always has more.
abbrev waiting_state : Select subscription tick
waiting_state = record {
  bases = base_of;
  states = λ x. holding (codes "m" ∷ codes "m" ∷ []);
  objects = (5, 0) ∷ (6, 1) ∷ [];
  ready = 0 ∷ 1 ∷ [];
  readings = 0;
}

base_of-past : (x : ℕ) → (base_of x).last_used < tick 0
base_of-past zero = omega arith
base_of-past (suc x) = omega arith

base_of-top : (x : ℕ) → (base_of x).priority ≤ (base_of 1).priority
base_of-top zero = omega arith
base_of-top (suc x) = omega arith

waiting_state-Waiting : Waiting subscription tick 1 waiting_state
unfolding lookup before contains has_data size messages
waiting_state-Waiting = record {
  valid = record {
    sorted = ((refl, tt), (tt, tt));
    owned = (refl, (refl, tt));
    consistent = both-consistent;
  };
  there = refl;
  full = refl;
  top = λ x reg. base_of-top x;
  past = λ x reg. base_of-past x;
}

abbrev quiet_call : Call subscription tick 1
quiet_call = record {
  change = λ states. states;
  signals = 1;
  fds = 5 ∷ [];
  second = (0, events []);
  no_wait = false;
  stop = true;
}

quiet_call-IsFair : IsFair subscription tick 1 waiting_state.objects quiet_call
unfolding lookup
quiet_call-IsFair = record { known = ((0, refl), tt); apart = λ states. refl }

select_serves_example :
    serves subscription tick 1 (quiet_call ∷ quiet_call ∷ []) waiting_state ≡ true
select_serves_example =
    select_serves subscription tick 1 (λ n. omega arith) subscription_reads subscription_keeps
      (quiet_call ∷ quiet_call ∷ []) waiting_state (quiet_call-IsFair, (quiet_call-IsFair, tt))
      waiting_state-Waiting (omega arith)

-- Objects 1 and 2, of descriptors 6 and 7, that were created at the same time.
abbrev twin_base : ℕ → Base
twin_base x = record { fd = x + 5; priority = 100; last_used = 1 }

abbrev twins : Select subscription tick
twins = record start { bases = twin_base; objects = (6, 1) ∷ (7, 2) ∷ [] }

twin_forgotten_example :
    (end : Select subscription tick) × (poll_descriptors subscription tick 0
        (events (6 ∷ 7 ∷ []))
        false
        twins
      ≡ (object 1, end))
    × (end.states 2 ≡ (subscription.read_data (holding [])).1)
    × ((poll_descriptors subscription tick 0 (events []) false end).0 ≡ timeout)
unfolding lookup read_next process_reply admit has_data has_cached_data size messages push
twin_forgotten_example =
    twin_forgotten subscription tick 6 7 1 2 twins refl refl refl (λ e. cc) (refl, refl) refl refl
      refl refl
