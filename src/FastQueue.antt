-- ===== src/FastQueue.antt =====
-- The native asyncio queue (crates/pyshim/src/fastqueue.rs), and how the coroutines of
-- python/cadeloop/queues.py call it. Items are numbers. Futures stand in lists, one for the waiters of each
-- kind, and are named by their position; resolving one runs no other code at once, as asyncio's do. A `maxsize`
-- below 0 is 0.
pub mod Wake
pub mod Steps
pub mod Live
pub mod Runs
mod Tests
use cadeloop.Prelude.{
  ℕ, zero, suc, ◌+◌, ◌-◌, Bool, true, false, ◌&&◌, not, Option, none, some, List, [], ◌∷◌, ◌++◌,
  length, get_or, set, ◌==◌, ltb, leb, if◌then◌else◌,
}

-- `closed` waits on a loop that was closed, where `set_result` fails. `spent` was resolved, and its task has
-- gone on since.
pub data FutState : Type 0 where
  pending closed resolved cancelled spent : FutState

abbrev pub Futures : Type 0
Futures = List FutState

abbrev pub state_of : Futures → ℕ → FutState
state_of s f = get_or s f spent

-- Not done, and `set_result` goes through.
abbrev pub can_wake : FutState → Bool
can_wake pending = true
can_wake _ = false

pub wake_next : List ℕ → Futures → List ℕ × Futures
wake_next [] s = ([], s)
wake_next (f ∷ l) s =
    let rest = wake_next l s in if can_wake (state_of s f) then (l, set s f resolved) else rest

pub record FastQueue : Type 0 where
  pub maxsize : ℕ
  pub items : List ℕ
  pub getters : List ℕ
  pub putters : List ℕ
  pub unfinished : ℕ
  pub join_waiters : List ℕ

pub new_queue : ℕ → FastQueue
new_queue maxsize = record {
  maxsize = maxsize;
  items = [];
  getters = [];
  putters = [];
  unfinished = 0;
  join_waiters = [];
}

abbrev pub is_full : FastQueue → Bool
is_full q = ltb 0 q.maxsize && leb q.maxsize (length q.items)

-- The queue with the futures of its getters, its putters and its joiners.
pub record World : Type 0 where
  pub queue : FastQueue
  pub gets : Futures
  pub puts : Futures
  pub joins : Futures

pub put_now : World → ℕ → World
put_now w item =
    let q = w.queue in
    let (getters, gets) = wake_next q.getters w.gets in
    record w {
      queue = record q {
        items = q.items ++ item ∷ [];
        unfinished = q.unfinished + 1;
        getters = getters;
      };
      gets = gets;
    }

-- `get_now` once the items are known.
pub get_from : World → List ℕ → Option ℕ × World
get_from w [] = (none, w)
get_from w (item ∷ rest) =
    let q = w.queue in
    let (putters, puts) = wake_next q.putters w.puts in
    (some item, record w { queue = record q { items = rest; putters = putters }; puts = puts })

pub get_now : World → Option ℕ × World
get_now w = get_from w w.queue.items

-- `try_put`; `put_nowait` raises QueueFull where this answers false.
pub try_put : World → ℕ → Bool × World
try_put w item = if is_full w.queue then (false, w) else (true, put_now w item)

pub park_getter : World → ℕ → World
park_getter w f = record w { queue = record w.queue { getters = w.queue.getters ++ f ∷ [] } }

pub park_putter : World → ℕ → World
park_putter w f = record w { queue = record w.queue { putters = w.queue.putters ++ f ∷ [] } }

-- The first entry that is the future goes.
pub remove : ℕ → List ℕ → List ℕ
remove f [] = []
remove f (x ∷ l) = let rest = x ∷ remove f l in if x == f then l else rest

-- `Future.cancel`
abbrev pub after_cancel : FutState → FutState
after_cancel pending = cancelled
after_cancel closed = cancelled
after_cancel st = st

abbrev pub is_cancelled : FutState → Bool
is_cancelled cancelled = true
is_cancelled _ = false

abbrev pub is_empty : List ℕ → Bool
is_empty [] = true
is_empty (_ ∷ _) = false

abbrev pub dropped_getter : World → ℕ → World
dropped_getter w f = record w {
  queue = record w.queue { getters = remove f w.queue.getters };
  gets = set w.gets f (after_cancel (state_of w.gets f));
}

pub getter_recovery : World → ℕ → World
getter_recovery w f =
    let w' = dropped_getter w f in
    let (getters, gets) = wake_next w'.queue.getters w'.gets in
    if not (is_empty w'.queue.items) && not (is_cancelled (state_of w'.gets f))
    then record w' { queue = record w'.queue { getters = getters }; gets = gets }
    else w'

abbrev pub dropped_putter : World → ℕ → World
dropped_putter w f = record w {
  queue = record w.queue { putters = remove f w.queue.putters };
  puts = set w.puts f (after_cancel (state_of w.puts f));
}

pub putter_recovery : World → ℕ → World
putter_recovery w f =
    let w' = dropped_putter w f in
    let (putters, puts) = wake_next w'.queue.putters w'.puts in
    if not (is_full w'.queue) && not (is_cancelled (state_of w'.puts f))
    then record w' { queue = record w'.queue { putters = putters }; puts = puts }
    else w'

-- The loop of `task_done` over the waiters that it took: a future that is done, or whose loop is closed, stays
-- as it is.
pub wake_all : List ℕ → Futures → Futures
wake_all [] s = s
wake_all (f ∷ l) s = wake_all l (if can_wake (state_of s f) then set s f resolved else s)

-- `none` is the ValueError "task_done() called too many times".
done_from : World → ℕ → Option World
done_from w zero = none
done_from w (suc n) =
    let q = record w.queue { unfinished = n } in
    if n == 0
    then some (record w {
      queue = record q { join_waiters = [] };
      joins = wake_all q.join_waiters w.joins;
    })
    else some (record w { queue = q })

pub task_done : World → Option World
unfolding done_from
task_done w = done_from w w.queue.unfinished

pub park_joiner : World → ℕ → World
park_joiner w f = record w {
  queue = record w.queue { join_waiters = w.queue.join_waiters ++ f ∷ [] };
}

pub unjoin : World → ℕ → World
unjoin w f = record w { queue = record w.queue { join_waiters = remove f w.queue.join_waiters } }
