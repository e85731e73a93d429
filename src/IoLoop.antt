-- ===== src/IoLoop.antt =====
-- tornado/ioloop.py: `PollIOLoop` on one thread. The user's callbacks and handlers are known by
-- numbers, and so are timeouts, where the source uses the address of the object; a run of one of
-- them is the list of calls that it makes of the loop. What the clock and `poll` return is given
-- for each turn of the loop.
pub mod Start
pub mod Sound
pub mod Callbacks
pub mod Timeouts
pub mod Events
pub mod Periodic
pub mod Tests
use Prim.Native.Nat.{bit_or}
use tornado3_1_1_search.Base.{
  ℕ, suc, ◌+◌, ◌-◌, Bool, true, false, ◌&&◌, ◌||◌, Option, none, some, List, [], ◌∷◌, ◌++◌, map,
  ltb, ◌==◌, if◌then◌else◌,
}

-- `_Timeout`; `callback` is `none` once it is cancelled.
pub record Timeout : Type 0 where
  pub deadline : ℕ
  pub id : ℕ
  pub callback : Option ℕ

-- What was run, in order.
pub data Event : Type 0 where
  ran_callback : ℕ → Event
  ran_timeout : ℕ → Timeout → Event
  ran_handler : ℕ → ℕ → ℕ → Event
  no_handler : ℕ → ℕ → Event

pub record Loop : Type 0 where
  pub callbacks : List ℕ
  pub timeouts : List Timeout
  pub cancellations : ℕ
  pub handlers : List (ℕ × ℕ)
  pub events : List (ℕ × ℕ)
  -- The interest that `_impl` has for each descriptor, and the wake-ups written to the waker.
  pub watched : List (ℕ × ℕ)
  pub wakes : ℕ
  pub running : Bool
  pub stopped : Bool
  pub closing : Bool
  pub log : List Event

abbrev pub waker_fd : ℕ
waker_fd = 0

abbrev pub read_flag : ℕ
read_flag = 0x1

abbrev pub error_flag : ℕ
error_flag = 0x18

module _ {ℓ} {V : Type ℓ} where
  pub entry_of : ℕ → List (ℕ × V) → Option V
  entry_of fd [] = none
  entry_of fd (e ∷ es) = let rest = entry_of fd es in if fd == e.0 then some e.1 else rest

  pub put : ℕ → V → List (ℕ × V) → List (ℕ × V)
  put fd v [] = (fd, v) ∷ []
  put fd v (e ∷ es) = let rest = put fd v es in if fd == e.0 then (fd, v) ∷ es else e ∷ rest

  pub pop : ℕ → List (ℕ × V) → List (ℕ × V)
  pop fd [] = []
  pop fd (e ∷ es) = let rest = pop fd es in if fd == e.0 then rest else e ∷ rest

-- `__lt__`
pub before : Timeout → Timeout → Bool
before t u = ltb t.deadline u.deadline || t.deadline == u.deadline && ltb t.id u.id

-- `heappush`, with the heap as the list of its entries in the order in which they leave it.
pub heappush : Timeout → List Timeout → List Timeout
heappush t [] = t ∷ []
heappush t (u ∷ us) = let rest = heappush t us in if before t u then t ∷ u ∷ us else u ∷ rest

-- `timeout.callback = None`, for the object that the identity is that of.
pub cancel : ℕ → List Timeout → List Timeout
cancel id [] = []
cancel id (t ∷ ts) =
    let rest = cancel id ts in if t.id == id then record t { callback = none } ∷ ts else t ∷ rest

pub add_handler : ℕ → ℕ → ℕ → Loop → Loop
add_handler fd handler events s = record s {
  handlers = put fd handler s.handlers;
  watched = put fd (bit_or events error_flag) s.watched;
}

pub update_handler : ℕ → ℕ → Loop → Loop
update_handler fd events s = record s { watched = put fd (bit_or events error_flag) s.watched }

pub remove_handler : ℕ → Loop → Loop
remove_handler fd s = record s {
  handlers = pop fd s.handlers;
  events = pop fd s.events;
  watched = pop fd s.watched;
}

pub add_timeout : ℕ → ℕ → ℕ → Loop → Loop
add_timeout deadline id callback s = record s {
  timeouts =
      heappush (record { deadline = deadline; id = id; callback = some callback }) s.timeouts;
}

pub remove_timeout : ℕ → Loop → Loop
remove_timeout id s = record s {
  timeouts = cancel id s.timeouts;
  cancellations = s.cancellations + 1;
}

-- `add_callback` on the loop's thread, while the loop is not closing.
pub add_callback : ℕ → Loop → Loop
add_callback callback s = record s { callbacks = s.callbacks ++ callback ∷ [] }

pub stop : Loop → Loop
stop s = record s { running = false; stopped = true; wakes = s.wakes + 1 }

-- `close()`, without `all_fds`.
pub close : Loop → Loop
unfolding remove_handler
close s = remove_handler waker_fd (record s { closing = true })

-- `initialize`
pub init : Loop
unfolding add_handler
init = add_handler waker_fd waker_fd read_flag (record {
  callbacks = [];
  timeouts = [];
  cancellations = 0;
  handlers = [];
  events = [];
  watched = [];
  wakes = 0;
  running = false;
  stopped = false;
  closing = false;
  log = [];
})

pub data Op : Type 0 where
  op_callback : ℕ → Op
  op_timeout : ℕ → ℕ → ℕ → Op
  op_cancel : ℕ → Op
  op_handler : ℕ → ℕ → ℕ → Op
  op_update : ℕ → ℕ → Op
  op_forget : ℕ → Op
  op_stop op_close : Op

pub apply : Op → Loop → Loop
apply (op_callback callback) s = add_callback callback s
apply (op_timeout deadline id callback) s = add_timeout deadline id callback s
apply (op_cancel id) s = remove_timeout id s
apply (op_handler fd handler events) s = add_handler fd handler events s
apply (op_update fd events) s = update_handler fd events s
apply (op_forget fd) s = remove_handler fd s
apply op_stop s = stop s
apply op_close s = close s

-- A call that raises: `add_callback` on a loop that is closing.
pub raises : Op → Loop → Bool
raises (op_callback callback) s = s.closing
raises op s = false

-- The calls that a callback makes, up to one that raises. `_run_callback` and the loop over the
-- events catch what is raised.
pub run_ops : List Op → Loop → Loop
run_ops [] s = s
run_ops (op ∷ ops) s = let rest = run_ops ops (apply op s) in if raises op s then s else rest
