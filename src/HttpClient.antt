-- ===== src/HttpClient.antt =====
-- tornado/simple_httpclient.py: the queue of `SimpleAsyncHTTPClient`. A request with its callback is
-- a number, and so is the key of an active request. `at_once` says which requests fail while their
-- connection is made, so that they are released before `_handle_request` returns.
pub mod Connection
pub mod Queue
pub mod Tests
use tornado3_1_1_search.Base.{
  ℕ, zero, suc, ◌+◌, Bool, true, false, List, [], ◌∷◌, ◌++◌, ltb, ◌==◌, not, ◌&&◌, is_empty,
  if◌then◌else◌, length,
}

pub record Client : Type 0 where
  pub max_clients : ℕ
  pub queue : List ℕ
  pub active : List (ℕ × ℕ)
  -- The keys that `object()` has made, and the requests that were started, in order.
  pub made : ℕ
  pub started : List ℕ

-- `initialize`
pub init : ℕ → Client
init max_clients = record {
  max_clients = max_clients;
  queue = [];
  active = [];
  made = 0;
  started = [];
}

pub has_key : ℕ → List (ℕ × ℕ) → Bool
has_key key [] = false
has_key key (e ∷ es) = let rest = has_key key es in if key == e.0 then true else rest

-- `del self.active[key]`
pub without : ℕ → List (ℕ × ℕ) → List (ℕ × ℕ)
without key [] = []
without key (e ∷ es) = let rest = without key es in if key == e.0 then es else e ∷ rest

-- The test of the loop: a request waits, and fewer than `max_clients` are active.
pub has_room : Client → Bool
has_room s = not (is_empty s.queue) && ltb (length s.active) s.max_clients

-- The first request of the queue becomes active under a new key.
pub start_request : ℕ → List ℕ → Client → Client
start_request request queue s = record s {
  queue = queue;
  active = s.active ++ (s.made, request) ∷ [];
  made = s.made + 1;
  started = s.started ++ request ∷ [];
}

pub start_first : List ℕ → Client → Client
unfolding start_request
start_first [] s = s
start_first (request ∷ queue) s = start_request request queue s

pub first_fails : (ℕ → Bool) → List ℕ → Bool
first_fails at_once [] = false
first_fails at_once (request ∷ queue) = at_once request

pub data Op : Type 0 where
  op_fetch op_release : ℕ → Op

module _ (at_once : ℕ → Bool) where
  -- `_process_queue`, with fuel for each request of the queue. A request that fails at once releases
  -- its key from inside `_handle_request`, which processes the queue before the loop goes on.
  pub process_queue : ℕ → Client → Client
  unfolding start_first first_fails
  process_queue zero s = s
  process_queue (suc fuel) s =
      let s' = start_first s.queue s in
      let inner = process_queue fuel (record s' { active = without s.made s'.active }) in
      let rest = process_queue fuel (if first_fails at_once s.queue then inner else s') in
      if has_room s then rest else s

  pub fetch_impl : ℕ → Client → Client
  fetch_impl request s =
      process_queue (suc (length s.queue)) (record s { queue = s.queue ++ request ∷ [] })

  -- `_release_fetch`; for a key that is not active it raises and changes nothing.
  pub release_fetch : ℕ → Client → Client
  release_fetch key s =
      let s' = record s { active = without key s.active } in
      let rest = process_queue (length s.queue) s' in if has_key key s.active then rest else s

  pub apply : Op → Client → Client
  apply (op_fetch request) s = fetch_impl request s
  apply (op_release key) s = release_fetch key s

  pub run : List Op → Client → Client
  run [] s = s
  run (op ∷ ops) s = run ops (apply op s)
