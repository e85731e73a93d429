-- ===== src/IoStream/Sound.antt =====
-- The invariant of a stream: what the counters say of the buffers and of the loop's queue, and that
-- no byte is lost, repeated or moved on its way through the two buffers.
pub mod Parts
pub mod Reads
pub mod ReadCalls
pub mod Writes
pub mod Steps
use tornado3_1_1_search.Base.{
  ℕ, suc, ◌+◌, ◌≡◌, refl, ap, sym, ◌∙◌, Bool, true, List, [], ◌∷◌, ◌++◌, append_assoc, Option, none,
  some, arith, length, join, Each, Bytes,
}
use tornado3_1_1_search.Deque.Merge.{NonEmpty}
use tornado3_1_1_search.IoStream.{Interest, LoopCall, wrapper, close_later, Stream}

-- The bytes that a queue of calls hands to the callbacks, in order.
abbrev pub data_of : List LoopCall → Bytes
data_of [] = []
data_of (wrapper callback none ∷ queue) = data_of queue
data_of (wrapper callback (some bytes) ∷ queue) = bytes ++ data_of queue
data_of (close_later ∷ queue) = data_of queue

abbrev pub wrappers : List LoopCall → ℕ
wrappers [] = 0
wrappers (wrapper callback args ∷ queue) = suc (wrappers queue)
wrappers (close_later ∷ queue) = wrappers queue

pub data_of-append : (xs ys : List LoopCall) → data_of (xs ++ ys) ≡ data_of xs ++ data_of ys
data_of-append [] ys = refl
data_of-append (wrapper c none ∷ xs) ys = data_of-append xs ys
data_of-append (wrapper c (some b) ∷ xs) ys =
    ap (λ l. b ++ l) (data_of-append xs ys) ∙ sym (append_assoc b (data_of xs) (data_of ys))
data_of-append (close_later ∷ xs) ys = data_of-append xs ys

pub wrappers-append : (xs ys : List LoopCall) → wrappers (xs ++ ys) ≡ wrappers xs + wrappers ys
wrappers-append [] ys = omega arith
wrappers-append (wrapper c a ∷ xs) ys = omega (arith, wrappers-append xs ys)
wrappers-append (close_later ∷ xs) ys = wrappers-append xs ys

-- What the invariant is about: operations that change other fields only leave it as it is.
pub record Core : Type 0 where
  pub read_buffer : List Bytes
  pub read_buffer_size : ℕ
  pub write_buffer : List Bytes
  pub pending_callbacks : ℕ
  pub state : Option Interest
  pub handler : Option Interest
  pub closed : Bool
  pub queue : List LoopCall
  pub ran : List LoopCall
  pub bytes_in : Bytes
  pub written : Bytes
  pub sent : Bytes

abbrev pub core : Stream → Core
core s = record {
  read_buffer = s.read_buffer;
  read_buffer_size = s.read_buffer_size;
  write_buffer = s.write_buffer;
  pending_callbacks = s.pending_callbacks;
  state = s.state;
  handler = s.handler;
  closed = s.closed;
  queue = s.queue;
  ran = s.ran;
  bytes_in = s.bytes_in;
  written = s.written;
  sent = s.sent;
}

-- `k` is the number of callbacks that `_handle_read` and `_try_inline_read` pretend to have.
pub record IsSoundCore (k : ℕ) (c : Core) : Type 0 where
  pub sized : c.read_buffer_size ≡ length (join c.read_buffer)
  pub chunks : Each NonEmpty c.read_buffer
  pub pending : c.pending_callbacks ≡ wrappers c.queue + k
  pub watched : c.handler ≡ c.state
  pub detached : c.closed ≡ true → c.state ≡ none
  pub reads : data_of c.ran ++ (data_of c.queue ++ join c.read_buffer) ≡ c.bytes_in
  pub writes : c.sent ++ join c.write_buffer ≡ c.written

pub record IsSound (k : ℕ) (s : Stream) : Type 0 where
  pub facts : IsSoundCore k (core s)
  pub open facts use *
