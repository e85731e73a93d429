-- ===== src/IoStream.antt =====
-- tornado/iostream.py: the state of `BaseIOStream` and `IOStream`, and the parts that every
-- operation shares. What `recv` and `send` will return is a list that the operations consume; the
-- io loop is the handler that it has for the file descriptor and its queue of callbacks.
pub mod Reading
pub mod Writing
pub mod Loop
pub mod Sound
pub mod Contract
pub mod Tests
use tornado3_1_1_search.Base.{
  ℕ, ◌+◌, ◌-◌, ◌≤◌, ◌≡◌, length, Bool, true, false, ◌&&◌, ◌||◌, not, List, [], ◌∷◌, ◌++◌, Option,
  none, some, is_some, ltb, ◌==◌, if◌then◌else◌, Bytes,
}
use tornado3_1_1_search.Deque.{merge_prefix}

pub data Errno : Type 0 where
  ewouldblock eagain econnreset epipe einprogress : Errno
  other : ℕ → Errno

pub data Error : Type 0 where
  stream_closed buffer_full already_reading no_state no_socket user_error : Error
  socket_error : Errno → Error

pub data Result {ℓ} (A : Type ℓ) : Type ℓ where
  ok : A → Result A
  raised : Error → Result A

-- What a method without a result returns, or raises.
abbrev pub Outcome : Type 0
Outcome = Result (Unit {0})

-- What one `recv` does; no bytes means the end of the stream.
pub data Recv : Type 0 where
  received : Bytes → Recv
  recv_error : Errno → Recv

-- What one `send` does: it takes at most `n` of the bytes that it is given, or fails.
pub data Send : Type 0 where
  room : ℕ → Send
  send_error : Errno → Send

-- A compiled regular expression: `search` gives the end of the first match in a text, which is a
-- position in that text. The module `re` is not part of the program.
pub record Regex : Type 0 where
  pub search : Bytes → Option ℕ
  pub end_le : (text : Bytes) (loc : ℕ) → search text ≡ some loc → loc ≤ length text

-- The io loop always watches for errors; the two flags are what it watches for besides.
pub record Interest : Type 0 where
  pub reads : Bool
  pub writes : Bool

-- A callback that `_run_callback` has wrapped, with its argument, or a plain `self.close`.
pub data LoopCall : Type 0 where
  wrapper : Option ℕ → Option Bytes → LoopCall
  close_later : LoopCall

pub record Stream : Type 0 where
  pub max_buffer_size : ℕ
  pub error : Option Error
  pub read_buffer : List Bytes
  pub write_buffer : List Bytes
  pub read_buffer_size : ℕ
  pub write_buffer_frozen : Bool
  pub read_delimiter : Option Bytes
  pub read_regex : Option Regex
  pub read_bytes : Option ℕ
  pub read_until_close : Bool
  pub read_callback : Option ℕ
  pub streaming_callback : Option ℕ
  pub write_callback : Option ℕ
  pub close_callback : Option ℕ
  pub connect_callback : Option ℕ
  pub connecting : Bool
  pub state : Option Interest
  pub pending_callbacks : ℕ
  pub closed : Bool
  -- the socket and the io loop
  pub incoming : List Recv
  pub outgoing : List Send
  pub handler : Option Interest
  pub queue : List LoopCall
  -- history: the calls that the loop has made, and the bytes that came in, were written, and left
  pub ran : List LoopCall
  pub bytes_in : Bytes
  pub written : Bytes
  pub sent : Bytes

-- `__init__`, for a socket whose calls will return `incoming` and `outgoing`
unfoldable pub init : ℕ → List Recv → List Send → Stream
init max_buffer_size incoming outgoing = record {
  max_buffer_size = if max_buffer_size == 0 then 104857600 else max_buffer_size;
  error = none;
  read_buffer = [];
  write_buffer = [];
  read_buffer_size = 0;
  write_buffer_frozen = false;
  read_delimiter = none;
  read_regex = none;
  read_bytes = none;
  read_until_close = false;
  read_callback = none;
  streaming_callback = none;
  write_callback = none;
  close_callback = none;
  connect_callback = none;
  connecting = false;
  state = none;
  pending_callbacks = 0;
  closed = false;
  incoming = incoming;
  outgoing = outgoing;
  handler = none;
  queue = [];
  ran = [];
  bytes_in = [];
  written = [];
  sent = [];
}

-- `reading` and `writing`
abbrev pub reading : Stream → Bool
reading s = is_some s.read_callback

abbrev pub writing : Stream → Bool
writing s = elim s.write_buffer [ [] ↦ false | chunk ∷ rest ↦ true ]

-- `_run_callback` up to the wrapper, which the loop runs later
pub run_callback : Option ℕ → Option Bytes → Stream → Stream
run_callback callback args s = record s {
  pending_callbacks = s.pending_callbacks + 1;
  queue = s.queue ++ wrapper callback args ∷ [];
}

pub maybe_run_close_callback : Stream → Stream
unfolding run_callback
maybe_run_close_callback s =
    if s.closed && is_some s.close_callback && s.pending_callbacks == 0
    then record (run_callback s.close_callback none (record s { close_callback = none })) {
      read_callback = none;
      write_callback = none;
    }
    else s

abbrev pub first_chunk : List Bytes → Bytes
first_chunk [] = []
first_chunk (chunk ∷ rest) = chunk

abbrev pub other_chunks : List Bytes → List Bytes
other_chunks [] = []
other_chunks (chunk ∷ rest) = rest

pub consume : ℕ → Stream → Bytes × Stream
consume loc s =
    if loc == 0
    then ([], s)
    else let merged = merge_prefix s.read_buffer loc in
      (
        first_chunk merged,
        record s { read_buffer = other_chunks merged; read_buffer_size = s.read_buffer_size - loc },
      )

-- `self._run_callback(callback, self._consume(loc))`
pub run_with_data : Option ℕ → ℕ → Stream → Stream
unfolding consume run_callback
run_with_data callback loc s =
    let (data_read, s') = consume loc s in run_callback callback (some data_read) s'

-- what the `if self._read_until_close:` block of `close` hands to the streaming callback
pub streamed_rest : Stream → Stream
streamed_rest s =
    if is_some s.streaming_callback && ltb 0 s.read_buffer_size
    then run_with_data s.streaming_callback s.read_buffer_size s
    else s

-- the `if self._read_until_close:` block of `close`
pub finish_read_until_close : Stream → Stream
unfolding streamed_rest
finish_read_until_close s =
    let s1 = streamed_rest s in
    if s.read_until_close
    then run_with_data s1.read_callback s1.read_buffer_size
        (record s1 { read_callback = none; read_until_close = false })
    else s

-- `remove_handler`, `close_fd` and the flag
pub detach : Stream → Stream
detach s = record s { state = none; handler = none; closed = true }

abbrev pub or_else {ℓ} : {A : Type ℓ} → Option A → Option A → Option A
or_else none b = b
or_else (some a) b = some a

-- `close(exc_info)`; the argument is the exception that `exc_info` stands for.
pub close : Option Error → Stream → Stream
unfolding finish_read_until_close detach
close exc s = maybe_run_close_callback (
    if s.closed
    then s
    else detach (finish_read_until_close (record s { error = or_else exc s.error })))

pub data Flag : Type 0 where
  for_read for_write : Flag

abbrev pub flag : Flag → Interest
flag for_read = record { reads = true; writes = false }
flag for_write = record { reads = false; writes = true }

abbrev pub has : Interest → Flag → Bool
has i for_read = i.reads
has i for_write = i.writes

abbrev with_flag : Interest → Flag → Interest
with_flag i for_read = record i { reads = true }
with_flag i for_write = record i { writes = true }

abbrev pub watch : Interest → Stream → Stream
watch i s = record s { state = some i; handler = some i }

pub add_io_state : Flag → Stream → Stream
add_io_state f s = if s.closed then s else elim s.state [
  | none ↦ watch (flag f) s
  | some i ↦ if has i f then s else watch (with_flag i f) s
]

pub maybe_add_error_listener : Stream → Stream
unfolding add_io_state
maybe_add_error_listener s =
    if not (is_some s.state) && s.pending_callbacks == 0
    then if s.closed then maybe_run_close_callback s else add_io_state for_read s
    else s
