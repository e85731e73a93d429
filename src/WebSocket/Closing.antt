-- ===== src/WebSocket/Closing.antt =====
-- tornado/websocket.py: the end of a connection.
use tornado3_1_1_search.Base.{ℕ, ◌≡◌, true, not, ◌||◌, [], ◌++◌, arith, Bytes, if◌then◌else◌}
use tornado3_1_1_search.WebSocket.{Message, Socket, Reaction, write_frame, close}
use tornado3_1_1_search.WebSocket.Frame.{frame}

module _ (urandom : ℕ → Bytes) (react : Message → Reaction) where
  -- Closing twice is closing once: the second call sends nothing and changes nothing.
  pub close_idem :
      (s : Socket) → close urandom react (close urandom react s) ≡ close urandom react s
  unfolding close write_frame
  close_idem s = ground arith

  pub record Closed (s s' : Socket) : Type 0 where
    pub ended : s'.server_terminated ≡ true
    pub client : s'.client_terminated ≡ s.client_terminated
    pub sent : s'.output ≡ (
        if s.server_terminated || s.stream_closed
        then s.output
        else s.output ++ frame s.mask_outgoing true 0x8 (urandom s.draws) [])
    pub stream : s'.stream_closed ≡ (s.stream_closed || s.client_terminated)
    pub waits : s'.waiting ≡ not s.client_terminated

  -- In every state `close` ends the server's side. It sends one close frame if the server had not closed yet and the
  -- stream is open, and nothing otherwise. It closes the stream if the client has closed too, and
  -- waits for the client if not.
  pub close-Closed : (s : Socket) → Closed s (close urandom react s)
  unfolding close write_frame
  close-Closed s = record {
    ended = ground arith;
    client = ground arith;
    sent = ground arith;
    stream = ground arith;
    waits = ground arith;
  }
