-- ===== src/WebSocket/Tests.antt =====
-- A masked text frame on its way through the handlers of tornado/websocket.py, and the theorems at
-- such data.
use tornado3_1_1_search.Base.{ℕ, ◌≡◌, refl, true, false, [], ◌∷◌, ◌++◌, none, arith, Bytes}
use tornado3_1_1_search.Utf8.{decode}
use tornado3_1_1_search.WebSocket.{
  Message, text, Socket, Reaction, receive_frame, tell, handle_message,
}
use tornado3_1_1_search.WebSocket.Frame.{frame, apply_mask}
use tornado3_1_1_search.WebSocket.Receive.{on_frame_data, closing, run, on_frame_start}
use tornado3_1_1_search.WebSocket.RoundTrip.{CanSend, got, start, frame_round_trip}

abbrev fixed_mask : ℕ → Bytes
fixed_mask n = 1 ∷ 2 ∷ 3 ∷ 4 ∷ []

abbrev silent : Message → Reaction
silent m = record { calls = []; raises = false }

abbrev fresh : Socket
fresh = record {
  client_terminated = false;
  server_terminated = false;
  mask_outgoing = false;
  final_frame = false;
  frame_opcode = 0;
  opcode_is_control = false;
  masked_frame = false;
  frame_mask = [];
  frame_length = 0;
  fragmented_message_buffer = none;
  fragmented_message_opcode = 0;
  waiting = false;
  stream_closed = false;
  input = [];
  pending = none;
  output = [];
  draws = 0;
  told = [];
}

abbrev hello : Bytes
hello = 72 ∷ 101 ∷ 108 ∷ 108 ∷ 111 ∷ []

abbrev key : Bytes
key = fixed_mask 0

hello-frame :
    frame true true 1 key hello ≡ 0x81 ∷ 0x85 ∷ 1 ∷ 2 ∷ 3 ∷ 4 ∷ 73 ∷ 103 ∷ 111 ∷ 104 ∷ 110 ∷ []
unfolding frame
hello-frame = refl

hello_told :
    (run fixed_mask silent 3
      (receive_frame fixed_mask silent (record fresh { input = frame true true 1 key hello }))).told
    ≡ text hello ∷ []
unfolding run receive_frame frame on_frame_start tell handle_message decode apply_mask
hello_told = refl

hello-CanSend : CanSend true key hello
hello-CanSend = record {
  mask_length = refl;
  mask_bytes = omega arith;
  data_bytes = omega arith;
  data_length = omega arith;
}

frame_round_trip_example :
    run fixed_mask silent 4 (
      receive_frame fixed_mask silent
        (record fresh { input = frame true true 1 key hello ++ 0x89 ∷ [] }))
    ≡ run fixed_mask silent 1 (
        closing fixed_mask silent (
          on_frame_data fixed_mask silent hello (
            got fixed_mask silent key hello
              (0x89 ∷ [])
              1
              true
              (start fixed_mask silent key hello (0x89 ∷ []) 1 true true 1 fresh))))
frame_round_trip_example =
    frame_round_trip fixed_mask silent key hello (0x89 ∷ []) 1 true true 1 fresh hello-CanSend
      (omega arith) refl
