-- ===== src/IoStream/Reading/Edges.antt =====
-- tornado/iostream.py: `read_until` without a callback, and `read_bytes` of a number below zero.
use tornado3_1_1_search.Base.{ℕ, suc, ◌+◌, Option, none, some, Bytes, ℤ, pos, negsuc}
use tornado3_1_1_search.IoStream.{Outcome, ok, Stream, run_callback, first_chunk, other_chunks}
use tornado3_1_1_search.IoStream.Reading.{try_inline_read, read_bytes_of, if_not_reading}

-- `read_until` with a callback that may be `None`
unfoldable pub read_until_or_none : Bytes → Option ℕ → Stream → Outcome × Stream
read_until_or_none delimiter callback s =
    if_not_reading s
      (try_inline_read (record s { read_callback = callback; read_delimiter = some delimiter }))

-- `_consume(-n)` for a number that is not 0: the first chunk is taken, whatever its size.
unfoldable pub consume_negative : ℕ → Stream → Bytes × Stream
consume_negative n s = (
  first_chunk s.read_buffer,
  record s { read_buffer = other_chunks s.read_buffer; read_buffer_size = s.read_buffer_size + n },
)

-- `read_bytes` of a number below zero, without a streaming callback: there are always enough bytes.
unfoldable pub read_negative : ℕ → ℕ → Stream → Outcome × Stream
unfolding consume_negative run_callback
read_negative n callback s =
    let (data_read, s') =
      consume_negative n
        (record s { read_callback = none; streaming_callback = none; read_bytes = none }) in
    if_not_reading s (ok tt, run_callback (some callback) (some data_read) s')

unfoldable pub read_number : ℤ → ℕ → Stream → Outcome × Stream
unfolding read_negative read_bytes_of
read_number (pos n) callback s = read_bytes_of n callback none s
read_number (negsuc n) callback s = read_negative (suc n) callback s
