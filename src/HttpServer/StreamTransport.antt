-- ===== src/HttpServer/StreamTransport.antt =====
-- tornado/iostream.py as the stream of an `HTTPConnection` of tornado/httpserver.py.
use tornado3_1_1_search.Base.{none, some}
use tornado3_1_1_search.IoStream.{Stream, writing, close}
use tornado3_1_1_search.IoStream.Reading.Edges.{read_until_or_none, read_number}
use tornado3_1_1_search.IoStream.Writing.{write}
use tornado3_1_1_search.IoStream.Contract.Writes.{close-Closes}
use tornado3_1_1_search.IoStream.Contract.Closed.{
  read_until_or_none-closed, read_number-closed, write-closed,
}
use tornado3_1_1_search.HttpServer.{Transport}

unfoldable pub stream_transport : Transport Stream
stream_transport = record {
  closed = λ s. s.closed;
  writing = writing;
  max_buffer_size = λ s. s.max_buffer_size;
  read_until = read_until_or_none;
  read_bytes = read_number;
  write = write;
  set_close_callback = λ callback s. record s { close_callback = some callback };
  close = close none;
  close-closed = λ s. (close-Closes none s).closed;
  read_until-closed = read_until_or_none-closed;
  read_bytes-closed = read_number-closed;
  write-closed = write-closed;
}
