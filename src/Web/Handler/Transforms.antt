-- ===== src/Web/Handler/Transforms.antt =====
-- tornado/web.py: `ChunkedTransferEncoding` as a transform of the output.
use tornado3_1_1_search.Base.{
  chunked_text, transfer_encoding_text, content_length_text, text_0_cr_lf_cr_lf_text, cr_lf_text, ℕ,
  Bool, false, not, ◌&&◌, ◌||◌, ◌==◌, [], ◌++◌, if◌then◌else◌, Bytes, is_empty, length,
}
use tornado3_1_1_search.HttpUtil.Headers.{Headers, contains, set_item}
use tornado3_1_1_search.HttpServer.{HttpRequest}
use tornado3_1_1_search.HttpServer.Requests.{supports_http_1_1}
use tornado3_1_1_search.Web.Handler.{TransformOps}

-- The state is `_chunking`.
unfoldable pub new_chunking : HttpRequest → Bool
new_chunking request = supports_http_1_1 request

-- `hex_of` is `"%x" %`.
module _ (hex_of : ℕ → Bytes) where
  unfoldable pub chunk_block : Bool → Bytes → Bool → Bytes
  chunk_block chunking block finishing =
      let framed =
        if is_empty block then [] else hex_of (length block) ++ cr_lf_text ++ block ++ cr_lf_text in
      if chunking then (if finishing then framed ++ text_0_cr_lf_cr_lf_text else framed) else block

  unfoldable pub first_block : Bool → ℕ → Headers → Bytes → Bool → Bool × (ℕ × (Headers × Bytes))
  unfolding chunk_block
  first_block chunking code headers chunk finishing =
      let sized = contains content_length_text headers || contains transfer_encoding_text headers in
      if chunking && not (code == 304)
      then (if sized then (false, (code, (headers, chunk))) else (
        chunking,
        (
          code,
          (
            set_item transfer_encoding_text chunked_text headers,
            chunk_block chunking chunk finishing,
          ),
        ),
      ))
      else (chunking, (code, (headers, chunk)))

  unfoldable pub chunked : TransformOps Bool
  unfolding first_block chunk_block
  chunked = record {
    first_chunk = first_block;
    chunk = λ chunking block finishing. (chunking, chunk_block chunking block finishing);
  }
