-- ===== src/Web/Handler/Splitting.antt =====
-- tornado/web.py: no header of a response can be split into two.
use tornado3_1_1_search.Base.{
  transfer_encoding_text, chunked_text, ℕ, refl, Bool, not, ◌&&◌, ◌||◌, ◌==◌, Bytes, if_intro,
  content_length_text,
}
use tornado3_1_1_search.HttpUtil.Headers.{Headers, contains}
use tornado3_1_1_search.Web.Handler.{IsClean, TransformOps, Handler, has_invalid}
use tornado3_1_1_search.Web.Handler.Life.{Op, op_set_cookie}
use tornado3_1_1_search.Web.Handler.Values.{
  CleanHeaders, has_invalid-IsClean, set_item-CleanHeaders,
}
use tornado3_1_1_search.Web.Handler.Transforms.{chunked, first_block}
use tornado3_1_1_search.Web.Handler.Clean.{Clean}

-- A transform of the output puts no other values in the headers than clean ones.
pub record KeepsClean {T : Type 0} (ops : TransformOps T) : Type 0 where
  pub first :
      (t : T) (code : ℕ) (h : Headers) (chunk : Bytes) (finishing : Bool)
      → CleanHeaders h
      → CleanHeaders (ops.first_chunk t code h chunk finishing).1.1.0

-- A cookie is set with a domain and a path without control characters.
abbrev pub IsCleanCall : Op → Type 0
IsCleanCall (op_set_cookie name value options) = IsClean options.domain × IsClean options.path
IsCleanCall op = Unit

-- The chunked encoding puts one clean value in the headers.
pub chunked-KeepsClean : (hex_of : ℕ → Bytes) → KeepsClean (chunked hex_of)
unfolding chunked first_block has_invalid
chunked-KeepsClean hex_of = record {
  first = λ chunking code h chunk finishing k.
      if_intro (λ (r : Bool × (ℕ × (Headers × Bytes))). CleanHeaders r.1.1.0)
        (chunking && not (code == 304)) _ _
        (λ e.
          if_intro (λ (r : Bool × (ℕ × (Headers × Bytes))). CleanHeaders r.1.1.0)
            (contains content_length_text h || contains transfer_encoding_text h) _ _ (λ f. k)
            (λ f.
              set_item-CleanHeaders transfer_encoding_text chunked_text h
                (has_invalid-IsClean chunked_text refl) k))
        (λ e. k);
}
