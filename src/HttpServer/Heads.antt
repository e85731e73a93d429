-- ===== src/HttpServer/Heads.antt =====
-- tornado/httpserver.py: `_on_headers` reads back the head of a request that was written.
use tornado3_1_1_search.Base.{
  ◌≡◌, refl, ap, ◌∙◌, true, false, some, List, [], ◌∷◌, ◌++◌, Bytes, Each, Each-append, length,
  drop, take-length, drop-length, find, split, starts_with, ◌==◌, arith, cr_lf_text,
  http_slash_text,
}
use tornado3_1_1_search.HttpUtil.Headers
use tornado3_1_1_search.HttpUtil.Headers.{Headers, add_all, no_headers, parse}
use tornado3_1_1_search.HttpUtil.Headers.Parse.{header_text, IsHeader, parse-lines_between}
use tornado3_1_1_search.HttpServer.{Python, Options}
use tornado3_1_1_search.HttpServer.Requests.{new_request}
use tornado3_1_1_search.HttpServer.RequestHead.{
  at_eol, cut, with_words, three_words, with_headers, remote_ip_of, parse_head,
}

abbrev pub IsWord : Bytes → Type 0
IsWord s = Each (λ c. ((c == 32) ≡ false) × ((13 == c) ≡ false)) s

-- `GET /path HTTP/1.1`
abbrev pub request_line : Bytes → Bytes → Bytes → Bytes
request_line method uri version = method ++ (32 ∷ (uri ++ (32 ∷ version)))

pub request_text : Bytes → Bytes → Bytes → List (Bytes × Bytes) → Bytes
request_text method uri version entries =
    request_line method uri version ++ (13 ∷ 10 ∷ (header_text entries ++ (13 ∷ 10 ∷ [])))

split-word :
    (s rest : Bytes)
    → IsWord s
    → split 32 (s ++ 32 ∷ rest) ≡ (s, (split 32 rest).0 ∷ (split 32 rest).1)
unfolding split
split-word [] rest w = refl
split-word (c ∷ s) rest w = rw (w.0.0, split-word s rest w.1) refl

split-last : (s : Bytes) → IsWord s → split 32 s ≡ (s, [])
unfolding split
split-last [] w = refl
split-last (c ∷ s) w = rw (w.0.0, split-last s w.1) refl

split-request_line :
    (method uri version : Bytes)
    → IsWord method
    → IsWord uri
    → IsWord version
    → split 32 (request_line method uri version) ≡ (method, uri ∷ version ∷ [])
split-request_line method uri version m u v =
    split-word method (uri ++ (32 ∷ version)) m
    ∙ ap (λ (p : Bytes × List Bytes). (method, p.0 ∷ p.1))
        (split-word uri version u
          ∙ ap (λ (p : Bytes × List Bytes). (uri, p.0 ∷ p.1)) (split-last version v))

find-eol :
    (s rest : Bytes)
    → Each (λ c. (13 == c) ≡ false) s
    → find cr_lf_text (s ++ 13 ∷ 10 ∷ rest) ≡ some (length s)
unfolding find starts_with
find-eol [] rest w = refl
find-eol (c ∷ s) rest w = ground (arith, find-eol s rest w.1, w.0)

no_cr : (s : Bytes) → IsWord s → Each (λ c. (13 == c) ≡ false) s
no_cr [] w = tt
no_cr (c ∷ s) w = (w.0.1, no_cr s w.1)

line-no_cr :
    (method uri version : Bytes)
    → IsWord method
    → IsWord uri
    → IsWord version
    → Each (λ c. (13 == c) ≡ false) (request_line method uri version)
line-no_cr method uri version m u v =
    Each-append (λ c. (13 == c) ≡ false) method _
      (
        no_cr method m,
        (refl, Each-append (λ c. (13 == c) ≡ false) uri _ (no_cr uri u, (refl, no_cr version v))),
      )

at_eol-line :
    (line rest : Bytes)
    → Each (λ c. (13 == c) ≡ false) line
    → at_eol (line ++ 13 ∷ 10 ∷ rest) ≡ (line, 13 ∷ 10 ∷ rest)
unfolding at_eol cut
at_eol-line line rest w =
    ap (cut (line ++ 13 ∷ 10 ∷ rest)) (find-eol line rest w)
    ∙ ap (λ s. (s, drop (length line) (line ++ 13 ∷ 10 ∷ rest))) (take-length line (13 ∷ 10 ∷ rest))
    ∙ ap (λ s. (line, s)) (drop-length line (13 ∷ 10 ∷ rest))

with_words-http :
    (python : Python) (options : Options) (rest : Bytes) (words : Bytes × Bytes × Bytes)
    → starts_with http_slash_text words.2 ≡ true
    → with_words python options rest (some words) ≡ with_headers python options words (parse rest)
unfolding with_words
with_words-http python options rest words e = rw e refl

-- The head of a request that is written with a blank between method, target and version, none of which has a
-- blank or the end of a line in it, a version of HTTP, and headers that can stand on a line, one to
-- a line, is read as the request with this method, target and version and with these headers added one by one.
pub parse_head-request_text :
    (python : Python) (options : Options) (method uri version : Bytes)
    (entries : List (Bytes × Bytes)) (h : Headers)
    → IsWord method
    → IsWord uri
    → IsWord version
    → starts_with http_slash_text version ≡ true
    → Each IsHeader entries
    → add_all entries no_headers ≡ Headers.ok h
    → parse_head python options (request_text method uri version entries)
      ≡ new_request python options method uri version h (remote_ip_of options)
unfolding parse_head request_text with_headers three_words
parse_head-request_text python options method uri version entries h m u v http w e =
    let line = request_line method uri version in
    let rest = 13 ∷ 10 ∷ (header_text entries ++ (13 ∷ 10 ∷ [])) in
    ap (λ (p : Bytes × Bytes). with_words python options p.1 (three_words (split 32 p.0)))
      (at_eol-line line (header_text entries ++ (13 ∷ 10 ∷ []))
        (line-no_cr method uri version m u v))
    ∙ ap (λ ws. with_words python options rest (three_words ws))
        (split-request_line method uri version m u v)
    ∙ with_words-http python options rest (method, uri, version) http
    ∙ ap (with_headers python options (method, uri, version)) (parse-lines_between entries w ∙ e)
