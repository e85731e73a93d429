-- ===== src/Base/Words.antt =====
-- Texts that the source compares with, each under its words.
use mathlib.Core.List.{[], ◌∷◌}
use tornado3_1_1_search.Base.ByteStrings.{Bytes}

-- `X-Forwarded-For`
abbrev pub x_forwarded_for_text : Bytes
x_forwarded_for_text =
    88 ∷ 45 ∷ 70 ∷ 111 ∷ 114 ∷ 119 ∷ 97 ∷ 114 ∷ 100 ∷ 101 ∷ 100 ∷ 45 ∷ 70 ∷ 111 ∷ 114 ∷ []

-- `X-Real-Ip`
abbrev pub x_real_ip_text : Bytes
x_real_ip_text = 88 ∷ 45 ∷ 82 ∷ 101 ∷ 97 ∷ 108 ∷ 45 ∷ 73 ∷ 112 ∷ []

-- `X-Scheme`
abbrev pub x_scheme_text : Bytes
x_scheme_text = 88 ∷ 45 ∷ 83 ∷ 99 ∷ 104 ∷ 101 ∷ 109 ∷ 101 ∷ []

-- `X-Forwarded-Proto`
abbrev pub x_forwarded_proto_text : Bytes
x_forwarded_proto_text =
    88 ∷ 45 ∷ 70 ∷ 111 ∷ 114 ∷ 119 ∷ 97 ∷ 114 ∷ 100 ∷ 101 ∷ 100 ∷ 45 ∷ 80 ∷ 114 ∷ 111 ∷ 116 ∷ 111
    ∷ []

-- `http`
abbrev pub http_text : Bytes
http_text = 104 ∷ 116 ∷ 116 ∷ 112 ∷ []

-- `https`
abbrev pub https_text : Bytes
https_text = 104 ∷ 116 ∷ 116 ∷ 112 ∷ 115 ∷ []

-- `Host`
abbrev pub host_text : Bytes
host_text = 72 ∷ 111 ∷ 115 ∷ 116 ∷ []

-- `127.0.0.1`
abbrev pub loopback_text : Bytes
loopback_text = 49 ∷ 50 ∷ 55 ∷ 46 ∷ 48 ∷ 46 ∷ 48 ∷ 46 ∷ 49 ∷ []

-- `HTTP/1.1`
abbrev pub http_slash_1_dot_1_text : Bytes
http_slash_1_dot_1_text = 72 ∷ 84 ∷ 84 ∷ 80 ∷ 47 ∷ 49 ∷ 46 ∷ 49 ∷ []

-- `\r\n`
abbrev pub cr_lf_text : Bytes
cr_lf_text = 13 ∷ 10 ∷ []

-- `0.0.0.0`
abbrev pub any_address_text : Bytes
any_address_text = 48 ∷ 46 ∷ 48 ∷ 46 ∷ 48 ∷ 46 ∷ 48 ∷ []

-- `HTTP/`
abbrev pub http_slash_text : Bytes
http_slash_text = 72 ∷ 84 ∷ 84 ∷ 80 ∷ 47 ∷ []

-- `Connection`
abbrev pub connection_text : Bytes
connection_text = 67 ∷ 111 ∷ 110 ∷ 110 ∷ 101 ∷ 99 ∷ 116 ∷ 105 ∷ 111 ∷ 110 ∷ []

-- `HEAD`
abbrev pub head_text : Bytes
head_text = 72 ∷ 69 ∷ 65 ∷ 68 ∷ []

-- `GET`
abbrev pub get_text : Bytes
get_text = 71 ∷ 69 ∷ 84 ∷ []

-- `close`
abbrev pub close_text : Bytes
close_text = 99 ∷ 108 ∷ 111 ∷ 115 ∷ 101 ∷ []

-- `Content-Length`
abbrev pub content_length_text : Bytes
content_length_text =
    67 ∷ 111 ∷ 110 ∷ 116 ∷ 101 ∷ 110 ∷ 116 ∷ 45 ∷ 76 ∷ 101 ∷ 110 ∷ 103 ∷ 116 ∷ 104 ∷ []

-- `keep-alive`
abbrev pub keep_alive_text : Bytes
keep_alive_text = 107 ∷ 101 ∷ 101 ∷ 112 ∷ 45 ∷ 97 ∷ 108 ∷ 105 ∷ 118 ∷ 101 ∷ []

-- `Expect`
abbrev pub expect_text : Bytes
expect_text = 69 ∷ 120 ∷ 112 ∷ 101 ∷ 99 ∷ 116 ∷ []

-- `100-continue`
abbrev pub continue_text : Bytes
continue_text = 49 ∷ 48 ∷ 48 ∷ 45 ∷ 99 ∷ 111 ∷ 110 ∷ 116 ∷ 105 ∷ 110 ∷ 117 ∷ 101 ∷ []

-- `POST`
abbrev pub post_text : Bytes
post_text = 80 ∷ 79 ∷ 83 ∷ 84 ∷ []

-- `PATCH`
abbrev pub patch_text : Bytes
patch_text = 80 ∷ 65 ∷ 84 ∷ 67 ∷ 72 ∷ []

-- `PUT`
abbrev pub put_text : Bytes
put_text = 80 ∷ 85 ∷ 84 ∷ []

-- `Content-Type`
abbrev pub content_type_text : Bytes
content_type_text = 67 ∷ 111 ∷ 110 ∷ 116 ∷ 101 ∷ 110 ∷ 116 ∷ 45 ∷ 84 ∷ 121 ∷ 112 ∷ 101 ∷ []

-- `Date`
abbrev pub date_text : Bytes
date_text = 68 ∷ 97 ∷ 116 ∷ 101 ∷ []

-- `text/html; charset=UTF-8`
abbrev pub html_type_text : Bytes
html_type_text =
    116 ∷ 101 ∷ 120 ∷ 116 ∷ 47 ∷ 104 ∷ 116 ∷ 109 ∷ 108 ∷ 59 ∷ 32 ∷ 99 ∷ 104 ∷ 97 ∷ 114 ∷ 115 ∷ 101
    ∷ 116 ∷ 61 ∷ 85 ∷ 84 ∷ 70 ∷ 45 ∷ 56 ∷ []

-- `Server`
abbrev pub server_text : Bytes
server_text = 83 ∷ 101 ∷ 114 ∷ 118 ∷ 101 ∷ 114 ∷ []

-- `TornadoServer/3.1.1`
abbrev pub server_version_text : Bytes
server_version_text =
    84 ∷ 111 ∷ 114 ∷ 110 ∷ 97 ∷ 100 ∷ 111 ∷ 83 ∷ 101 ∷ 114 ∷ 118 ∷ 101 ∷ 114 ∷ 47 ∷ 51 ∷ 46 ∷ 49
    ∷ 46 ∷ 49 ∷ []

-- `OK`
abbrev pub ok_text : Bytes
ok_text = 79 ∷ 75 ∷ []

-- `: `
abbrev pub colon_space_text : Bytes
colon_space_text = 58 ∷ 32 ∷ []

-- `Set-Cookie: `
abbrev pub set_cookie_start_text : Bytes
set_cookie_start_text = 83 ∷ 101 ∷ 116 ∷ 45 ∷ 67 ∷ 111 ∷ 111 ∷ 107 ∷ 105 ∷ 101 ∷ 58 ∷ 32 ∷ []

-- ` `
abbrev pub space_text : Bytes
space_text = 32 ∷ []

-- `\r\n\r\n`
abbrev pub cr_lf_cr_lf_text : Bytes
cr_lf_cr_lf_text = 13 ∷ 10 ∷ 13 ∷ 10 ∷ []

-- `"`
abbrev pub quote_text : Bytes
quote_text = 34 ∷ []

-- `Etag`
abbrev pub etag_text : Bytes
etag_text = 69 ∷ 116 ∷ 97 ∷ 103 ∷ []

-- `If-None-Match`
abbrev pub if_none_match_text : Bytes
if_none_match_text = 73 ∷ 102 ∷ 45 ∷ 78 ∷ 111 ∷ 110 ∷ 101 ∷ 45 ∷ 77 ∷ 97 ∷ 116 ∷ 99 ∷ 104 ∷ []

-- `Allow`
abbrev pub allow_text : Bytes
allow_text = 65 ∷ 108 ∷ 108 ∷ 111 ∷ 119 ∷ []

-- `Content-Encoding`
abbrev pub content_encoding_text : Bytes
content_encoding_text =
    67 ∷ 111 ∷ 110 ∷ 116 ∷ 101 ∷ 110 ∷ 116 ∷ 45 ∷ 69 ∷ 110 ∷ 99 ∷ 111 ∷ 100 ∷ 105 ∷ 110 ∷ 103 ∷ []

-- `Content-Language`
abbrev pub content_language_text : Bytes
content_language_text =
    67 ∷ 111 ∷ 110 ∷ 116 ∷ 101 ∷ 110 ∷ 116 ∷ 45 ∷ 76 ∷ 97 ∷ 110 ∷ 103 ∷ 117 ∷ 97 ∷ 103 ∷ 101 ∷ []

-- `Content-MD5`
abbrev pub content_md5_text : Bytes
content_md5_text = 67 ∷ 111 ∷ 110 ∷ 116 ∷ 101 ∷ 110 ∷ 116 ∷ 45 ∷ 77 ∷ 68 ∷ 53 ∷ []

-- `Content-Range`
abbrev pub content_range_text : Bytes
content_range_text = 67 ∷ 111 ∷ 110 ∷ 116 ∷ 101 ∷ 110 ∷ 116 ∷ 45 ∷ 82 ∷ 97 ∷ 110 ∷ 103 ∷ 101 ∷ []

-- `Last-Modified`
abbrev pub last_modified_text : Bytes
last_modified_text = 76 ∷ 97 ∷ 115 ∷ 116 ∷ 45 ∷ 77 ∷ 111 ∷ 100 ∷ 105 ∷ 102 ∷ 105 ∷ 101 ∷ 100 ∷ []

-- `Location`
abbrev pub location_text : Bytes
location_text = 76 ∷ 111 ∷ 99 ∷ 97 ∷ 116 ∷ 105 ∷ 111 ∷ 110 ∷ []

-- `<html><title>`
abbrev pub page_start_text : Bytes
page_start_text = 60 ∷ 104 ∷ 116 ∷ 109 ∷ 108 ∷ 62 ∷ 60 ∷ 116 ∷ 105 ∷ 116 ∷ 108 ∷ 101 ∷ 62 ∷ []

-- `</title><body>`
abbrev pub page_middle_text : Bytes
page_middle_text = 60 ∷ 47 ∷ 116 ∷ 105 ∷ 116 ∷ 108 ∷ 101 ∷ 62 ∷ 60 ∷ 98 ∷ 111 ∷ 100 ∷ 121 ∷ 62 ∷ []

-- `</body></html>`
abbrev pub page_end_text : Bytes
page_end_text = 60 ∷ 47 ∷ 98 ∷ 111 ∷ 100 ∷ 121 ∷ 62 ∷ 60 ∷ 47 ∷ 104 ∷ 116 ∷ 109 ∷ 108 ∷ 62 ∷ []

-- `0\r\n\r\n`
abbrev pub text_0_cr_lf_cr_lf_text : Bytes
text_0_cr_lf_cr_lf_text = 48 ∷ 13 ∷ 10 ∷ 13 ∷ 10 ∷ []

-- `Transfer-Encoding`
abbrev pub transfer_encoding_text : Bytes
transfer_encoding_text =
    84 ∷ 114 ∷ 97 ∷ 110 ∷ 115 ∷ 102 ∷ 101 ∷ 114 ∷ 45 ∷ 69 ∷ 110 ∷ 99 ∷ 111 ∷ 100 ∷ 105 ∷ 110 ∷ 103
    ∷ []

-- `chunked`
abbrev pub chunked_text : Bytes
chunked_text = 99 ∷ 104 ∷ 117 ∷ 110 ∷ 107 ∷ 101 ∷ 100 ∷ []

-- `Keep-Alive`
abbrev pub keep_alive_capital_text : Bytes
keep_alive_capital_text = 75 ∷ 101 ∷ 101 ∷ 112 ∷ 45 ∷ 65 ∷ 108 ∷ 105 ∷ 118 ∷ 101 ∷ []

-- `0`
abbrev pub zero_text : Bytes
zero_text = 48 ∷ []

-- `$`
abbrev pub dollar_text : Bytes
dollar_text = 36 ∷ []

-- `.*$`
abbrev pub dot_star_dollar_text : Bytes
dot_star_dollar_text = 46 ∷ 42 ∷ 36 ∷ []

-- `http://`
abbrev pub http_colon_slash_slash_text : Bytes
http_colon_slash_slash_text = 104 ∷ 116 ∷ 116 ∷ 112 ∷ 58 ∷ 47 ∷ 47 ∷ []

-- `/`
abbrev pub slash_text : Bytes
slash_text = 47 ∷ []

-- `^`
abbrev pub caret_text : Bytes
caret_text = 94 ∷ []

-- `%s`
abbrev pub percent_s_text : Bytes
percent_s_text = 37 ∷ 115 ∷ []

-- `)`
abbrev pub close_paren_text : Bytes
close_paren_text = 41 ∷ []

-- `%`
abbrev pub percent_text : Bytes
percent_text = 37 ∷ []

-- `Content-Disposition`
abbrev pub content_disposition_text : Bytes
content_disposition_text =
    67 ∷ 111 ∷ 110 ∷ 116 ∷ 101 ∷ 110 ∷ 116 ∷ 45 ∷ 68 ∷ 105 ∷ 115 ∷ 112 ∷ 111 ∷ 115 ∷ 105 ∷ 116 ∷ 105
    ∷ 111 ∷ 110 ∷ []

-- `form-data`
abbrev pub form_data_text : Bytes
form_data_text = 102 ∷ 111 ∷ 114 ∷ 109 ∷ 45 ∷ 100 ∷ 97 ∷ 116 ∷ 97 ∷ []

-- `filename`
abbrev pub filename_text : Bytes
filename_text = 102 ∷ 105 ∷ 108 ∷ 101 ∷ 110 ∷ 97 ∷ 109 ∷ 101 ∷ []

-- `name`
abbrev pub name_text : Bytes
name_text = 110 ∷ 97 ∷ 109 ∷ 101 ∷ []

-- `domain`
abbrev pub domain_text : Bytes
domain_text = 100 ∷ 111 ∷ 109 ∷ 97 ∷ 105 ∷ 110 ∷ []

-- `expires`
abbrev pub expires_text : Bytes
expires_text = 101 ∷ 120 ∷ 112 ∷ 105 ∷ 114 ∷ 101 ∷ 115 ∷ []

-- `path`
abbrev pub path_text : Bytes
path_text = 112 ∷ 97 ∷ 116 ∷ 104 ∷ []
