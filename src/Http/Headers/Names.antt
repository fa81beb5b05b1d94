-- ===== src/Http/Headers/Names.antt =====
-- The names of be/http/http_headers.cpp are field names, and are told apart as HTTP does.
use mathlib.Core.Option.{some-injective}
use sr_scanner_demo.Base.{
  ℕ, Bool, true, false, Option, none, some, List, [], ◌∷◌, ◌≡◌, refl, sym, ap, ◌∙◌, ◌&&◌, ◌||◌,
  Bytes, codes, bytes_eq, leb, if◌then◌else◌, ◌+◌, ◌==◌,
}
use sr_scanner_demo.Http.Headers.{
  HttpHeader, accept, accept_charset, accept_encoding, accept_language, accept_ranges, accept_patch,
  access_control_allow_credentials, access_control_allow_headers, access_control_allow_methods,
  access_control_allow_origin, access_control_expose_headers, access_control_max_age,
  access_control_request_headers, access_control_request_method, age, allow, authorization,
  cache_control, connection, content_base, content_encoding, content_language, content_length,
  content_location, content_transfer_encoding, content_md5, content_range, content_type, cookie,
  date, etag, expect, expires, from, host, if_match, if_modified_since, if_none_match, if_range,
  if_unmodified_since, last_modified, location, max_forwards, origin, pragma, proxy_authenticate,
  proxy_authorization, range, referer, retry_after, sec_websocket_key1, sec_websocket_key2,
  sec_websocket_location, sec_websocket_origin, sec_websocket_protocol, sec_websocket_version,
  sec_websocket_key, sec_websocket_accept, server, set_cookie, set_cookie2, te, trailer,
  transfer_encoding, upgrade, user_agent, vary, via, warning, websocket_location, websocket_origin,
  websocket_protocol, www_authenticate, field_name,
}

abbrev is_upper : ℕ → Bool
is_upper c = leb b'A' c && leb c b'Z'

-- ASCII letters in lower case.
unfoldable pub to_lower : Bytes → Bytes
to_lower [] = []
to_lower (c ∷ s) = (if is_upper c then c + 32 else c) ∷ to_lower s

abbrev is_one_of : Bytes → ℕ → Bool
is_one_of [] c = false
is_one_of (d ∷ s) c = (c == d) || is_one_of s c

-- The bytes of a token: letters, digits and some signs.
unfoldable is_tchar : ℕ → Bool
is_tchar c =
    is_upper c
    || (leb b'a' c && leb c b'z')
    || (leb b'0' c && leb c b'9')
    || is_one_of (codes "!#$%&'*+-.^_`|~") c

unfoldable all_tchars : Bytes → Bool
unfolding is_tchar
all_tchars [] = true
all_tchars (c ∷ s) = is_tchar c && all_tchars s

-- RFC 9110: a field name is a token, and a token is not empty.
unfoldable pub is_field_name : Bytes → Bool
unfolding all_tchars
is_field_name [] = false
is_field_name (c ∷ s) = all_tchars (c ∷ s)

abbrev headers : List HttpHeader
headers =
    accept ∷ accept_charset ∷ accept_encoding ∷ accept_language ∷ accept_ranges ∷ accept_patch
    ∷ access_control_allow_credentials ∷ access_control_allow_headers ∷ access_control_allow_methods
    ∷ access_control_allow_origin ∷ access_control_expose_headers ∷ access_control_max_age
    ∷ access_control_request_headers ∷ access_control_request_method ∷ age ∷ allow ∷ authorization
    ∷ cache_control ∷ connection ∷ content_base ∷ content_encoding ∷ content_language
    ∷ content_length ∷ content_location ∷ content_transfer_encoding ∷ content_md5 ∷ content_range
    ∷ content_type ∷ cookie ∷ date ∷ etag ∷ expect ∷ expires ∷ from ∷ host ∷ if_match
    ∷ if_modified_since ∷ if_none_match ∷ if_range ∷ if_unmodified_since ∷ last_modified ∷ location
    ∷ max_forwards ∷ origin ∷ pragma ∷ proxy_authenticate ∷ proxy_authorization ∷ range ∷ referer
    ∷ retry_after ∷ sec_websocket_key1 ∷ sec_websocket_key2 ∷ sec_websocket_location
    ∷ sec_websocket_origin ∷ sec_websocket_protocol ∷ sec_websocket_version ∷ sec_websocket_key
    ∷ sec_websocket_accept ∷ server ∷ set_cookie ∷ set_cookie2 ∷ te ∷ trailer ∷ transfer_encoding
    ∷ upgrade ∷ user_agent ∷ vary ∷ via ∷ warning ∷ websocket_location ∷ websocket_origin
    ∷ websocket_protocol ∷ www_authenticate ∷ []

unfoldable find_header : Bytes → List HttpHeader → Option HttpHeader
unfolding bytes_eq to_lower field_name
find_header s [] = none
find_header s (h ∷ hs) = if bytes_eq (to_lower (field_name h)) s then some h else find_header s hs

find_header-field_name : (h : HttpHeader) → find_header (to_lower (field_name h)) headers ≡ some h
unfolding find_header bytes_eq to_lower field_name
find_header-field_name accept = refl
find_header-field_name accept_charset = refl
find_header-field_name accept_encoding = refl
find_header-field_name accept_language = refl
find_header-field_name accept_ranges = refl
find_header-field_name accept_patch = refl
find_header-field_name access_control_allow_credentials = refl
find_header-field_name access_control_allow_headers = refl
find_header-field_name access_control_allow_methods = refl
find_header-field_name access_control_allow_origin = refl
find_header-field_name access_control_expose_headers = refl
find_header-field_name access_control_max_age = refl
find_header-field_name access_control_request_headers = refl
find_header-field_name access_control_request_method = refl
find_header-field_name age = refl
find_header-field_name allow = refl
find_header-field_name authorization = refl
find_header-field_name cache_control = refl
find_header-field_name connection = refl
find_header-field_name content_base = refl
find_header-field_name content_encoding = refl
find_header-field_name content_language = refl
find_header-field_name content_length = refl
find_header-field_name content_location = refl
find_header-field_name content_transfer_encoding = refl
find_header-field_name content_md5 = refl
find_header-field_name content_range = refl
find_header-field_name content_type = refl
find_header-field_name cookie = refl
find_header-field_name date = refl
find_header-field_name etag = refl
find_header-field_name expect = refl
find_header-field_name expires = refl
find_header-field_name from = refl
find_header-field_name host = refl
find_header-field_name if_match = refl
find_header-field_name if_modified_since = refl
find_header-field_name if_none_match = refl
find_header-field_name if_range = refl
find_header-field_name if_unmodified_since = refl
find_header-field_name last_modified = refl
find_header-field_name location = refl
find_header-field_name max_forwards = refl
find_header-field_name origin = refl
find_header-field_name pragma = refl
find_header-field_name proxy_authenticate = refl
find_header-field_name proxy_authorization = refl
find_header-field_name range = refl
find_header-field_name referer = refl
find_header-field_name retry_after = refl
find_header-field_name sec_websocket_key1 = refl
find_header-field_name sec_websocket_key2 = refl
find_header-field_name sec_websocket_location = refl
find_header-field_name sec_websocket_origin = refl
find_header-field_name sec_websocket_protocol = refl
find_header-field_name sec_websocket_version = refl
find_header-field_name sec_websocket_key = refl
find_header-field_name sec_websocket_accept = refl
find_header-field_name server = refl
find_header-field_name set_cookie = refl
find_header-field_name set_cookie2 = refl
find_header-field_name te = refl
find_header-field_name trailer = refl
find_header-field_name transfer_encoding = refl
find_header-field_name upgrade = refl
find_header-field_name user_agent = refl
find_header-field_name vary = refl
find_header-field_name via = refl
find_header-field_name warning = refl
find_header-field_name websocket_location = refl
find_header-field_name websocket_origin = refl
find_header-field_name websocket_protocol = refl
find_header-field_name www_authenticate = refl

field_name_token : (h : HttpHeader) → is_field_name (field_name h) ≡ true
unfolding is_field_name field_name
field_name_token accept = refl
field_name_token accept_charset = refl
field_name_token accept_encoding = refl
field_name_token accept_language = refl
field_name_token accept_ranges = refl
field_name_token accept_patch = refl
field_name_token access_control_allow_credentials = refl
field_name_token access_control_allow_headers = refl
field_name_token access_control_allow_methods = refl
field_name_token access_control_allow_origin = refl
field_name_token access_control_expose_headers = refl
field_name_token access_control_max_age = refl
field_name_token access_control_request_headers = refl
field_name_token access_control_request_method = refl
field_name_token age = refl
field_name_token allow = refl
field_name_token authorization = refl
field_name_token cache_control = refl
field_name_token connection = refl
field_name_token content_base = refl
field_name_token content_encoding = refl
field_name_token content_language = refl
field_name_token content_length = refl
field_name_token content_location = refl
field_name_token content_transfer_encoding = refl
field_name_token content_md5 = refl
field_name_token content_range = refl
field_name_token content_type = refl
field_name_token cookie = refl
field_name_token date = refl
field_name_token etag = refl
field_name_token expect = refl
field_name_token expires = refl
field_name_token from = refl
field_name_token host = refl
field_name_token if_match = refl
field_name_token if_modified_since = refl
field_name_token if_none_match = refl
field_name_token if_range = refl
field_name_token if_unmodified_since = refl
field_name_token last_modified = refl
field_name_token location = refl
field_name_token max_forwards = refl
field_name_token origin = refl
field_name_token pragma = refl
field_name_token proxy_authenticate = refl
field_name_token proxy_authorization = refl
field_name_token range = refl
field_name_token referer = refl
field_name_token retry_after = refl
field_name_token sec_websocket_key1 = refl
field_name_token sec_websocket_key2 = refl
field_name_token sec_websocket_location = refl
field_name_token sec_websocket_origin = refl
field_name_token sec_websocket_protocol = refl
field_name_token sec_websocket_version = refl
field_name_token sec_websocket_key = refl
field_name_token sec_websocket_accept = refl
field_name_token server = refl
field_name_token set_cookie = refl
field_name_token set_cookie2 = refl
field_name_token te = refl
field_name_token trailer = refl
field_name_token transfer_encoding = refl
field_name_token upgrade = refl
field_name_token user_agent = refl
field_name_token vary = refl
field_name_token via = refl
field_name_token warning = refl
field_name_token websocket_location = refl
field_name_token websocket_origin = refl
field_name_token websocket_protocol = refl
field_name_token www_authenticate = refl

-- Every name is a field name in the sense of RFC 9110, and no two of them are the same field, that is,
-- equal but for the case of their letters.
pub field_name_lem :
    (h : HttpHeader)
    → (is_field_name (field_name h) ≡ true)
      × ((k : HttpHeader) → to_lower (field_name h) ≡ to_lower (field_name k) → h ≡ k)
field_name_lem h = (
  field_name_token h,
  λ k e. some-injective h k (
      sym (find_header-field_name h)
      ∙ ap (λ s. find_header s headers) e
      ∙ find_header-field_name k),
)
