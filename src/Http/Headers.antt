-- ===== src/Http/Headers.antt =====
-- be/http/http_headers.{h,cpp}: the names of the header fields, and the media type of JSON.
pub mod Names
use sr_scanner_demo.Base.{Bytes, codes}

-- The static members of HttpHeaders that name a field.
pub data HttpHeader : Type 0 where
  accept accept_charset accept_encoding accept_language accept_ranges accept_patch
        access_control_allow_credentials access_control_allow_headers access_control_allow_methods
        access_control_allow_origin access_control_expose_headers access_control_max_age
        access_control_request_headers access_control_request_method age allow authorization
        cache_control connection content_base content_encoding content_language content_length
        content_location content_transfer_encoding content_md5 content_range content_type cookie
        date etag expect expires from host if_match if_modified_since if_none_match if_range
        if_unmodified_since last_modified location max_forwards origin pragma proxy_authenticate
        proxy_authorization range referer retry_after sec_websocket_key1 sec_websocket_key2
        sec_websocket_location sec_websocket_origin sec_websocket_protocol sec_websocket_version
        sec_websocket_key sec_websocket_accept server set_cookie set_cookie2 te trailer
        transfer_encoding upgrade user_agent vary via warning websocket_location websocket_origin
        websocket_protocol www_authenticate :
      HttpHeader

-- The value of each.
unfoldable pub field_name : HttpHeader → Bytes
field_name accept = codes "Accept"
field_name accept_charset = codes "Accept-Charset"
field_name accept_encoding = codes "Accept-Encoding"
field_name accept_language = codes "Accept-Language"
field_name accept_ranges = codes "Accept-Ranges"
field_name accept_patch = codes "Accept-Patch"
field_name access_control_allow_credentials = codes "Access-Control-Allow-Credentials"
field_name access_control_allow_headers = codes "Access-Control-Allow-Headers"
field_name access_control_allow_methods = codes "Access-Control-Allow-Methods"
field_name access_control_allow_origin = codes "Access-Control-Allow-Origin"
field_name access_control_expose_headers = codes "Access-Control-Expose-Headers"
field_name access_control_max_age = codes "Access-Control-Max-Age"
field_name access_control_request_headers = codes "Access-Control-Request-Headers"
field_name access_control_request_method = codes "Access-Control-Request-Method"
field_name age = codes "Age"
field_name allow = codes "Allow"
field_name authorization = codes "Authorization"
field_name cache_control = codes "Cache-Control"
field_name connection = codes "Connection"
field_name content_base = codes "Content-Base"
field_name content_encoding = codes "Content-Encoding"
field_name content_language = codes "Content-Language"
field_name content_length = codes "Content-Length"
field_name content_location = codes "Content-Location"
field_name content_transfer_encoding = codes "Content-Transfer-Encoding"
field_name content_md5 = codes "Content-MD5"
field_name content_range = codes "Content-Range"
field_name content_type = codes "Content-Type"
field_name cookie = codes "Cookie"
field_name date = codes "Date"
field_name etag = codes "ETag"
field_name expect = codes "Expect"
field_name expires = codes "Expires"
field_name from = codes "From"
field_name host = codes "Host"
field_name if_match = codes "If-Match"
field_name if_modified_since = codes "If-Modified-Since"
field_name if_none_match = codes "If-None-Match"
field_name if_range = codes "If-Range"
field_name if_unmodified_since = codes "If-Unmodified-Since"
field_name last_modified = codes "Last-Modified"
field_name location = codes "Location"
field_name max_forwards = codes "Max-Forwards"
field_name origin = codes "Origin"
field_name pragma = codes "Pragma"
field_name proxy_authenticate = codes "Proxy-Authenticate"
field_name proxy_authorization = codes "Proxy-Authorization"
field_name range = codes "Range"
field_name referer = codes "Referer"
field_name retry_after = codes "Retry-After"
field_name sec_websocket_key1 = codes "Sec-WebSocket-Key1"
field_name sec_websocket_key2 = codes "Sec-WebSocket-Key2"
field_name sec_websocket_location = codes "Sec-WebSocket-Location"
field_name sec_websocket_origin = codes "Sec-WebSocket-Origin"
field_name sec_websocket_protocol = codes "Sec-WebSocket-Protocol"
field_name sec_websocket_version = codes "Sec-WebSocket-Version"
field_name sec_websocket_key = codes "Sec-WebSocket-Key"
field_name sec_websocket_accept = codes "Sec-WebSocket-Accept"
field_name server = codes "Server"
field_name set_cookie = codes "Set-Cookie"
field_name set_cookie2 = codes "Set-Cookie2"
field_name te = codes "TE"
field_name trailer = codes "Trailer"
field_name transfer_encoding = codes "Transfer-Encoding"
field_name upgrade = codes "Upgrade"
field_name user_agent = codes "User-Agent"
field_name vary = codes "Vary"
field_name via = codes "Via"
field_name warning = codes "Warning"
field_name websocket_location = codes "WebSocket-Location"
field_name websocket_origin = codes "WebSocket-Origin"
field_name websocket_protocol = codes "WebSocket-Protocol"
field_name www_authenticate = codes "WWW-Authenticate"

abbrev pub json_type : Bytes
json_type = codes "application/json"
