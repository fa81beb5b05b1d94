-- ===== src/Http/Status.antt =====
-- be/http/http_status.{h,cpp}: the statuses of HTTP and their reasons. The enumeration has two names
-- for 205, so a status is its number.
pub mod Reasons
use sr_scanner_demo.Base.{
  ℕ, Option, none, some, List, [], ◌∷◌, All, ◌≡◌, ◌⊎◌, inl, inr, refl, sym, Bytes, codes, ◌==◌,
  if◌then◌else◌,
}

abbrev pub HttpStatus : Type 0
HttpStatus = ℕ

abbrev pub continue : HttpStatus
continue = 100

abbrev pub switching_protocols : HttpStatus
switching_protocols = 101

abbrev pub ok_200 : HttpStatus
ok_200 = 200

abbrev pub created : HttpStatus
created = 201

abbrev pub accepted : HttpStatus
accepted = 202

abbrev pub non_authoritative_information : HttpStatus
non_authoritative_information = 203

abbrev pub no_content : HttpStatus
no_content = 204

abbrev pub reset_content : HttpStatus
reset_content = 205

abbrev pub partial_content : HttpStatus
partial_content = 205

abbrev pub multiple_choices : HttpStatus
multiple_choices = 300

abbrev pub moved_permanently : HttpStatus
moved_permanently = 301

abbrev pub found : HttpStatus
found = 302

abbrev pub see_other : HttpStatus
see_other = 303

abbrev pub not_modified : HttpStatus
not_modified = 304

abbrev pub use_proxy : HttpStatus
use_proxy = 305

abbrev pub temporary_redirect : HttpStatus
temporary_redirect = 307

abbrev pub bad_request : HttpStatus
bad_request = 400

abbrev pub unauthorized : HttpStatus
unauthorized = 401

abbrev pub payment_required : HttpStatus
payment_required = 402

abbrev pub forbidden : HttpStatus
forbidden = 403

abbrev pub not_found : HttpStatus
not_found = 404

abbrev pub method_not_allowed : HttpStatus
method_not_allowed = 405

abbrev pub not_acceptable : HttpStatus
not_acceptable = 406

abbrev pub proxy_authentication : HttpStatus
proxy_authentication = 407

abbrev pub request_timeout : HttpStatus
request_timeout = 408

abbrev pub conflict : HttpStatus
conflict = 409

abbrev pub gone : HttpStatus
gone = 410

abbrev pub length_required : HttpStatus
length_required = 411

abbrev pub precondition_failed : HttpStatus
precondition_failed = 412

abbrev pub request_entity_too_large : HttpStatus
request_entity_too_large = 413

abbrev pub request_uri_too_long : HttpStatus
request_uri_too_long = 414

abbrev pub unsupported_media_type : HttpStatus
unsupported_media_type = 415

abbrev pub requested_range_not_satisfied : HttpStatus
requested_range_not_satisfied = 416

abbrev pub expectation_failed : HttpStatus
expectation_failed = 417

abbrev pub internal_server_error : HttpStatus
internal_server_error = 500

abbrev pub not_implemented : HttpStatus
not_implemented = 501

abbrev pub bad_gateway : HttpStatus
bad_gateway = 502

abbrev pub service_unavailable : HttpStatus
service_unavailable = 503

abbrev pub gateway_timeout : HttpStatus
gateway_timeout = 504

abbrev pub http_version_not_supported : HttpStatus
http_version_not_supported = 505

-- The entries that s_reason_map is made from, in their order.
abbrev pub reasons : List (HttpStatus × Bytes)
reasons =
    (continue, codes "Continue")
    ∷ (switching_protocols, codes "Switching Protocols")
    ∷ (ok_200, codes "OK")
    ∷ (created, codes "Created")
    ∷ (accepted, codes "Accepted")
    ∷ (non_authoritative_information, codes "Non-Authoritative Information")
    ∷ (no_content, codes "No Content")
    ∷ (reset_content, codes "Reset Content")
    ∷ (partial_content, codes "Partial Content")
    ∷ (multiple_choices, codes "Multiple Choices")
    ∷ (moved_permanently, codes "Moved Permanently")
    ∷ (found, codes "Found")
    ∷ (see_other, codes "See Other")
    ∷ (not_modified, codes "Not Modified")
    ∷ (use_proxy, codes "Use Proxy")
    ∷ (temporary_redirect, codes "Temporary Redirect")
    ∷ (bad_request, codes "Bad Request")
    ∷ (unauthorized, codes "Unauthorized")
    ∷ (payment_required, codes "Payment Required")
    ∷ (forbidden, codes "Forbidden")
    ∷ (not_found, codes "Not Found")
    ∷ (method_not_allowed, codes "Method Not Allowed")
    ∷ (not_acceptable, codes "Not Acceptable")
    ∷ (proxy_authentication, codes "Proxy Authentication Required")
    ∷ (request_timeout, codes "Request Time-out")
    ∷ (conflict, codes "Conflict")
    ∷ (gone, codes "Gone")
    ∷ (length_required, codes "Length Required")
    ∷ (precondition_failed, codes "Precondition Failed")
    ∷ (request_entity_too_large, codes "Request Entity Too Large")
    ∷ (request_uri_too_long, codes "Request-URI Too Large")
    ∷ (unsupported_media_type, codes "Unsupported Media Type")
    ∷ (requested_range_not_satisfied, codes "Requested range not satisfiable")
    ∷ (expectation_failed, codes "Expectation Failed")
    ∷ (internal_server_error, codes "Internal Server Error")
    ∷ (not_implemented, codes "Not Implemented")
    ∷ (bad_gateway, codes "Bad Gateway")
    ∷ (service_unavailable, codes "Service Unavailable")
    ∷ (gateway_timeout, codes "Gateway Time-out")
    ∷ (http_version_not_supported, codes "HTTP Version not supported")
    ∷ []

-- A std::map keeps the first of its initial entries with one key.
abbrev pub find_reason : HttpStatus → List (HttpStatus × Bytes) → Option Bytes
find_reason status [] = none
find_reason status ((s, reason) ∷ rest) =
    if s == status then some reason else find_reason status rest

-- `default_reason`
unfoldable pub default_reason : HttpStatus → Bytes
default_reason status = elim (find_reason status reasons) [
  | none ↦ codes "No reason"
  | some reason ↦ reason
]
