-- ===== src/Http/Method.antt =====
-- be/http/http_method.{h,cpp}: HTTP methods and their names.
use sr_scanner_demo.Base.{ℕ, ◌==◌, if◌then◌else◌, ◌≡◌, refl, Bytes, codes, none, some, [], ◌∷◌}
use sr_scanner_demo.Base.Dict
use sr_scanner_demo.Base.Dict.{Dict}

pub data HttpMethod : Type 0 where
  get put post delete head options unknown : HttpMethod

-- s_method_by_desc
abbrev pub method_by_desc : Dict HttpMethod
method_by_desc =
    (codes "GET", HttpMethod.get)
    ∷ (codes "PUT", HttpMethod.put)
    ∷ (codes "POST", HttpMethod.post)
    ∷ (codes "HEAD", HttpMethod.head)
    ∷ (codes "DELETE", HttpMethod.delete)
    ∷ (codes "OPTIONS", HttpMethod.options)
    ∷ []

-- `to_http_method(const char*)`
unfoldable pub to_http_method : Bytes → HttpMethod
to_http_method desc = elim (Dict.lookup desc method_by_desc) [
  | none ↦ HttpMethod.unknown
  | some m ↦ m
]

-- `to_method_desc`, with s_desc_by_method
unfoldable pub to_method_desc : HttpMethod → Bytes
to_method_desc HttpMethod.get = codes "GET"
to_method_desc HttpMethod.put = codes "PUT"
to_method_desc HttpMethod.post = codes "POST"
to_method_desc HttpMethod.head = codes "HEAD"
to_method_desc HttpMethod.delete = codes "DELETE"
to_method_desc HttpMethod.options = codes "OPTIONS"
to_method_desc HttpMethod.unknown = codes "UNKNOWN"

-- The values of libevent's evhttp_cmd_type.
pub record EvhttpCmdType : Type 0 where
  pub req_get : ℕ
  pub req_post : ℕ
  pub req_head : ℕ
  pub req_put : ℕ
  pub req_delete : ℕ
  pub req_options : ℕ

-- `to_http_method(evhttp_cmd_type)`
unfoldable pub to_http_method_of_type : EvhttpCmdType → ℕ → HttpMethod
to_http_method_of_type t type =
    if type == t.req_get
    then HttpMethod.get
    else if type == t.req_post
    then HttpMethod.post
    else if type == t.req_head
    then HttpMethod.head
    else if type == t.req_put
    then HttpMethod.put
    else if type == t.req_delete
    then HttpMethod.delete
    else if type == t.req_options
    then HttpMethod.options
    else HttpMethod.unknown

-- The name that a method is described by is read back as the method.
pub to_http_method-to_method_desc : (m : HttpMethod) → to_http_method (to_method_desc m) ≡ m
unfolding to_http_method to_method_desc Dict.lookup
to_http_method-to_method_desc HttpMethod.get = refl
to_http_method-to_method_desc _ = refl
