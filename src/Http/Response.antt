-- ===== src/Http/Response.antt =====
-- be/http/http_response.{h,cpp}: the class HttpResponse.
use sr_scanner_demo.Base.{
  Bool, Option, none, some, List, [], ◌∷◌, ◌++◌, append_assoc, append-nil, ◌≡◌, sym, ap, ◌∙◌, Bytes,
  codes, bytes_eq, if◌then◌else◌, Bool-cases, inl, inr, bytes_eq_iff,
}
use sr_scanner_demo.Base.Dict
use sr_scanner_demo.Base.Dict.{Dict, lookup-insert}
use sr_scanner_demo.Http.Status.{HttpStatus}

-- `content` is `_content`, `none` for null.
pub record HttpResponse : Type 0 where
  pub status : HttpStatus
  pub content_type : Bytes
  pub content : Option Bytes
  pub custom_headers : Dict (List Bytes)

abbrev pub text_content_type : Bytes
text_content_type = codes "text/plain; charset=UTF-8"

-- The three constructors.
abbrev pub of_status : HttpStatus → HttpResponse
of_status status = record {
  status = status;
  content_type = text_content_type;
  content = none;
  custom_headers = [];
}

abbrev pub of_content : HttpStatus → Option Bytes → HttpResponse
of_content status content = record {
  status = status;
  content_type = text_content_type;
  content = content;
  custom_headers = [];
}

abbrev pub of_type : HttpStatus → Bytes → Option Bytes → HttpResponse
of_type status type content = record {
  status = status;
  content_type = type;
  content = content;
  custom_headers = [];
}

-- The values of a header; `operator[]` makes an empty list for a new key.
abbrev pub or_empty : Option (List Bytes) → List Bytes
or_empty none = []
or_empty (some vs) = vs

abbrev pub values : Bytes → HttpResponse → List Bytes
values key r = or_empty (Dict.lookup key r.custom_headers)

-- `add_header`
unfoldable pub add_header : Bytes → Bytes → HttpResponse → HttpResponse
add_header key value r = record r {
  custom_headers = Dict.insert key (values key r ++ value ∷ []) r.custom_headers;
}

abbrev pub add_headers : List (Bytes × Bytes) → HttpResponse → HttpResponse
add_headers [] r = r
add_headers ((key, value) ∷ hs) r = add_headers hs (add_header key value r)

-- The values that a list of headers has for a key, in their order.
unfoldable pub values_of : Bytes → List (Bytes × Bytes) → List Bytes
values_of key [] = []
values_of key ((k, v) ∷ hs) =
    let rest = values_of key hs in if bytes_eq k key then v ∷ rest else rest

values-add_header :
    (key k v : Bytes) (r : HttpResponse)
    → values key (add_header k v r)
      ≡ (if bytes_eq k key then values key r ++ v ∷ [] else values key r)
unfolding add_header
values-add_header key k v r =
    let stored =
      λ (b : Bool). if b then some (values k r ++ v ∷ []) else Dict.lookup key r.custom_headers in
    let found = ap or_empty (lookup-insert k key (values k r ++ v ∷ []) r.custom_headers) in
    elim (Bool-cases (bytes_eq k key)) [
      | inl e ↦ rw e (
          found
          ∙ ap (λ b. or_empty (stored b)) e
          ∙ ap (λ j. values j r ++ v ∷ []) ((bytes_eq_iff k key).0 e))
      | inr e ↦ rw e (found ∙ ap (λ b. or_empty (stored b)) e)
    ]

-- After any sequence of `add_header`, a header's values are those it had, then those that were added
-- under its name, in their order.
pub values-add_headers :
    (key : Bytes) (hs : List (Bytes × Bytes)) (r : HttpResponse)
    → values key (add_headers hs r) ≡ values key r ++ values_of key hs
unfolding values_of
values-add_headers key [] r = sym (append-nil (values key r))
values-add_headers key ((k, v) ∷ hs) r =
    values-add_headers key hs (add_header k v r)
    ∙ ap (λ vs. vs ++ values_of key hs) (values-add_header key k v r)
    ∙ added
  where
    added :
        (if bytes_eq k key then values key r ++ v ∷ [] else values key r) ++ values_of key hs
        ≡ values key r ++ (if bytes_eq k key then v ∷ values_of key hs else values_of key hs)
    added = elim (Bool-cases (bytes_eq k key)) [
      | inl e ↦ rw e (append_assoc (values key r) (v ∷ []) (values_of key hs))
      | inr e ↦ rw e
    ]
