-- ===== src/Http/Exchange.antt =====
-- From RequestFramingHeader to ReadRequest, both of request.go.
use spdy.Base.{
  ℕ, ◌≡◌, ◌⊎◌, refl, ◌∙◌, Bytes, Bool, true, false, not, Option, none, some, [], if◌then◌else◌, inl,
  inr,
}
use spdy.Base.Int.{ℤ, pos, negsuc}
use spdy.Base.Text.{codes}
use spdy.Header.{Header}
use spdy.Framer.Read.{has_invalid, invalid_req_headers}
use spdy.Session.{control_flag_fin}
use spdy.Http.{
  Net, bad_content_length, Parsed, parsed, failed, is_empty, get, del, copy_header, trim_space,
  parse_int,
}
use spdy.Http.Length.{content_length, checked, parse_content_length}
use spdy.Http.Request.{
  Request, path_problem, request_length, filled, versioned, unless, read_request,
}
use spdy.Http.Request
use spdy.Http.Framing.{
  Outgoing, bad_req_header_fields, or, positive, missing_body, framing_fields,
  request_framing_header,
}
use spdy.Http.Fields.{Tells, has_invalid-swap, framing_fields-Tells, drop_all-out}

-- A result, or the one error that is left.
abbrev pub IsLength : {A : Type 0} → Parsed A → Type 0
IsLength {A} x = ((a : A) × (x ≡ parsed a)) ⊎ ((cl : Bytes) × (x ≡ failed (bad_content_length cl)))

checked-IsLength : (cl : Bytes) (n : Option ℤ) → IsLength (checked cl n)
checked-IsLength cl none = inr (cl, refl)
checked-IsLength cl (some (pos n)) = inl (pos n, refl)
checked-IsLength cl (some (negsuc n)) = inr (cl, refl)

pub either-IsLength :
    {A : Type 0} (b : Bool) (x y : Parsed A)
    → IsLength x
    → IsLength y
    → IsLength (if b then x else y)
either-IsLength true x y v w = v
either-IsLength false x y v w = w

pub parse_content_length-IsLength :
    (net : Net) (cl : Bytes) → IsLength (parse_content_length net cl)
unfolding parse_content_length
parse_content_length-IsLength net cl =
    either-IsLength (is_empty (trim_space net.unicode_trim cl)) _ _ (inl (negsuc 0, refl)) (
      checked-IsLength (trim_space net.unicode_trim cl)
        (parse_int (trim_space net.unicode_trim cl)))

with_length-IsLength :
    (header : Header) (x : Parsed ℤ) → IsLength x → IsLength (Request.with_length header x)
with_length-IsLength header (parsed n) v = inl ((n, header), refl)
with_length-IsLength header (failed e) (inl (a, same)) = cc
with_length-IsLength header (failed e) (inr (cl, same)) = inr (cl, cc)

request_length-IsLength :
    (net : Net) (method : Bytes) (header : Header) → IsLength (request_length net method header)
unfolding request_length
request_length-IsLength net method header =
    either-IsLength (not (is_empty (trim_space net.unicode_trim (get content_length header)))) _ _
      (with_length-IsLength header _ (parse_content_length-IsLength net _)) (inl (_, refl))

-- What ReadRequest makes of the header `h` of the request `r`.
pub record Arrives (r : Outgoing) (q : Request.Request) : Type 0 where
  pub method : q.method ≡ r.method
  pub path : q.path ≡ r.uri
  pub scheme : q.scheme ≡ or r.scheme (codes "http")
  pub host : q.host ≡ or r.host r.url_host
  pub proto : q.proto ≡ or r.proto (codes "HTTP/1.1")

filled_lem :
    (h : Header) (t : Option Header) (p : Option ℕ) (version : ℕ × ℕ) (r : Outgoing)
    (x : Parsed (ℤ × Header))
    → Tells r h
    → IsLength x
    → ((q : Request.Request) × (filled h t p version x ≡ parsed q) × Arrives r q)
      ⊎ ((cl : Bytes) × (filled h t p version x ≡ failed (bad_content_length cl)))
filled_lem h t p version r (failed e) w (inl (a, same)) = cc
filled_lem h t p version r (failed e) w (inr (cl, same)) = inr (cl, cc)
filled_lem h t p version r (parsed x) w v = inl (
  _,
  refl,
  record { method = w.method; path = w.path; scheme = w.scheme; host = w.host; proto = w.version },
)

-- A request with a body if it has a length, whose path starts with a slash and whose version is one:
-- the header that RequestFramingHeader makes, before it is sent, passes the frame reader's check for
-- forbidden fields, and ReadRequest gets from it a request with the same method, path, scheme, host and version, defaults
-- filled in, or complains of the Content-Length alone.
pub read_request-request_framing_header :
    (net : Net) (r : Outgoing) (t : Option Header) (p : Option ℕ) (version : ℕ × ℕ)
    → missing_body r (positive r.content_length) ≡ none
    → path_problem r.uri ≡ none
    → net.parse_version (or r.proto (codes "HTTP/1.1")) ≡ some version
    → (h : Header) × (request_framing_header r
        ≡ parsed (h, if r.has_body then 0 else control_flag_fin))
      × (has_invalid invalid_req_headers h ≡ false)
      × (((q : Request.Request) × (read_request net h t p ≡ parsed q) × Arrives r q)
          ⊎ ((cl : Bytes) × (read_request net h t p ≡ failed (bad_content_length cl))))
unfolding request_framing_header read_request
read_request-request_framing_header net r t p version b path v =
    let h = framing_fields r in
    let w = framing_fields-Tells r in
    let length =
      request_length-IsLength net (get (codes ":method") h)
        (del (codes "Host") (copy_header [] h)) in
    (
      h,
      rw b refl,
      has_invalid-swap _ _ _ h ∙ drop_all-out bad_req_header_fields _,
      rw (w.path, path, w.version, v) (filled_lem h t p version r _ w length),
    )
