-- ===== src/Http/Framing.antt =====
-- request.go: RequestFramingHeader.
use spdy.Base.{
  ℕ, Bytes, Bool, true, false, not, ◌&&◌, Option, none, some, List, [], ◌∷◌, ltb, bytes_eq,
  if◌then◌else◌,
}
use spdy.Base.Int.{ℤ, pos, negsuc}
use spdy.Base.Text.{codes}
use spdy.Header.{Header, values_of}
use spdy.Session.{control_flag_fin}
use spdy.Http.{
  Problem, nil_body, Parsed, parsed, failed, is_empty, is_ordinary, set, drop_values, decimal,
}

abbrev pub bad_req_header_fields : List Bytes
bad_req_header_fields =
    codes "Connection"
    ∷ codes "Host"
    ∷ codes "Keep-Alive"
    ∷ codes "Proxy-Connection"
    ∷ codes "Transfer-Encoding"
    ∷ []

-- What is read of the request; `uri` is what its URL's RequestURI method returns.
pub record Outgoing : Type 0 where
  pub method : Bytes
  pub scheme : Bytes
  pub uri : Bytes
  pub url_host : Bytes
  pub host : Bytes
  pub proto : Bytes
  pub header : Header
  pub content_length : ℤ
  pub has_body : Bool

abbrev pub is_nil : List Bytes → Bool
is_nil [] = true
is_nil (v ∷ vs) = false

-- The fields that are copied: those with a value whose names are not the framing layer's.
unfoldable pub ordinary : Header → Header
ordinary [] = []
ordinary ((k, vs) ∷ h) =
    if is_ordinary k && not (is_nil vs) then (k, vs) ∷ ordinary h else ordinary h

abbrev pub or : Bytes → Bytes → Bytes
or v default = if is_empty v then default else v

abbrev pub set_missing : Bytes → Bytes → Option (List Bytes) → Header → Header
set_missing name v none h = set name v h
set_missing name v (some vs) h = h

abbrev pub with_agent : Header → Header
with_agent h =
    set_missing (codes "User-Agent") (codes "github.com/kr/spdy") (values_of (codes "User-Agent") h)
      h

abbrev pub with_fields : Outgoing → Header → Header
with_fields r h = set (codes ":version") (or r.proto (codes "HTTP/1.1")) (
    set (codes ":host") (or r.host r.url_host) (
      set (codes ":scheme") (or r.scheme (codes "http"))
        (set (codes ":path") r.uri (set (codes ":method") r.method h))))

-- The length, if it is positive.
abbrev pub positive : ℤ → Option ℕ
positive (negsuc n) = none
positive (pos n) = if ltb 0 n then some n else none

abbrev pub with_length : Outgoing → Option ℕ → Header → Header
with_length r (some n) h = set (codes "Content-Length") (decimal n) h
with_length r none h =
    if bytes_eq r.method (codes "POST") && not r.has_body
    then set (codes "Content-Length") (codes "0") h
    else h

unfoldable pub drop_all : List Bytes → Header → Header
drop_all [] h = h
drop_all (n ∷ ns) h = drop_all ns (drop_values n h)

abbrev pub framing_fields : Outgoing → Header
framing_fields r =
    drop_all bad_req_header_fields
      (with_length r (positive r.content_length) (with_fields r (with_agent (ordinary r.header))))

abbrev pub missing_body : Outgoing → Option ℕ → Option Problem
missing_body r none = none
missing_body r (some n) = if r.has_body then none else some (nil_body n)

abbrev pub framed : Outgoing → Option Problem → Parsed (Header × ℕ)
framed r (some e) = failed e
framed r none = parsed (framing_fields r, if r.has_body then 0 else control_flag_fin)

-- `RequestFramingHeader`, to the header and the flags.
unfoldable pub request_framing_header : Outgoing → Parsed (Header × ℕ)
request_framing_header r = framed r (missing_body r (positive r.content_length))
