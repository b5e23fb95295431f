-- ===== src/Http/Request.antt =====
-- request.go: ReadRequest.
use spdy.Base.{ℕ, Bytes, not, Option, none, some, [], ◌∷◌, ◌==◌, bytes_eq, if◌then◌else◌}
use spdy.Base.Int.{ℤ, pos, negsuc}
use spdy.Base.Text.{codes}
use spdy.Header.{Header}
use spdy.Http.{
  Net, Problem, missing_path, invalid_path, bad_version, Parsed, parsed, failed, is_empty, get, del,
  copy_header, trim_space,
}
use spdy.Http.Length.{content_length, parse_content_length}

-- The body: a stream at an address, or the reader of nothing; and the trailer, if there is to be one.
pub record Body : Type 0 where
  pub reader : Option ℕ
  pub trailer : Option Header

-- The fields of http.Request that ReadRequest sets, `scheme`, `path` and `url_host` those of its URL;
-- `Close` is always set.
pub record Request : Type 0 where
  pub method : Bytes
  pub scheme : Bytes
  pub path : Bytes
  pub url_host : Bytes
  pub host : Bytes
  pub proto : Bytes
  pub proto_major : ℕ
  pub proto_minor : ℕ
  pub header : Header
  pub content_length : ℤ
  pub body : Body

abbrev pub path_problem : Bytes → Option Problem
path_problem [] = some missing_path
path_problem (c ∷ s) = if c == b'/' then none else some (invalid_path (c ∷ s))

-- The length of the body and the header that is left.
abbrev pub with_length : Header → Parsed ℤ → Parsed (ℤ × Header)
with_length header (failed e) = failed e
with_length header (parsed n) = parsed (n, header)

unfoldable pub request_length : Net → Bytes → Header → Parsed (ℤ × Header)
request_length net method header =
    let cl = trim_space net.unicode_trim (get content_length header) in
    if not (is_empty cl)
    then with_length header (parse_content_length net cl)
    else parsed
        (if bytes_eq method (codes "GET") then pos 0 else negsuc 0, del content_length header)

abbrev pub filled : Header → Option Header → Option ℕ → ℕ × ℕ → Parsed (ℤ × Header) → Parsed Request
filled h t r version (failed e) = failed e
filled h t r (major, minor) (parsed (n, header)) = parsed (record {
  method = get (codes ":method") h;
  scheme = get (codes ":scheme") h;
  path = get (codes ":path") h;
  url_host = get (codes ":host") h;
  host = get (codes ":host") h;
  proto = get (codes ":version") h;
  proto_major = major;
  proto_minor = minor;
  header = header;
  content_length = n;
  body = record { reader = r; trailer = t };
})

abbrev pub versioned : Net → Header → Option Header → Option ℕ → Option (ℕ × ℕ) → Parsed Request
versioned net h t r none = failed (bad_version (get (codes ":version") h))
versioned net h t r (some version) =
    filled h t r version
      (request_length net (get (codes ":method") h) (del (codes "Host") (copy_header [] h)))

abbrev pub unless : {A : Type 0} → Option Problem → Parsed A → Parsed A
unless none x = x
unless (some e) x = failed e

-- `ReadRequest(h, t, r)`.
unfoldable pub read_request : Net → Header → Option Header → Option ℕ → Parsed Request
read_request net h t r =
    unless (path_problem (get (codes ":path") h))
      (versioned net h t r (net.parse_version (get (codes ":version") h)))
