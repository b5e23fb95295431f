-- ===== src/Http/Answer.antt =====
-- response.go: ReadResponse.
use spdy.Base.{
  ℕ, zero, suc, Bytes, true, Option, none, some, List, [], ◌∷◌, ◌++◌, ◌==◌, bytes_eq, if◌then◌else◌,
}
use spdy.Base.Int.{ℤ, pos, negsuc}
use spdy.Base.Text.{codes}
use spdy.Header.{Header, values_of}
use spdy.Http.{
  Net, bad_version, bad_field, bad_status_code, Parsed, parsed, failed, get, copy_header, parse_int,
}
use spdy.Http.Length.{content_length, parse_content_length, fix_length}

abbrev pub bad_resp_header_fields : List Bytes
bad_resp_header_fields =
    codes "Connection"
    ∷ codes "Keep-Alive"
    ∷ codes "Proxy-Connection"
    ∷ codes "Transfer-Encoding"
    ∷ []

-- Where the body comes from: nowhere, a reader, or so many bytes of one, which may be nil.
pub data Source : Type 0 where
  nothing : Source
  whole : ℕ → Source
  limited : Option ℕ → ℕ → Source

-- The fields of http.Response that ReadResponse sets; `Close` is always set, and `Request` is the
-- request that it was given.
pub record Answer : Type 0 where
  pub status : Bytes
  pub status_code : ℤ
  pub proto : Bytes
  pub proto_major : ℕ
  pub proto_minor : ℕ
  pub header : Header
  pub content_length : ℤ
  pub source : Source
  pub trailer : Option Header

-- The first name of the list that the header has.
unfoldable pub first_bad : List Bytes → Header → Option Bytes
first_bad [] h = none
first_bad (n ∷ ns) h = elim (values_of n h) [ none ↦ first_bad ns h | some vs ↦ some n ]

-- `strings.SplitN(s, " ", 2)`: what stands before the first space, and after it.
unfoldable pub before_space : Bytes → Bytes
before_space [] = []
before_space (c ∷ s) = if c == 32 then [] else c ∷ before_space s

unfoldable pub after_space : Bytes → Bytes
after_space [] = []
after_space (c ∷ s) = if c == 32 then s else after_space s

abbrev pub reader_of : Option ℕ → Source
reader_of none = nothing
reader_of (some r) = whole r

abbrev pub body_of : ℤ → Option ℕ → Source
body_of (pos zero) r = nothing
body_of (pos (suc n)) r = limited r (suc n)
body_of (negsuc n) r = reader_of r

abbrev pub announced : Net → Header → Bytes → ℤ → Parsed ℤ
announced net h method n =
    if bytes_eq method (codes "HEAD")
    then parse_content_length net (get content_length h)
    else parsed n

abbrev pub built :
    Header → Option Header → Option ℕ → ℤ → ℕ × ℕ → Header → ℤ → Parsed ℤ → Parsed Answer
built h t r code version header n (failed e) = failed e
built h t r code (major, minor) header n (parsed m) = parsed (record {
  status = before_space (get (codes ":status") h) ++ 32 ∷ after_space (get (codes ":status") h);
  status_code = code;
  proto = get (codes ":version") h;
  proto_major = major;
  proto_minor = minor;
  header = header;
  content_length = m;
  source = body_of n r;
  trailer = t;
})

module _ (net : Net) (h : Header) (t : Option Header) (r : Option ℕ) (method : Bytes) where
  abbrev pub sized : ℤ → ℕ × ℕ → Parsed ℤ × Header → Parsed Answer
  sized code version (failed e, header) = failed e
  sized code version (parsed n, header) =
      built h t r code version header n (announced net h method n)

  abbrev pub with_version : ℤ → Option (ℕ × ℕ) → Parsed Answer
  with_version code none = failed (bad_version (get (codes ":version") h))
  with_version code (some version) =
      sized code version (fix_length net true code method (copy_header [] h))

  abbrev pub with_code : Option ℤ → Parsed Answer
  with_code none = failed (bad_status_code (before_space (get (codes ":status") h)))
  with_code (some code) = with_version code (net.parse_version (get (codes ":version") h))

  abbrev pub unless_bad : Option Bytes → Parsed Answer
  unless_bad (some n) = failed (bad_field n)
  unless_bad none = with_code (parse_int (before_space (get (codes ":status") h)))

  -- `ReadResponse(h, t, r, req)` for a request of this method.
  unfoldable pub read_response : Parsed Answer
  read_response = unless_bad (first_bad bad_resp_header_fields h)
