-- ===== src/Http.antt =====
-- Package spdy, over the sessions of spdyframing: what server.go, request.go and transfer.go use of
-- http.Header and of numbers in decimal, and the errors of the package.
pub mod Length
pub mod Request
pub mod Answer
pub mod Framing
pub mod Decimal
pub mod Fields
pub mod Exchange
pub mod Answers
pub mod Ready
pub mod Server
pub mod Serves
pub mod Content
pub mod Client
pub mod Trips
pub mod Travels
pub mod Trailers
pub mod Checks
pub mod Config
pub mod Copying
pub mod Offers
use spdy.Base.{
  ℕ, zero, suc, ◌+◌, ◌-◌, ◌*◌, ◌/◌, ◌%◌, ◌^◌, Bytes, Bool, true, false, not, ◌&&◌, ◌||◌, Option,
  none, some, List, [], ◌∷◌, ◌++◌, ltb, leb, ◌==◌, bytes_eq, if◌then◌else◌,
}
use spdy.Base.Int.{ℤ, pos, negsuc}
use spdy.Header.{Header, is_ascii, canonical_key, values_of, add_all}

-- The parts of the Go library that depend on Unicode tables or on lists of names: `strings.TrimSpace`
-- of text that is not ASCII, `http.ParseHTTPVersion` and `http.StatusText`.
pub record Net : Type 0 where
  pub unicode_trim : Bytes → Bytes
  pub parse_version : Bytes → Option (ℕ × ℕ)
  pub status_text : ℕ → Bytes

-- The errors of ReadRequest, ReadResponse and RequestFramingHeader.
pub data Problem : Type 0 where
  missing_path : Problem
  invalid_path bad_version bad_content_length bad_field bad_status_code : Bytes → Problem
  nil_body : ℕ → Problem

pub data Parsed (A : Type 0) : Type 0 where
  parsed : A → Parsed A
  failed : Problem → Parsed A

abbrev pub is_empty : Bytes → Bool
is_empty [] = true
is_empty (c ∷ s) = false

abbrev pub first : Option (List Bytes) → Bytes
first none = []
first (some []) = []
first (some (v ∷ vs)) = v

-- `h.Get(name)`, `h.Set(name, v)` and `h.Del(name)`.
unfoldable pub get : Bytes → Header → Bytes
get name h = first (values_of (canonical_key name) h)

unfoldable pub put_values : Bytes → List Bytes → Header → Header
put_values key vs [] = (key, vs) ∷ []
put_values key vs ((k, ws) ∷ h) =
    if bytes_eq k key then (key, vs) ∷ h else (k, ws) ∷ put_values key vs h

unfoldable pub set : Bytes → Bytes → Header → Header
set name v h = put_values (canonical_key name) (v ∷ []) h

unfoldable pub drop_values : Bytes → Header → Header
drop_values key [] = []
drop_values key ((k, vs) ∷ h) =
    if bytes_eq k key then drop_values key h else (k, vs) ∷ drop_values key h

unfoldable pub del : Bytes → Header → Header
del name h = drop_values (canonical_key name) h

-- A name that is not one of the framing layer's own.
abbrev pub is_ordinary : Bytes → Bool
is_ordinary [] = false
is_ordinary (c ∷ s) = not (c == b':')

-- `copyHeader(dst, src)`.
unfoldable pub copy_header : Header → Header → Header
copy_header dst [] = dst
copy_header dst ((k, vs) ∷ src) = copy_header (if is_ordinary k then add_all k vs dst else dst) src

-- `strings.TrimSpace`.
abbrev is_space : ℕ → Bool
is_space c = c == 32 || (leb 9 c && leb c 13)

unfoldable pub trim_left : Bytes → Bytes
trim_left [] = []
trim_left (c ∷ s) = if is_space c then trim_left s else c ∷ s

abbrev keep_right : ℕ → Bytes → Bytes
keep_right c [] = if is_space c then [] else c ∷ []
keep_right c (d ∷ s) = c ∷ d ∷ s

unfoldable pub trim_right : Bytes → Bytes
trim_right [] = []
trim_right (c ∷ s) = keep_right c (trim_right s)

unfoldable pub trim_space : (Bytes → Bytes) → Bytes → Bytes
trim_space unicode_trim s = if is_ascii s then trim_right (trim_left s) else unicode_trim s

-- `strconv.Itoa` and `strconv.FormatInt(n, 10)` of a number that is not negative.
unfoldable pub digits_of : ℕ → ℕ → Bytes
digits_of zero n = []
digits_of (suc fuel) n =
    let rest = digits_of fuel (n / 10) in
    if ltb n 10 then (48 + n) ∷ [] else rest ++ (48 + n % 10) ∷ []

unfoldable pub decimal : ℕ → Bytes
decimal n = digits_of (suc n) n

-- `strconv.ParseInt(s, 10, 64)`.
unfoldable pub parse_digits : ℕ → Bytes → Option ℕ
parse_digits n [] = some n
parse_digits n (c ∷ s) =
    if leb b'0' c && leb c b'9' then parse_digits (n * 10 + (c - 48)) s else none

abbrev pub parse_magnitude : Bytes → Option ℕ
parse_magnitude [] = none
parse_magnitude (c ∷ s) = parse_digits 0 (c ∷ s)

abbrev pub in_range : Option ℕ → Option ℤ
in_range none = none
in_range (some n) = if ltb n (2 ^ 63) then some (pos n) else none

abbrev pub negated : Option ℕ → Option ℤ
negated none = none
negated (some zero) = some (pos 0)
negated (some (suc n)) = if ltb n (2 ^ 63) then some (negsuc n) else none

unfoldable pub parse_int : Bytes → Option ℤ
parse_int [] = none
parse_int (c ∷ s) =
    if c == b'+'
    then in_range (parse_magnitude s)
    else if c == b'-'
    then negated (parse_magnitude s)
    else in_range (parse_magnitude (c ∷ s))
