-- ===== src/Header.antt =====
-- http.Header, as spdyframing/read.go and spdyframing/write.go use it: the map as a list of its
-- entries in the order in which `range` gives them, with the canonical form of names
-- (net/textproto), lower case (package strings) and lists of values joined by NUL bytes.
pub mod Values
pub mod Names
pub mod Entries
use spdy.Base.{
  ℕ, ◌+◌, ◌-◌, Bytes, Bool, true, false, not, ◌&&◌, ◌||◌, Option, none, some, List, [], ◌∷◌, ◌++◌,
  map, ltb, leb, ◌==◌, bytes_eq, if◌then◌else◌,
}

abbrev pub Header : Type 0
Header = List (Bytes × List Bytes)

abbrev pub is_lower : ℕ → Bool
is_lower c = leb b'a' c && leb c b'z'

abbrev pub is_upper : ℕ → Bool
is_upper c = leb b'A' c && leb c b'Z'

abbrev pub lower_byte : ℕ → ℕ
lower_byte c = if is_upper c then c + 32 else c

abbrev pub upper_byte : ℕ → ℕ
upper_byte c = if is_lower c then c - 32 else c

unfoldable pub is_ascii : Bytes → Bool
is_ascii [] = true
is_ascii (c ∷ s) = ltb c 128 && is_ascii s

-- `strings.ToLower`, over its Unicode part.
unfoldable pub to_lower : (Bytes → Bytes) → Bytes → Bytes
to_lower unicode_lower s = if is_ascii s then map lower_byte s else unicode_lower s

unfoldable pub contains : Bytes → ℕ → Bool
contains [] c = false
contains (d ∷ s) c = c == d || contains s c

-- The punctuation that a field name may have: !#$%&'*+-.^_`|~
abbrev punctuation : Bytes
punctuation = 33 ∷ 35 ∷ 36 ∷ 37 ∷ 38 ∷ 39 ∷ 42 ∷ 43 ∷ 45 ∷ 46 ∷ 94 ∷ 95 ∷ 96 ∷ 124 ∷ 126 ∷ []

unfoldable pub is_token_byte : ℕ → Bool
unfolding contains
is_token_byte c = is_lower c || is_upper c || (leb b'0' c && leb c b'9') || contains punctuation c

unfoldable pub is_token : Bytes → Bool
is_token [] = true
is_token (c ∷ s) = is_token_byte c && is_token s

-- The first letter and each after a hyphen in upper case, the others in lower case.
unfoldable pub capitalise : Bool → Bytes → Bytes
capitalise up [] = []
capitalise up (c ∷ s) = (if up then upper_byte c else lower_byte c) ∷ capitalise (c == b'-') s

-- `http.CanonicalHeaderKey`; a name with another byte stays as it is.
unfoldable pub canonical_key : Bytes → Bytes
canonical_key s = if is_token s then capitalise true s else s

-- `h[name]`; a missing key gives nil.
unfoldable pub values_of : Bytes → Header → Option (List Bytes)
values_of name [] = none
values_of name ((k, vs) ∷ h) = if bytes_eq k name then some vs else values_of name h

-- `h[key] = append(h[key], v)`.
unfoldable pub append_value : Bytes → Bytes → Header → Header
append_value key v [] = (key, v ∷ []) ∷ []
append_value key v ((k, vs) ∷ h) =
    if bytes_eq k key then (k, vs ++ v ∷ []) ∷ h else (k, vs) ∷ append_value key v h

-- `h.Add(name, v)`.
unfoldable pub add : Bytes → Bytes → Header → Header
add name v h = append_value (canonical_key name) v h

unfoldable pub add_all : Bytes → List Bytes → Header → Header
add_all name [] h = h
add_all name (v ∷ vs) h = add_all name vs (add name v h)

-- `strings.Join(values, "\x00")` and `strings.Split(value, "\x00")`.
unfoldable pub join : List Bytes → Bytes
join [] = []
join (v ∷ []) = v
join (v ∷ w ∷ vs) = v ++ 0 ∷ join (w ∷ vs)

abbrev push_byte : ℕ → List Bytes → List Bytes
push_byte c [] = (c ∷ []) ∷ []
push_byte c (v ∷ vs) = (c ∷ v) ∷ vs

unfoldable pub split : Bytes → List Bytes
split [] = [] ∷ []
split (c ∷ s) = if c == 0 then [] ∷ split s else push_byte c (split s)
