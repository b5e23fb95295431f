-- ===== src/Http/Length.antt =====
-- transfer.go: how long a body is.
use spdy.Base.{
  false, ◌/◌, Bytes, Bool, not, ◌&&◌, ◌||◌, Option, none, some, ◌==◌, bytes_eq, if◌then◌else◌,
}
use spdy.Base.Int.{ℤ, pos, negsuc}
use spdy.Base.Text.{codes}
use spdy.Header.{Header}
use spdy.Http.{
  Net, bad_content_length, Parsed, parsed, failed, is_empty, get, del, trim_space, parse_int,
}

abbrev pub content_length : Bytes
content_length = codes "Content-Length"

abbrev pub checked : Bytes → Option ℤ → Parsed ℤ
checked cl none = failed (bad_content_length cl)
checked cl (some (pos n)) = parsed (pos n)
checked cl (some (negsuc n)) = failed (bad_content_length cl)

unfoldable pub parse_content_length : Net → Bytes → Parsed ℤ
parse_content_length net cl =
    let cl = trim_space net.unicode_trim cl in
    if is_empty cl then parsed (negsuc 0) else checked cl (parse_int cl)

abbrev pub no_body_expected : Bytes → Bool
no_body_expected method = bytes_eq method (codes "HEAD")

-- A status whose response has no body.
abbrev pub is_bodiless : ℤ → Bool
is_bodiless (pos n) = n / 100 == 1 || n == 204 || n == 304
is_bodiless (negsuc n) = false

-- `fixLength`, to the length and the header, from which an empty Content-Length is taken.
unfoldable pub fix_length : Net → Bool → ℤ → Bytes → Header → Parsed ℤ × Header
fix_length net is_response status method h =
    if no_body_expected method || is_bodiless status
    then (parsed (pos 0), h)
    else (let cl = trim_space net.unicode_trim (get content_length h) in
        if not (is_empty cl)
        then (parse_content_length net cl, h)
        else if not is_response && bytes_eq method (codes "GET")
        then (parsed (pos 0), del content_length h)
        else (parsed (negsuc 0), del content_length h))
