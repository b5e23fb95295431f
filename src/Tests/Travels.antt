-- ===== src/Tests/Travels.antt =====
-- The request for a page, over a connection.
use spdy.Base.{ℕ, ◌≡◌, refl, none, some, bytes_eq, drop, length, arith}
use spdy.Wire.{ok}
use spdy.Header.{
  Header, values_of, canonical_key, is_token, is_token_byte, contains, capitalise, is_ascii,
  to_lower, join,
}
use spdy.Framer.Block.RoundTrip.{IsHeader}
use spdy.Framer.Write.{write_frame}
use spdy.Framer.Read.{read_frame}
use spdy.Framer.Decode.{ahead}
use spdy.Session.Calls.{open_frame}
use spdy.Http.{parsed, set, put_values, drop_values}
use spdy.Http.Framing.{request_framing_header, framing_fields, ordinary, drop_all}
use spdy.Http.Travels.{Comes, request_travels}
use spdy.Tests.Frames.{stored, plain, plain-IsPlain}
use spdy.Tests.Requests.{net, page}

page-IsHeader : IsHeader stored.unicode_lower (framing_fields page)
unfolding ordinary drop_all set put_values drop_values canonical_key is_token is_token_byte contains
    capitalise is_ascii to_lower join values_of bytes_eq
page-IsHeader = (
  record {
    canonical = (refl, refl);
    some_value = λ e. cc;
    plain = (refl, tt);
    name_fits = omega arith;
    values_fit = omega arith;
  },
  refl,
  (
    record {
      canonical = (refl, refl);
      some_value = λ e. cc;
      plain = (refl, tt);
      name_fits = omega arith;
      values_fit = omega arith;
    },
    refl,
    (
      record {
        canonical = (refl, refl);
        some_value = λ e. cc;
        plain = (refl, tt);
        name_fits = omega arith;
        values_fit = omega arith;
      },
      refl,
      (
        record {
          canonical = (refl, refl);
          some_value = λ e. cc;
          plain = (refl, tt);
          name_fits = omega arith;
          values_fit = omega arith;
        },
        refl,
        (
          record {
            canonical = (refl, refl);
            some_value = λ e. cc;
            plain = (refl, tt);
            name_fits = omega arith;
            values_fit = omega arith;
          },
          refl,
          (
            record {
              canonical = (refl, refl);
              some_value = λ e. cc;
              plain = (refl, tt);
              name_fits = omega arith;
              values_fit = omega arith;
            },
            refl,
            tt,
          ),
        ),
      ),
    ),
  ),
)

request_travels_example :
    (h : Header) × (flag : ℕ) × (request_framing_header page ≡ parsed (h, flag))
    × (let (x, f') = write_frame stored (open_frame 1 h flag) (plain 300) in
        (x ≡ ok tt)
        × Comes stored net page none
            (some 0)
            (plain 0)
            (read_frame stored (ahead stored (plain 0) (drop (length (plain 300).out) f'.out))))
unfolding ordinary drop_all set put_values drop_values canonical_key is_token is_token_byte contains
    capitalise is_ascii to_lower join values_of bytes_eq
request_travels_example =
    request_travels stored net page none (some 0) (1, 1) 1 (plain 300) (plain 0) refl refl refl
      page-IsHeader (omega arith) (omega arith) (λ e. omega arith) (omega arith) (plain-IsPlain 300)
      (plain-IsPlain 0) (omega arith)
