-- ===== src/Framer/Decode.antt =====
-- Each method of spdyframing/read.go reads the layout of its frame back.
use spdy.Base.{
  ℕ, ◌+◌, ◌*◌, ◌/◌, ◌^◌, ◌<◌, ◌≡◌, ◌≢◌, refl, subst, Bytes, true, false, not, [], ◌∷◌, ◌++◌, List,
  ◌==◌, length, arith, bit_and,
}
use spdy.Base.Bits.{mask15, mask16, mask24, mask31, top_byte, control_bit}
use spdy.Errors.{framing, zero_stream_id}
use spdy.Stdlib.{Stdlib}
use spdy.Wire.{Result, ok, Action, ◌>>=◌, return, be8, be16, be32}
use spdy.Wire.Laws.{number-be8, number-be32, read_full-append}
use spdy.Wire.Reads.{Reads, return-Reads, bind-Reads, last-Reads, pass-Reads, Runs, bind-Runs}
use spdy.Frame.{
  RstStreamFrame, SettingsFlagIdValue, SettingsFrame, PingFrame, GoAwayFrame, WindowUpdateFrame,
  DataFrame, Frame, rst_stream, settings, ping, go_away, window_update, data_frame, type_rst_stream,
  type_settings, type_ping, type_go_away, type_window_update,
}
use spdy.Framer.{Framer, receive, receive_number}
use spdy.Framer.Read.{
  read_rst_stream, read_flag_id_values, read_settings, read_ping, read_go_away, read_window_update,
  read_body, parse_control_frame, parse_data_frame, read_frame,
}
use spdy.Framer.Encoding.{
  control_header, header_of, rst_stream_bytes, values_bytes, settings_bytes, ping_bytes,
  go_away_bytes, window_update_bytes, data_bytes, IsU8, IsU24, IsU32, AreValues,
}

-- The first word of a control frame: the control bit, version 3 and the type.
first_word : (t : ℕ) → t < 2 ^ 16 → be32 (0x80030000 + t) ≡ be16 0x8003 ++ be16 t
first_word t h = ground arith

module _ (std : Stdlib) (f : Framer std) where
  -- `f` with other bytes to come.
  abbrev pub ahead : Bytes → Framer std
  ahead bs = record f { input = bs }

  abbrev pub Ahead : Framer std → Bytes → Type 0
  Ahead g bs = g ≡ ahead bs

  pub receive-Reads : (n : ℕ) (bs : Bytes) → length bs ≡ n → Reads Ahead (receive std n) bs bs
  unfolding receive
  receive-Reads n bs h g rest v = (ahead rest, rw v (rw (read_full-append n bs rest h) refl), refl)

  pub u32-Reads : (n : ℕ) → IsU32 n → Reads Ahead (receive_number std 4) (be32 n) n
  unfolding receive_number
  u32-Reads n h g rest v =
      let (t, read, left) = receive-Reads 4 (be32 n) refl g rest v in
      (t, rw read (rw (number-be32 n h) refl), left)

  pub u8-Reads : (n : ℕ) → IsU8 n → Reads Ahead (receive_number std 1) (be8 n) n
  unfolding receive_number
  u8-Reads n h g rest v =
      let (t, read, left) = receive-Reads 1 (be8 n) refl g rest v in
      (t, rw read (rw (number-be8 n h) refl), left)

  -- The header of a control frame selects the reader of the body.
  pub control-Runs :
      (After : Result Frame × Framer std → Bytes → Type 0) (t flags len : ℕ) (body : Bytes)
      → t < 2 ^ 16
      → IsU8 flags
      → IsU24 len
      → Runs Ahead After (read_body std (header_of t flags len)) body
      → Runs Ahead After (read_frame std) (control_header t flags len ++ body)
  unfolding read_frame parse_control_frame
  control-Runs After t flags len body ht hf hl p =
      subst (λ bs. Runs Ahead After (read_frame std) (bs ++ be32 low ++ body)) (first_word t ht)
        (bind-Runs Ahead After (receive_number std 4) _ (be32 word) (be32 low ++ body) word
          (u32-Reads word (omega arith)) (rw (is_control, version_3, the_type) parsed))
    where
      word : ℕ
      word = 0x80030000 + t

      low : ℕ
      low = flags * 2 ^ 24 + len

      is_control : (not (bit_and word 0x80000000 == 0)) ≡ true
      is_control = ground (arith, control_bit word)

      version_3 : bit_and (word / 2 ^ 16) 0x7fff ≡ 3
      version_3 = omega (arith, mask15 (word / 2 ^ 16))

      the_type : bit_and word 0xffff ≡ t
      the_type = omega (arith, mask16 word)

      the_flags : bit_and low 0xff000000 / 2 ^ 24 ≡ flags
      the_flags = omega (arith, top_byte low (omega arith))

      the_length : bit_and low 0xffffff ≡ len
      the_length = omega (arith, mask24 low)

      parsed : Runs Ahead After (parse_control_frame std 3 t) (be32 low ++ body)
      parsed =
          bind-Runs Ahead After (receive_number std 4) _ (be32 low) body low
            (u32-Reads low (omega arith)) (rw (the_flags, the_length) p)

  pub control-Reads :
      (t flags len : ℕ) (body : Bytes) (fr : Frame)
      → t < 2 ^ 16
      → IsU8 flags
      → IsU24 len
      → Reads Ahead (read_body std (header_of t flags len)) body fr
      → Reads Ahead (read_frame std) (control_header t flags len ++ body) fr
  control-Reads t flags len body fr =
      control-Runs (λ r rest. (g : Framer std) × (r ≡ (ok fr, g)) × Ahead g rest) t flags len body

  pub ping-Reads :
      (fr : PingFrame)
      → fr.id ≢ 0
      → IsU32 fr.id
      → Reads Ahead
          (read_frame std)
          (ping_bytes fr)
          (ping (record fr { cf_header = header_of type_ping 0 4 }))
  unfolding read_body read_ping
  ping-Reads fr h k =
      control-Reads type_ping 0 4 (be32 fr.id) _ (omega arith) (omega arith) (omega arith) (
        last-Reads Ahead _ _ (be32 fr.id) _ _
          (last-Reads Ahead (receive_number std 4) _ (be32 fr.id) fr.id _ (u32-Reads fr.id k)
            (pass-Reads Ahead (fr.id == 0) _ _ [] _ (ground arith) (return-Reads Ahead _)))
          (return-Reads Ahead _))

  -- Two numbers of 32 bits, with which the other control frames begin or end.
  two-Reads :
      {B : Type 0} (k : ℕ → ℕ → Action (Framer std) B) (m n : ℕ) (b : B)
      → IsU32 m
      → IsU32 n
      → Reads Ahead (k m n) [] b
      → Reads Ahead
          (receive_number std 4 >>= λ x. receive_number std 4 >>= k x)
          (be32 m ++ be32 n)
          b
  two-Reads k m n b hm hn p =
      bind-Reads Ahead (receive_number std 4) _ (be32 m) (be32 n) m b (u32-Reads m hm)
        (last-Reads Ahead (receive_number std 4) (k m) (be32 n) n b (u32-Reads n hn) p)

  pub rst_stream-Reads :
      (fr : RstStreamFrame)
      → fr.stream_id ≢ 0
      → fr.status ≢ 0
      → IsU32 fr.stream_id
      → IsU32 fr.status
      → Reads Ahead
          (read_frame std)
          (rst_stream_bytes fr)
          (rst_stream (record fr { cf_header = header_of type_rst_stream 0 8 }))
  unfolding read_body read_rst_stream
  rst_stream-Reads fr h k hi ks =
      let body = be32 fr.stream_id ++ be32 fr.status in
      control-Reads type_rst_stream 0 8 body _ (omega arith) (omega arith) (omega arith) (
        last-Reads Ahead _ _ body _ _
          (two-Reads _ fr.stream_id fr.status _ hi ks (
            pass-Reads Ahead (fr.status == 0) _ _ [] _ (ground arith) (
              pass-Reads Ahead (fr.stream_id == 0) _ _ [] _ (ground arith) (return-Reads Ahead _))))
          (return-Reads Ahead _))

  pub go_away-Reads :
      (fr : GoAwayFrame)
      → IsU32 fr.last_good_stream_id
      → IsU32 fr.status
      → Reads Ahead
          (read_frame std)
          (go_away_bytes fr)
          (go_away (record fr { cf_header = header_of type_go_away 0 8 }))
  unfolding read_body read_go_away
  go_away-Reads fr hi ks =
      let body = be32 fr.last_good_stream_id ++ be32 fr.status in
      control-Reads type_go_away 0 8 body _ (omega arith) (omega arith) (omega arith) (
        last-Reads Ahead _ _ body _ _
          (two-Reads _ fr.last_good_stream_id fr.status _ hi ks (return-Reads Ahead _))
          (return-Reads Ahead _))

  pub window_update-Reads :
      (fr : WindowUpdateFrame)
      → IsU32 fr.stream_id
      → IsU32 fr.delta_window_size
      → Reads Ahead
          (read_frame std)
          (window_update_bytes fr)
          (window_update (record fr { cf_header = header_of type_window_update 0 8 }))
  unfolding read_body read_window_update
  window_update-Reads fr hi ks =
      let body = be32 fr.stream_id ++ be32 fr.delta_window_size in
      control-Reads type_window_update 0 8 body _ (omega arith) (omega arith) (omega arith) (
        last-Reads Ahead _ _ body _ _
          (two-Reads _ fr.stream_id fr.delta_window_size _ hi ks (return-Reads Ahead _))
          (return-Reads Ahead _))

  values-Reads :
      (vs : List SettingsFlagIdValue)
      → AreValues vs
      → Reads Ahead (read_flag_id_values std (length vs)) (values_bytes vs) vs
  unfolding read_flag_id_values
  values-Reads [] h = return-Reads Ahead []
  values-Reads (v ∷ vs) (hf, hi, hv, h) =
      bind-Reads Ahead (receive_number std 4) _ (be32 low) (be32 v.value ++ values_bytes vs) low _
        (u32-Reads low (omega arith))
        (bind-Reads Ahead (receive_number std 4) _ (be32 v.value) (values_bytes vs) v.value _
          (u32-Reads v.value hv)
          (last-Reads Ahead (read_flag_id_values std (length vs)) _ (values_bytes vs) vs (v ∷ vs)
            (values-Reads vs h) (rw (the_flag, the_id) (return-Reads Ahead (v ∷ vs)))))
    where
      low : ℕ
      low = v.flag * 2 ^ 24 + v.id

      the_flag : bit_and low 0xff000000 / 2 ^ 24 ≡ v.flag
      the_flag = omega (arith, top_byte low (omega arith))

      the_id : bit_and low 0xffffff ≡ v.id
      the_id = omega (arith, mask24 low)

  pub settings-Reads :
      (fr : SettingsFrame)
      → IsU8 fr.cf_header.flags
      → IsU24 (length fr.flag_id_values * 8 + 4)
      → AreValues fr.flag_id_values
      → Reads Ahead (read_frame std) (settings_bytes fr) (
          settings (record fr {
            cf_header =
                header_of type_settings fr.cf_header.flags (length fr.flag_id_values * 8 + 4);
          }))
  unfolding read_body read_settings
  settings-Reads fr hf hl hv =
      let n = length fr.flag_id_values in
      let body = be32 n ++ values_bytes fr.flag_id_values in
      control-Reads type_settings _ _ body _ (omega arith) hf hl (
        last-Reads Ahead _ _ body _ _
          (bind-Reads Ahead (receive_number std 4) _ (be32 n) (values_bytes fr.flag_id_values) n _
            (u32-Reads n (omega arith))
            (last-Reads Ahead _ _ (values_bytes fr.flag_id_values) _ _
              (values-Reads fr.flag_id_values hv) (return-Reads Ahead _)))
          (return-Reads Ahead _))

  pub data-Reads :
      (fr : DataFrame)
      → fr.stream_id ≢ 0
      → fr.stream_id < 2 ^ 31
      → IsU8 fr.flags
      → IsU24 (length fr.content)
      → Reads Ahead (read_frame std) (data_bytes fr) (data_frame fr)
  unfolding read_frame parse_data_frame
  data-Reads fr h hi hf hl =
      bind-Reads Ahead (receive_number std 4) _ (be32 fr.stream_id) (be32 low ++ fr.content)
        fr.stream_id _ (u32-Reads fr.stream_id (omega arith))
        (rw (no_control, the_id)
          (bind-Reads Ahead (receive_number std 4) _ (be32 low) fr.content low _
            (u32-Reads low (omega arith))
            (rw (the_length, the_flags)
              (last-Reads Ahead (receive std (length fr.content)) _ fr.content fr.content _
                (receive-Reads (length fr.content) fr.content refl)
                (pass-Reads Ahead (fr.stream_id == 0) (framing zero_stream_id 0)
                  (return (data_frame fr)) [] _ (ground arith) (return-Reads Ahead _))))))
    where
      low : ℕ
      low = fr.flags * 2 ^ 24 + length fr.content

      no_control : (not (bit_and fr.stream_id 0x80000000 == 0)) ≡ false
      no_control = ground (arith, control_bit fr.stream_id)

      the_id : bit_and fr.stream_id 0x7fffffff ≡ fr.stream_id
      the_id = omega (arith, mask31 fr.stream_id)

      the_length : bit_and low 0xffffff ≡ length fr.content
      the_length = omega (arith, mask24 low)

      the_flags : low / 2 ^ 24 ≡ fr.flags
      the_flags = omega arith
