-- ===== src/Framer/Encode.antt =====
-- Each method of spdyframing/write.go writes the layout of its frame.
use spdy.Base.{
  ℕ, suc, ◌+◌, ◌*◌, ◌%◌, ◌^◌, ◌<◌, ◌≡◌, ◌≢◌, Bytes, Bool, true, false, not, ◌||◌, [], ◌∷◌, ◌++◌,
  List, ltb, ◌==◌, length, arith, if◌then◌else◌, bit_and,
}
use spdy.Base.Bits.{bit_or-join24, control_bit}
use spdy.Errors.{Error, framing, invalid_control_frame, invalid_data_frame, zero_stream_id}
use spdy.Stdlib.{Stdlib}
use spdy.Wire.{ok, err, return, fail_if, be16, be32}
use spdy.Frame.{
  RstStreamFrame, SettingsFlagIdValue, SettingsFrame, PingFrame, GoAwayFrame, WindowUpdateFrame,
  DataFrame, type_rst_stream, type_settings, type_ping, type_go_away, type_window_update,
  max_data_length,
}
use spdy.Framer.{send}
use spdy.Framer.Write.{
  top_and_low, stamp, write_control_frame_header, write_rst_stream, write_flag_id_values,
  write_settings, write_ping, write_go_away, write_window_update, write_data,
}
use spdy.Framer.Emit.{Emits, return-Emits, send-Emits, then-Emits, stop-Emits}
use spdy.Framer.Encoding.{
  control_header, rst_stream_bytes, values_bytes, settings_bytes, ping_bytes, go_away_bytes,
  window_update_bytes, data_bytes, IsU8, IsU24, AreValues,
}

top_and_low-eq : (x y : ℕ) → IsU8 x → IsU24 y → top_and_low x y ≡ x * 2 ^ 24 + y
top_and_low-eq x y hx hy =
    let whole : x * 2 ^ 24 % 2 ^ 32 ≡ x * 2 ^ 24 = omega arith in rw whole (bit_or-join24 x y hy)

module _ (std : Stdlib) where
  pub control_header-Emits :
      (frame_type flags len : ℕ)
      → IsU8 flags
      → IsU24 len
      → Emits std
          (write_control_frame_header std (stamp frame_type flags len))
          (control_header frame_type flags len)
          (ok tt)
  unfolding write_control_frame_header
  control_header-Emits frame_type flags len hf hl =
      let word : top_and_low flags (len % 2 ^ 32) ≡ flags * 2 ^ 24 + len =
        let small : len % 2 ^ 32 ≡ len = omega arith in rw small (top_and_low-eq flags len hf hl) in
      then-Emits std _ _ _ (send-Emits std (be16 0x8003)) (
        then-Emits std _ _ _ (send-Emits std (be16 frame_type))
          (rw word (send-Emits std (be32 (flags * 2 ^ 24 + len)))))

  pass-Emits : (b : Bool) (e : Error) → b ≡ false → Emits std (fail_if b e) [] (ok tt)
  pass-Emits b e h = rw h (return-Emits std (ok tt))

  fail-Emits : (b : Bool) (e : Error) → b ≡ true → Emits std (fail_if b e) [] (err e)
  fail-Emits b e h = rw h (return-Emits std (err e))

  -- The methods refuse a zero id, and otherwise write the layout.
  pub write_ping-Emits :
      (fr : PingFrame) → fr.id ≢ 0 → Emits std (write_ping std fr) (ping_bytes fr) (ok tt)
  unfolding write_ping
  write_ping-Emits fr h = then-Emits std [] _ _ (pass-Emits _ _ (ground arith)) (
      then-Emits std _ _ _ (control_header-Emits type_ping 0 4 (omega arith) (omega arith))
        (send-Emits std (be32 fr.id)))

  pub write_go_away-Emits :
      (fr : GoAwayFrame) → Emits std (write_go_away std fr) (go_away_bytes fr) (ok tt)
  unfolding write_go_away
  write_go_away-Emits fr =
      then-Emits std _ _ _ (control_header-Emits type_go_away 0 8 (omega arith) (omega arith)) (
        then-Emits std _ _ _ (send-Emits std (be32 fr.last_good_stream_id))
          (send-Emits std (be32 fr.status)))

  pub write_window_update-Emits :
      (fr : WindowUpdateFrame)
      → Emits std (write_window_update std fr) (window_update_bytes fr) (ok tt)
  unfolding write_window_update
  write_window_update-Emits fr =
      then-Emits std _ _ _ (control_header-Emits type_window_update 0 8 (omega arith) (omega arith))
        (then-Emits std _ _ _ (send-Emits std (be32 fr.stream_id))
          (send-Emits std (be32 fr.delta_window_size)))

  pub write_rst_stream-Emits :
      (fr : RstStreamFrame)
      → fr.stream_id ≢ 0
      → fr.status ≢ 0
      → Emits std (write_rst_stream std fr) (rst_stream_bytes fr) (ok tt)
  unfolding write_rst_stream
  write_rst_stream-Emits fr h k = then-Emits std [] _ _ (pass-Emits _ _ (ground arith)) (
      then-Emits std _ _ _ (control_header-Emits type_rst_stream 0 8 (omega arith) (omega arith)) (
        then-Emits std _ _ _ (send-Emits std (be32 fr.stream_id)) (
          then-Emits std [] _ _ (pass-Emits _ _ (ground arith)) (send-Emits std (be32 fr.status)))))

  -- With a status of zero RST_STREAM fails, but only after twelve of the sixteen bytes that its
  -- header announces have been written.
  pub write_rst_stream_zero :
      (fr : RstStreamFrame)
      → fr.stream_id ≢ 0
      → fr.status ≡ 0
      → Emits std
          (write_rst_stream std fr)
          (control_header type_rst_stream 0 8 ++ be32 fr.stream_id)
          (err (framing invalid_control_frame fr.stream_id))
  unfolding write_rst_stream
  write_rst_stream_zero fr h k = then-Emits std [] _ _ (pass-Emits _ _ (ground arith)) (
      then-Emits std _ _ _ (control_header-Emits type_rst_stream 0 8 (omega arith) (omega arith)) (
        then-Emits std _ [] _ (send-Emits std (be32 fr.stream_id)) (
          stop-Emits std _ [] _ (
            fail-Emits (fr.status == 0) (framing invalid_control_frame fr.stream_id)
              (ground arith)))))

  values-Emits :
      (vs : List SettingsFlagIdValue)
      → AreValues vs
      → Emits std (write_flag_id_values std vs) (values_bytes vs) (ok tt)
  unfolding write_flag_id_values
  values-Emits [] h = return-Emits std (ok tt)
  values-Emits (v ∷ vs) h = rw (top_and_low-eq v.flag v.id h.0 h.1) (
      then-Emits std _ _ _ (send-Emits std (be32 (v.flag * 2 ^ 24 + v.id)))
        (then-Emits std _ _ _ (send-Emits std (be32 v.value)) (values-Emits vs h.3)))

  pub write_settings-Emits :
      (fr : SettingsFrame)
      → IsU8 fr.cf_header.flags
      → IsU24 (length fr.flag_id_values * 8 + 4)
      → AreValues fr.flag_id_values
      → Emits std (write_settings std fr) (settings_bytes fr) (ok tt)
  unfolding write_settings
  write_settings-Emits fr hf hl hv =
      then-Emits std _ _ _ (control_header-Emits type_settings _ _ hf hl) (
        then-Emits std _ _ _ (send-Emits std (be32 (length fr.flag_id_values)))
          (values-Emits fr.flag_id_values hv))

  content-Emits :
      (bs : Bytes) → Emits std (if ltb 0 (length bs) then send std bs else return tt) bs (ok tt)
  content-Emits [] = return-Emits std (ok tt)
  content-Emits (b ∷ bs) =
      let more : ltb 0 (suc (length bs)) ≡ true = ground arith in rw more (send-Emits std (b ∷ bs))

  pub write_data-Emits :
      (fr : DataFrame)
      → fr.stream_id ≢ 0
      → fr.stream_id < 2 ^ 31
      → IsU8 fr.flags
      → IsU24 (length fr.content)
      → Emits std (write_data std fr) (data_bytes fr) (ok tt)
  unfolding write_data
  write_data-Emits fr h hi hf hl =
      let fits : (not (bit_and fr.stream_id 0x80000000 == 0)
            || ltb max_data_length (length fr.content))
          ≡ false =
        ground (arith, control_bit fr.stream_id) in
      then-Emits std [] _ _
        (pass-Emits (fr.stream_id == 0) (framing zero_stream_id 0) (ground arith))
        (then-Emits std [] _ _ (pass-Emits _ (framing invalid_data_frame fr.stream_id) fits) (
          then-Emits std _ _ _ (send-Emits std (be32 fr.stream_id)) (
            rw (top_and_low-eq fr.flags (length fr.content) hf hl) (
              then-Emits std _ _ _ (send-Emits std (be32 (fr.flags * 2 ^ 24 + length fr.content)))
                (content-Emits fr.content)))))
