-- ===== src/Framer/RoundTrip/Receives.antt =====
-- `ReadFrame` of spdyframing/read.go reads the layout of a frame back.
use spdy.Stdlib.{Stdlib}
use spdy.Wire.Reads.{Reads}
use spdy.Frame.{
  Frame, syn_stream, syn_reply, rst_stream, settings, ping, go_away, headers, window_update,
  data_frame,
}
use spdy.Framer.{Framer}
use spdy.Framer.Read.{read_frame}
use spdy.Framer.Decode.{
  Ahead, ping-Reads, rst_stream-Reads, go_away-Reads, window_update-Reads, settings-Reads,
  data-Reads,
}
use spdy.Framer.DecodeHeaders.{syn_stream-Reads, syn_reply-Reads, headers-Reads}
use spdy.Framer.RoundTrip.{wire, stamped, IsWire, IsPlain}

module _ (std : Stdlib) where
  pub wire-Reads :
      (fr : Frame) (f : Framer std)
      → IsWire std.unicode_lower fr
      → IsPlain std f
      → Reads
          (Ahead std f)
          (read_frame std)
          (wire std.unicode_lower fr)
          (stamped std.unicode_lower fr)
  wire-Reads (syn_stream fr) f (i, w, a, p, s, fl, hs) v =
      syn_stream-Reads std f v.disabled fr hs.comes_back hs.allowed i w a p s fl hs.block_fits
        hs.count_fits
  wire-Reads (syn_reply fr) f (i, w, fl, hs) v =
      syn_reply-Reads std f v.disabled fr hs.comes_back hs.allowed i w fl hs.block_fits
        hs.count_fits
  wire-Reads (rst_stream fr) f (i, w, s, t) v = rst_stream-Reads std f fr i s w t
  wire-Reads (settings fr) f (fl, n, vs) v = settings-Reads std f fr fl n vs
  wire-Reads (ping fr) f (i, w) v = ping-Reads std f fr i w
  wire-Reads (go_away fr) f (w, s) v = go_away-Reads std f fr w s
  wire-Reads (headers fr) f (i, w, fl, hs) v =
      headers-Reads std f v.disabled fr hs.comes_back hs.allowed i w fl hs.block_fits hs.count_fits
  wire-Reads (window_update fr) f (w, d) v = window_update-Reads std f fr w d
  wire-Reads (data_frame fr) f (i, w, fl, n) v = data-Reads std f fr i w fl n
