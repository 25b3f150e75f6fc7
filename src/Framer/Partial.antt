-- ===== src/Framer/Partial.antt =====
-- `Framer::next` on a part of a message.
use multi_instrument_orderbo.Prelude.{
  ℕ, ◌+◌, ◌^◌, ◌≤◌, ◌<◌, ◌≡◌, sym, ap, ◌∙◌, ltb, none, some, List, ◌∷◌, ◌++◌, length, take,
  length-append, Bool-cases, inl, inr, arith,
}
use multi_instrument_orderbo.Protocol.{MessageBody, header_size, IsBody}
use multi_instrument_orderbo.Codec.{decode_header, encode}
use multi_instrument_orderbo.Codec.RoundTrip.{Encoded, encode-Encoded}
use multi_instrument_orderbo.Framer.{next_body, next}
use multi_instrument_orderbo.Framer.Stream.{framer_of, take_front, take_more}

module _ (seq : ℕ) (b : MessageBody) (c : Encoded seq b) (bytes : List ℕ) (y : ℕ) (ys : List ℕ)
    (cut : encode seq b ≡ bytes ++ y ∷ ys) where
  joined : c.head ++ c.rest ≡ bytes ++ y ∷ ys
  joined = sym c.bytes ∙ cut

  missing : length bytes < header_size + c.header.body_length
  missing = omega (
    arith,
    ap length joined,
    length-append c.head c.rest,
    length-append bytes (y ∷ ys),
    c.head_size,
    c.length_kept,
  )

  header_in : header_size ≤ length bytes → decode_header (take header_size bytes) ≡ some c.header
  header_in h =
      ap decode_header (
        sym (take_more header_size bytes (y ∷ ys) h)
        ∙ ap (take header_size) (sym joined)
        ∙ take_front header_size c.head c.rest c.head_size)
      ∙ c.header_read

  next_waits : next (framer_of bytes) ≡ (framer_of bytes, none)
  unfolding next next_body
  next_waits = elim (Bool-cases (ltb (length bytes) header_size)) [
    | inl short ↦ ground (arith, short)
    | inr long ↦
        let head_in = header_in (ground (arith, long)) in
        ground (arith, long, head_in, missing, c.version_kept, c.length_kept, c.rest_size)
  ]

-- While a part of a message is still to come, `next` gives nothing, keeps what came in and flags no
-- error.
pub next_partial :
    (seq : ℕ) (b : MessageBody) (bytes : List ℕ) (y : ℕ) (ys : List ℕ)
    → seq < 2 ^ 32
    → IsBody b
    → encode seq b ≡ bytes ++ y ∷ ys
    → next (framer_of bytes) ≡ (framer_of bytes, none)
next_partial seq b bytes y ys h k cut = next_waits seq b (encode-Encoded seq b h k) bytes y ys cut
