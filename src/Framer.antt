-- ===== src/Framer.antt =====
-- `Framer` of include/ordbk/protocol/framer.hpp and src/protocol/framer.cpp: the bytes that have
-- come in and not been decoded yet, and the error that stops the framer.
pub mod Stream
pub mod Partial
use multi_instrument_orderbo.Prelude.{
  ℕ, ◌+◌, Bool, true, false, not, ltb, ◌==◌, if◌then◌else◌, Option, none, some, List, [], ◌∷◌, ◌++◌,
  length, take, drop,
}
use multi_instrument_orderbo.Protocol.{
  MessageHeader, MessageBody, DecodedMessage, header_size, max_body_size, protocol_version,
}
use multi_instrument_orderbo.Codec.{decode_header, decode_body}

pub data FramerError : Type 0 where
  no_error bad_version oversize_body bad_body : FramerError

pub record Framer : Type 0 where
  pub buf : List ℕ
  pub error : FramerError

-- A fresh framer, and what `reset` leaves.
abbrev pub new_framer : Framer
new_framer = record { buf = []; error = no_error }

abbrev pub has_error : FramerError → Bool
has_error no_error = false
has_error bad_version = true
has_error oversize_body = true
has_error bad_body = true

unfoldable pub feed : List ℕ → Framer → Framer
feed data_in f = if has_error f.error then f else record f { buf = f.buf ++ data_in }

-- `next` behind its read of the header.
unfoldable pub next_body : MessageHeader → Framer → Framer × Option DecodedMessage
next_body h f =
    if not (h.version == protocol_version)
    then (record f { error = bad_version }, none)
    else if ltb max_body_size h.body_length
    then (record f { error = oversize_body }, none)
    else let total = header_size + h.body_length in
      if ltb (length f.buf) total
      then (f, none)
      else elim (decode_body h.msg_type (take h.body_length (drop header_size f.buf))) [
        | none ↦ (record f { error = bad_body }, none)
        | some body ↦
            (record f { buf = drop total f.buf }, some (record { header = h; body = body }))
      ]

unfoldable pub next : Framer → Framer × Option DecodedMessage
next f =
    if has_error f.error
    then (f, none)
    else if ltb (length f.buf) header_size
    then (f, none)
    else elim (decode_header (take header_size f.buf)) [ none ↦ (f, none) | some h ↦ next_body h f ]
