-- ===== src/Client.antt =====
-- `Client` of include/ordbk/gateway/client.hpp and src/gateway/client.cpp. The socket is a
-- parameter: a list of the chunks that `recv_some` still gives, each at least a byte, behind which it
-- answers with 0 or -1; and `send`, as in Tcp.
pub mod Receiving
pub mod Wire
mod Tests
use multi_instrument_orderbo.Prelude.{
  ℕ, zero, suc, Bool, true, false, Option, none, some, List, [], ◌∷◌, length, ℤ,
}
use multi_instrument_orderbo.Protocol.{MessageBody, DecodedMessage}
use multi_instrument_orderbo.Codec.{encode}
use multi_instrument_orderbo.Framer.{Framer, new_framer, has_error, feed, next}
use multi_instrument_orderbo.Session.{next_outbound_seq}
use multi_instrument_orderbo.Tcp.{Sending, send_all}

pub record Client : Type 0 where
  pub framer : Framer
  pub out_seq : ℕ

abbrev pub new_client : Client
new_client = record { framer = new_framer; out_seq = 0 }

-- `k` is the number of the next system call. `send` is given as many calls as there are bytes.
unfoldable pub send : (ℕ → ℕ → ℤ) → ℕ → MessageBody → Client → Client × Option Sending
unfolding send_all
send calls k body c =
    let seq = next_outbound_seq c.out_seq in
    let bytes = encode seq body in
    (record c { out_seq = seq }, send_all (length bytes) calls k bytes)

-- What `recv` leaves of the socket, and its answer.
pub record Receipt : Type 0 where
  pub client : Client
  pub chunks : List (List ℕ)
  pub message : Option DecodedMessage

unfoldable pub recv : List (List ℕ) → Client → Receipt
unfolding next feed
recv [] c =
    let (f, m) = next c.framer in
    record { client = record c { framer = f }; chunks = []; message = m }
recv (chunk ∷ chunks) c =
    let (f, m) = next c.framer in
    elim m [
      | some d ↦ record {
        client = record c { framer = f };
        chunks = chunk ∷ chunks;
        message = some d;
      }
      | none ↦ elim (has_error f.error) [
        | true ↦ record {
          client = record c { framer = f };
          chunks = chunk ∷ chunks;
          message = none;
        }
        | false ↦ recv chunks (record c { framer = feed chunk f })
      ]
    ]

-- Calls of `recv` until one gives nothing, at most `n`.
unfoldable pub recv_many : ℕ → List (List ℕ) → Client → List DecodedMessage × Receipt
unfolding recv
recv_many zero chunks c = ([], record { client = c; chunks = chunks; message = none })
recv_many (suc n) chunks c =
    let r = recv chunks c in
    elim r.message [
      | none ↦ ([], r)
      | some d ↦ let (ds, last) = recv_many n r.chunks r.client in (d ∷ ds, last)
    ]
