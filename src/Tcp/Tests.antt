-- ===== src/Tcp/Tests.antt =====
-- `send_all` on a socket that takes one byte at a time, and on one that takes all.
use multi_instrument_orderbo.Prelude.{ℕ, zero, suc, ap, [], ◌∷◌, ℤ, pos, negsuc, pos_part, arith}
use multi_instrument_orderbo.Tcp.Written.{IsSend, Written, send_all-Written}

abbrev one_byte : ℕ → ℕ → ℤ
one_byte k zero = negsuc 0
one_byte k (suc n) = pos 1

one_byte-IsSend : IsSend one_byte
one_byte-IsSend k zero m e = omega (arith, ap pos_part e)
one_byte-IsSend k (suc n) m e = omega (arith, ap pos_part e)

send_all-Written_example : Written one_byte 3 0 (5 ∷ 6 ∷ 7 ∷ [])
send_all-Written_example =
    send_all-Written one_byte 3 0 (5 ∷ 6 ∷ 7 ∷ []) one_byte-IsSend (omega arith)
