-- ===== src/Dispatcher/Talk.antt =====
-- The order in which a session answers its client: what it may say in each of its states.
use multi_instrument_orderbo.Prelude.{ℕ, Bool, true, false, ◌≡◌, List, [], ◌∷◌, ◌++◌}
use multi_instrument_orderbo.Protocol.{
  MessageBody, logon_msg, logout_msg, heartbeat_msg, new_order_msg, cancel_order_msg, order_ack_msg,
  order_reject_msg, fill_msg, cancelled_msg,
}
use multi_instrument_orderbo.Session
use multi_instrument_orderbo.Session.{SessionState, active, closing}
use multi_instrument_orderbo.Dispatcher.{is_active}

-- The messages that leave the state as it is: what is done for an order only while the session is
-- active, rejections and heartbeats always.
abbrev pub is_said : MessageBody → SessionState → Bool
is_said (logon_msg client_id) st = false
is_said logout_msg st = false
is_said heartbeat_msg st = true
is_said (new_order_msg m) st = false
is_said (cancel_order_msg m) st = false
is_said (order_ack_msg m) st = is_active st
is_said (order_reject_msg m) st = true
is_said (fill_msg m) st = is_active st
is_said (cancelled_msg id) st = is_active st

-- `Talks st c bs st' c'`: a session in the state `st` with the client `c` says the messages `bs` and
-- comes to the state `st'` with the client `c'`. A logon is said by a new session only, which it
-- makes active for the client that it names; a logout closes.
pub data Talks : SessionState → ℕ → List MessageBody → SessionState → ℕ → Type 0 where
  silent : (st : SessionState) (c : ℕ) → Talks st c [] st c
  says :
      (b : MessageBody) (st st' : SessionState) (c c' : ℕ) (bs : List MessageBody)
      → is_said b st ≡ true
      → Talks st c bs st' c'
      → Talks st c (b ∷ bs) st' c'
  logs_on :
      (id : ℕ) (st' : SessionState) (c c' : ℕ) (bs : List MessageBody)
      → Talks active id bs st' c'
      → Talks Session.not_logged_on c (logon_msg id ∷ bs) st' c'
  logs_out :
      (st st' : SessionState) (c c' : ℕ) (bs : List MessageBody)
      → Talks closing c bs st' c'
      → Talks st c (logout_msg ∷ bs) st' c'

pub Talks-append :
    (st1 st2 st3 : SessionState) (c1 c2 c3 : ℕ) (bs cs : List MessageBody)
    → Talks st1 c1 bs st2 c2
    → Talks st2 c2 cs st3 c3
    → Talks st1 c1 (bs ++ cs) st3 c3
Talks-append _ _ st3 _ _ c3 _ cs (silent st c) k = k
Talks-append _ _ st3 _ _ c3 _ cs (says b st st' c c' bs said h) k =
    says b st st3 c c3 (bs ++ cs) said (Talks-append st st' st3 c c' c3 bs cs h k)
Talks-append _ _ st3 _ _ c3 _ cs (logs_on id st' c c' bs h) k =
    logs_on id st3 c c3 (bs ++ cs) (Talks-append active st' st3 id c' c3 bs cs h k)
Talks-append _ _ st3 _ _ c3 _ cs (logs_out st st' c c' bs h) k =
    logs_out st st3 c c3 (bs ++ cs) (Talks-append closing st' st3 c c' c3 bs cs h k)
