-- ===== src/Dispatcher/Emitted.antt =====
-- The messages that a session emits one after the other.
use multi_instrument_orderbo.Prelude.{
  ℕ, true, ◌≡◌, refl, sym, ap, subst, ◌∙◌, Option, some, List, [], ◌∷◌, ◌++◌, some-eq,
}
use multi_instrument_orderbo.Protocol.{MessageBody}
use multi_instrument_orderbo.Session.{Session, emit, next_outbound_seq}
use multi_instrument_orderbo.Codec.{encode}
use multi_instrument_orderbo.Session.Exchange.{emit_all}
use multi_instrument_orderbo.Engine.{Engine}
use multi_instrument_orderbo.Dispatcher.Talk.{Talks, silent, says, is_said, Talks-append}

-- The number of the last message, and the bytes queued.
abbrev pub out_of : Session → ℕ × List ℕ
out_of s = (s.out_seq, s.outbound)

-- From `s` to `s'` some messages were emitted, and nothing else was queued; by them the session came
-- from the one's state and client to the other's.
pub record Emits (s s' : Session) : Type 0 where
  pub messages : List MessageBody
  pub queued : out_of s' ≡ out_of (emit_all messages s)
  pub talks : Talks s.state s.client_id messages s'.state s'.client_id

pub emit-out :
    (b : MessageBody) (s t : Session) → out_of s ≡ out_of t → out_of (emit b s) ≡ out_of (emit b t)
unfolding emit
emit-out b s t e =
    ap (λ (x : ℕ × List ℕ). (next_outbound_seq x.0, x.1 ++ encode (next_outbound_seq x.0) b)) e

pub emit_all-out :
    (bs : List MessageBody) (s t : Session)
    → out_of s ≡ out_of t
    → out_of (emit_all bs s) ≡ out_of (emit_all bs t)
emit_all-out [] s t e = e
emit_all-out (b ∷ bs) s t e = emit_all-out bs (emit b s) (emit b t) (emit-out b s t e)

emit_all-append :
    (bs cs : List MessageBody) (s : Session) → emit_all (bs ++ cs) s ≡ emit_all cs (emit_all bs s)
emit_all-append [] cs s = refl
emit_all-append (b ∷ bs) cs s = emit_all-append bs cs (emit b s)

pub Emits-trans : (s t u : Session) → Emits s t → Emits t u → Emits s u
Emits-trans s t u h k = record {
  messages = h.messages ++ k.messages;
  queued =
      k.queued
      ∙ emit_all-out k.messages t (emit_all h.messages s) h.queued
      ∙ ap out_of (sym (emit_all-append h.messages k.messages s));
  talks =
      Talks-append s.state t.state u.state s.client_id t.client_id u.client_id h.messages k.messages
        h.talks k.talks;
}

pub Emits-of_some :
    (s t s' : Session) (e e' : Engine)
    → Emits s t
    → ◌≡◌ {A = Option (Session × Engine)} (some (t, e)) (some (s', e'))
    → Emits s s'
Emits-of_some s t s' e e' k h = subst (Emits s) (ap (λ r. r.0) (some-eq h)) k

pub Emits-nothing : (s : Session) → Emits s s
Emits-nothing s = record { messages = []; queued = refl; talks = silent s.state s.client_id }

pub Emits-first :
    (b : MessageBody) (s t : Session) → is_said b s.state ≡ true → Emits (emit b s) t → Emits s t
unfolding emit
Emits-first b s t said h = record {
  messages = b ∷ h.messages;
  queued = h.queued;
  talks = says b s.state t.state s.client_id t.client_id h.messages said h.talks;
}

pub Emits-one : (b : MessageBody) (s : Session) → is_said b s.state ≡ true → Emits s (emit b s)
Emits-one b s said = Emits-first b s (emit b s) said (Emits-nothing (emit b s))
