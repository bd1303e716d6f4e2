-- ===== src/Tokio.antt =====
-- What the servers and the application use of tokio and tokio-util: cancellation tokens and
-- oneshot channels. They are parameters; the laws are what their documentation promises.
use filestore.Base.{Bool, true, false, ◌≡◌}

-- What a receiver sees: nothing yet, the value, or that the sender is gone.
pub data Received : Type 0 where
  pending arrived closed : Received

pub record Tokio : Type 1 where
  pub Token : Type 0
  pub new_token : Token
  pub cancel : Token → Token
  pub is_cancelled : Token → Bool
  pub Oneshot : Type 0
  pub channel : Oneshot
  pub send : Oneshot → Oneshot
  pub drop_sender : Oneshot → Oneshot
  pub received : Oneshot → Received

pub record IsLawful (T : Tokio) : Type 0 where
  pub new_token_live : T.is_cancelled T.new_token ≡ false
  pub cancel_cancels : (t : T.Token) → T.is_cancelled (T.cancel t) ≡ true
  pub received-channel : T.received T.channel ≡ pending
  pub received-send : (c : T.Oneshot) → T.received c ≡ pending → T.received (T.send c) ≡ arrived
  pub received-drop :
      (c : T.Oneshot) → T.received c ≡ pending → T.received (T.drop_sender c) ≡ closed
  pub received-drop_sent :
      (c : T.Oneshot) → T.received c ≡ arrived → T.received (T.drop_sender c) ≡ arrived
