-- ===== src/Engine.antt =====
-- src/engine/order_message.h, and the loop of `MatchingEngine::run` of src/engine/matching_engine.h
-- over the messages that its queue delivers. The clock readings and the latency vectors are left out.
pub mod Latency
pub mod Shutdown
pub mod Timed
pub mod Reports
pub mod Samples
mod Tests
use lobook.Base.{ℕ, Bool, true, false, List, [], ◌∷◌, Run, ok, ◌>>=◌, if◌then◌else◌}
use lobook.BitsetBook.{Book, cancel_order}
use lobook.BitsetBook.Match.{submit_order, init}

pub data MessageType : Type 0 where
  submit : MessageType
  cancel : MessageType
  shutdown : MessageType

pub record OrderMessage : Type 0 where
  pub id : ℕ
  pub price : ℕ
  pub qty : ℕ
  pub timestamp : ℕ
  pub is_buy : Bool
  pub type : MessageType

-- The engine's thread: it waits in `pop` for another message, or it has left its loop.
pub record Engine : Type 0 where
  pub book : Book
  pub stopped : Bool

-- What the body of the loop does with a message that is no SHUTDOWN.
unfoldable pub handle : Book → OrderMessage → Run Book
handle b msg = elim msg.type [
  | submit ↦ submit_order b msg.id msg.price msg.qty msg.is_buy
  | cancel ↦ cancel_order b msg.id
  | shutdown ↦ ok b
]

abbrev pub is_shutdown : OrderMessage → Bool
is_shutdown msg = elim msg.type [ submit ↦ false | cancel ↦ false | shutdown ↦ true ]

-- The loop, on the messages that `pop` returns.
unfoldable pub process : Book → List OrderMessage → Run Engine
process b [] = ok (record { book = b; stopped = false })
process b (msg ∷ msgs) =
    if is_shutdown msg
    then ok (record { book = b; stopped = true })
    else do b' ← handle b msg; process b' msgs

unfoldable pub run : ℕ → List OrderMessage → Run Engine
run max_orders msgs = do b ← init max_orders; process b msgs

-- The message that `stop` pushes.
abbrev pub stop_message : OrderMessage
stop_message = record { id = 0; price = 0; qty = 0; timestamp = 0; is_buy = false; type = shutdown }
