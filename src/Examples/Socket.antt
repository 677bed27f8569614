-- ===== src/Examples/Socket.antt =====
-- What the examples read from a web socket: the messages of tungstenite, without what the control
-- frames carry.
use l4_book.Prelude.{ℕ, List}

pub data Message : Type 0 where
  text binary : List ℕ → Message
  ping pong frame close : Message
