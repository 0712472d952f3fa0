-- ===== src/Ipc/Channel.antt =====
-- What the ends of a connection in plugin/ctl/ipc use of Go: the buffered channels that they make, and
-- Write of plugin/ctl/ipc/conn.go.
use proxygw.Prelude.{
  Bool, List, Option, [], false, if◌then◌else◌, length, ltb, none, some, true, ◌++◌, ◌∷◌,
}
use proxygw.Ipc.Packet.{Message}

module _ {ℓ} {A : Type ℓ} where
  -- A send on a channel of capacity 16, the oldest value first; none is a send that waits.
  abbrev pub send : A → List A → Option (List A)
  send x xs = if ltb (length xs) 16 then some (xs ++ x ∷ []) else none

  -- A receive; none is a receive that waits.
  abbrev pub receive : List A → Option (A × List A)
  receive [] = none
  receive (x ∷ xs) = some (x, xs)

module _ {Options : Type 0} where
  -- What a connection has sent, the newest packet first. Write sends a packet or fails with an
  -- error of the connection, which is the argument's choice.
  abbrev pub write : Bool → Message Options → List (Message Options) → List (Message Options)
  write true p sent = p ∷ sent
  write false p sent = sent
