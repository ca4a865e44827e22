-- ===== src/Proxy/Connection.antt =====
-- `wsconn`, `terminalSizeQueue` and the goroutine that feeds the standard input, of
-- internal/proxy/server.go. Of a WebSocket the code sees the messages that arrive, in order, until
-- a read fails; a message is its bytes.
pub mod Laws
use kube_debug_sess.Prelude.{
  ℕ, Bool, true, false, List, [], ◌∷◌, ◌++◌, length, take, drop, ltb, if◌then◌else◌,
}

abbrev pub Bytes : Type 0
Bytes = List ℕ

-- `incoming` is what the connection has yet to deliver before it fails.
pub record WsConn : Type 0 where
  pub read_buffer : Bytes
  pub incoming : List Bytes

-- What `Read` returns: the bytes copied, and whether the error is io.EOF.
pub record ReadResult : Type 0 where
  pub copied : Bytes
  at_eof : Bool

-- `copy(p, message)` and `w.readBuffer = message[n:]` where bytes are left.
unfoldable pub deliver : ℕ → Bytes → List Bytes → ReadResult × WsConn
deliver size message incoming = (
  record { copied = take size message; at_eof = false },
  record { read_buffer = drop size message; incoming = incoming },
)

unfoldable pub read_message : ℕ → List Bytes → ReadResult × WsConn
unfolding deliver
read_message size [] =
    (record { copied = []; at_eof = true }, record { read_buffer = []; incoming = [] })
read_message size (message ∷ incoming) = deliver size message incoming

-- `Read(p)` with `len(p) = size`.
unfoldable pub read : ℕ → WsConn → ReadResult × WsConn
unfolding deliver read_message
read size w =
    if ltb 0 (length w.read_buffer)
    then deliver size w.read_buffer w.incoming
    else read_message size w.incoming

-- `Write(p)`: the count and whether it failed, from whether the message could be written.
unfoldable pub write : Bool → Bytes → ℕ × Bool
write written p = if written then (length p, false) else (0, true)

pub record TerminalSize : Type 0 where
  pub width : ℕ
  pub height : ℕ

-- A channel: what is in its buffer, and whether it is closed.
pub record Channel : Type 0 where
  pub buffered : List TerminalSize
  pub is_closed : Bool

-- A receive on an open, empty channel blocks.
pub data Received : Type 0 where
  size : TerminalSize → Channel → Received
  closed : Received
  blocks : Received

unfoldable pub receive : List TerminalSize → Bool → Received
receive (s ∷ rest) is_closed = size s (record { buffered = rest; is_closed = is_closed })
receive [] true = closed
receive [] false = blocks

-- `Next` of `terminalSizeQueue`: nil once the channel is closed.
unfoldable pub next : Channel → Received
unfolding receive
next ch = receive ch.buffered ch.is_closed

-- The goroutine from the WebSocket to the standard input: each message is written to the pipe,
-- until a read fails (the list ends) or a write does (`room` counts the writes that succeed).
unfoldable pub relay : ℕ → List Bytes → Bytes
relay ℕ.zero incoming = []
relay (ℕ.suc room) [] = []
relay (ℕ.suc room) (payload ∷ incoming) = payload ++ relay room incoming
