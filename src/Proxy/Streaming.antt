-- ===== src/Proxy/Streaming.antt =====
-- The tasks of `stream` of internal/proxy/server.go while a user is attached, as steps in any
-- order: the goroutine that forwards the messages of the WebSocket into the pipe, the one that
-- sends pings, and `StreamWithContext`, which reads the pipe and asks for terminal sizes until it
-- returns. A write to an `io.Pipe` blocks until reads have consumed it, or it fails once the
-- reading end is closed; a read takes as many bytes as its buffer has room for. When the reading
-- end is closed is the library's, so a write may fail at any time here.
pub mod Laws
pub mod Drains
use kube_debug_sess.Prelude.{ℕ, suc, ◌≡◌, Bool, true, false, List, [], ◌∷◌, ◌++◌, take, drop}
use kube_debug_sess.Proxy.Connection.{Bytes, TerminalSize, Channel, size, next}

-- Where the forwarding goroutine stands: in `ReadMessage`, in `Write` with what is left of a
-- payload, or at one of its two returns.
pub data Forwarder : Type 0 where
  reading : Forwarder
  writing : Bytes → Forwarder
  read_failed : Forwarder
  write_failed : Forwarder

pub data Pinger : Type 0 where
  pinging : Pinger
  stopped : Pinger

-- `incoming` is what the WebSocket delivers before a read fails, `consumed` what was read from the
-- pipe, `resize_chan` and `taken` the sizes in the queue and those handed out, `is_done` whether
-- `StreamWithContext` has returned and `done` is closed.
pub record StreamState : Type 0 where
  pub incoming : List Bytes
  pub forwarder : Forwarder
  pub consumed : Bytes
  pub resize_chan : Channel
  pub taken : List TerminalSize
  pub pinger : Pinger
  pub pings : ℕ
  pub is_done : Bool

abbrev pub first_size : TerminalSize
first_size = record { width = 120; height = 40 }

-- When `StreamWithContext` is called.
abbrev pub started : List Bytes → StreamState
started messages = record {
  incoming = messages;
  forwarder = reading;
  consumed = [];
  resize_chan = record { buffered = first_size ∷ []; is_closed = false };
  taken = [];
  pinger = pinging;
  pings = 0;
  is_done = false;
}

-- A write is over when all of it is consumed.
unfoldable pub after_read : Bytes → Forwarder
after_read [] = reading
after_read (b ∷ p) = writing (b ∷ p)

pub data StreamStep : StreamState → StreamState → Type 0 where
  receives :
      {s : StreamState} (message : Bytes) (rest : List Bytes)
      → s.forwarder ≡ reading
      → s.incoming ≡ message ∷ rest
      → StreamStep s (record s { incoming = rest; forwarder = writing message })
  fails_to_receive :
      {s : StreamState}
      → s.forwarder ≡ reading
      → s.incoming ≡ []
      → StreamStep s (record s { forwarder = read_failed })
  consumes :
      {s : StreamState} (n : ℕ) (payload : Bytes)
      → s.forwarder ≡ writing payload
      → StreamStep s (record s {
        consumed = s.consumed ++ take n payload;
        forwarder = after_read (drop n payload);
      })
  fails_to_write :
      {s : StreamState} (payload : Bytes)
      → s.forwarder ≡ writing payload
      → StreamStep s (record s { forwarder = write_failed })
  takes_size :
      {s : StreamState} (t : TerminalSize) (ch : Channel)
      → next s.resize_chan ≡ size t ch
      → StreamStep s (record s { resize_chan = ch; taken = s.taken ++ (t ∷ []) })
  pings_once :
      {s : StreamState} → s.pinger ≡ pinging → StreamStep s (record s { pings = suc s.pings })
  stops_pinging :
      {s : StreamState}
      → s.pinger ≡ pinging
      → s.is_done ≡ true
      → StreamStep s (record s { pinger = stopped })
  returns : {s : StreamState} → s.is_done ≡ false → StreamStep s (record s { is_done = true })

-- Any number of steps, in any order.
pub data Steps : StreamState → StreamState → Type 0 where
  none_left : {s : StreamState} → Steps s s
  and_then : {s t u : StreamState} → StreamStep s t → Steps t u → Steps s u
