-- ===== src/Proxy/Connection/Laws.antt =====
-- A WebSocket read in pieces of any sizes loses and reorders no byte.
use kube_debug_sess.Prelude.{
  ℕ, zero, suc, ◌<◌, ◌⊎◌, inl, inr, ◌≡◌, refl, sym, ap, ◌∙◌, List, [], ◌∷◌, ◌++◌, length, take,
  drop, take-append-drop, arith, lt→ltb,
}
use mathlib.Core.List.{append_assoc}
use kube_debug_sess.Proxy.Connection.{Bytes, WsConn, deliver, read_message, read, relay}

-- All bytes that a connection has yet to hand out.
abbrev pub flat : List Bytes → Bytes
flat [] = []
flat (m ∷ ms) = m ++ flat ms

abbrev pub remaining : WsConn → Bytes
remaining w = w.read_buffer ++ flat w.incoming

deliver-remaining :
    (size : ℕ) (message : Bytes) (incoming : List Bytes)
    → (deliver size message incoming).0.copied ++ remaining (deliver size message incoming).1
      ≡ message ++ flat incoming
unfolding deliver
deliver-remaining size message incoming =
    sym (append_assoc (take size message) (drop size message) (flat incoming))
    ∙ ap (λ l. l ++ flat incoming) (take-append-drop size message)

read_message-remaining :
    (size : ℕ) (incoming : List Bytes)
    → (read_message size incoming).0.copied ++ remaining (read_message size incoming).1
      ≡ flat incoming
unfolding read_message
read_message-remaining size [] = refl
read_message-remaining size (message ∷ incoming) = deliver-remaining size message incoming

read_parts :
    (size : ℕ) (buffer : Bytes) (incoming : List Bytes)
    → let r = read size (record { read_buffer = buffer; incoming = incoming }) in
      r.0.copied ++ remaining r.1 ≡ buffer ++ flat incoming
unfolding read
read_parts size [] incoming = read_message-remaining size incoming
read_parts size (b ∷ buffer) incoming =
    rw (lt→ltb 0 (suc (length buffer)) (omega arith)) (deliver-remaining size (b ∷ buffer) incoming)

-- What a read returns, followed by what is then left, is what was left before it: whatever the size
-- of the caller's buffer, no byte is lost, repeated or reordered.
read-remaining :
    (size : ℕ) (w : WsConn) → (read size w).0.copied ++ remaining (read size w).1 ≡ remaining w
read-remaining size w = read_parts size w.read_buffer w.incoming

-- `Read` again and again, with the sizes of the caller's buffers: all bytes copied, and the rest.
pub read_all : List ℕ → WsConn → Bytes × WsConn
read_all [] w = ([], w)
read_all (size ∷ sizes) w =
    let (r, w') = read size w in
    let (copied, last) = read_all sizes w' in (r.copied ++ copied, last)

-- Over any number of calls of `Read` on a connection, with buffers of any sizes: the bytes that
-- they copy, in order, followed by what is left (the rest of the buffered message and the messages
-- still to come), are the bytes that were left before them. None is lost, repeated or reordered.
pub read_all-remaining :
    (sizes : List ℕ) (w : WsConn)
    → (read_all sizes w).0 ++ remaining (read_all sizes w).1 ≡ remaining w
unfolding read_all
read_all-remaining [] w = refl
read_all-remaining (size ∷ sizes) w =
    append_assoc (read size w).0.copied (read_all sizes (read size w).1).0 _
    ∙ ap (λ l. (read size w).0.copied ++ l) (read_all-remaining sizes (read size w).1)
    ∙ read-remaining size w

-- The messages past the ones written are all that the standard input lacks: its bytes followed by
-- theirs are the bytes of all messages, in order; and if no write fails before the read does, it
-- has all of them.
relay-remaining :
    (room : ℕ) (incoming : List Bytes)
    → (relay room incoming ++ flat (drop room incoming) ≡ flat incoming)
      × ((room < length incoming) ⊎ (relay room incoming ≡ flat incoming))
unfolding relay
relay-remaining zero [] = (refl, inr refl)
relay-remaining zero (m ∷ ms) = (refl, inl (omega arith))
relay-remaining (suc room) [] = (refl, inr refl)
relay-remaining (suc room) (m ∷ ms) =
    let (all, ended) = relay-remaining room ms in
    (
      append_assoc m (relay room ms) (flat (drop room ms)) ∙ ap (λ l. m ++ l) all,
      elim ended [ inl lt ↦ inl (omega arith) | inr e ↦ inr (ap (λ l. m ++ l) e) ],
    )
