-- ===== src/Proxy/Streaming/Laws.antt =====
-- What holds of a stream in every order of its steps.
use kube_debug_sess.Prelude.{
  ℕ, ◌≡◌, refl, sym, ap, ◌∙◌, ◌⊎◌, inl, inr, Bool, true, false, List, [], ◌∷◌, ◌++◌, take, drop,
  take-append-drop,
}
use mathlib.Core.Path.{subst}
use mathlib.Core.List.{append_assoc}
use kube_debug_sess.Proxy.Connection.{Bytes, TerminalSize, Channel, size, receive, next}
use kube_debug_sess.Proxy.Connection.Laws.{flat}
use kube_debug_sess.Proxy.Streaming.{
  Forwarder, reading, writing, read_failed, write_failed, pinging, StreamState, first_size, started,
  after_read, StreamStep, receives, fails_to_receive, consumes, fails_to_write, takes_size,
  pings_once, stops_pinging, returns, Steps, none_left, and_then,
}

-- What is still to come through the pipe, where no write has failed.
abbrev pub Pending : Forwarder → List Bytes → Bytes → Type 0
Pending reading incoming rest = rest ≡ flat incoming
Pending (writing p) incoming rest = rest ≡ p ++ flat incoming
Pending read_failed incoming rest = rest ≡ []
Pending write_failed incoming rest = Unit {0}

-- The bytes read from the pipe and the rest are those of all messages; the first size is in the
-- queue or was handed out, and the queue is open; pings stop only when the stream has returned.
pub record IsSound (messages : List Bytes) (s : StreamState) : Type 0 where
  pub rest : Bytes
  pub whole : s.consumed ++ rest ≡ flat messages
  pub left : Pending s.forwarder s.incoming rest
  pub sizes : s.taken ++ s.resize_chan.buffered ≡ first_size ∷ []
  is_open : s.resize_chan.is_closed ≡ false
  pinged : (s.pinger ≡ pinging) ⊎ (s.is_done ≡ true)

Pending-after_read :
    (p : Bytes) (incoming : List Bytes) → Pending (after_read p) incoming (p ++ flat incoming)
unfolding after_read
Pending-after_read [] incoming = refl
Pending-after_read (b ∷ p) incoming = refl

-- A receive that gives a size takes it off the front, and leaves the channel open or closed as it
-- was.
receive-size :
    (l : List TerminalSize) (closed : Bool) (t : TerminalSize) (ch : Channel)
    → receive l closed ≡ size t ch
    → (l ≡ t ∷ ch.buffered) × (ch.is_closed ≡ closed)
unfolding receive
receive-size (x ∷ l) closed t ch e = (cc e, cc e)
receive-size [] true t ch e = absurd (cc e)
receive-size [] false t ch e = absurd (cc e)

consumed-whole :
    (messages : List Bytes) (consumed payload : Bytes) (incoming : List Bytes) (n : ℕ)
    → consumed ++ (payload ++ flat incoming) ≡ flat messages
    → (consumed ++ take n payload) ++ (drop n payload ++ flat incoming) ≡ flat messages
consumed-whole messages consumed payload incoming n e =
    append_assoc consumed (take n payload) (drop n payload ++ flat incoming)
    ∙ ap (λ l. consumed ++ l)
        (sym (append_assoc (take n payload) (drop n payload) (flat incoming))
          ∙ ap (λ l. l ++ flat incoming) (take-append-drop n payload))
    ∙ e

step-IsSound :
    {messages : List Bytes} {s t : StreamState}
    → IsSound messages s
    → StreamStep s t
    → IsSound messages t
step-IsSound {s} i (receives message rest f e) =
    let left : i.rest ≡ flat s.incoming = subst (λ x. Pending x s.incoming i.rest) f i.left in
    record {
      rest = i.rest;
      whole = i.whole;
      left = left ∙ ap flat e;
      sizes = i.sizes;
      is_open = i.is_open;
      pinged = i.pinged;
    }
step-IsSound {s} i (fails_to_receive f e) =
    let left : i.rest ≡ flat s.incoming = subst (λ x. Pending x s.incoming i.rest) f i.left in
    record {
      rest = i.rest;
      whole = i.whole;
      left = left ∙ ap flat e;
      sizes = i.sizes;
      is_open = i.is_open;
      pinged = i.pinged;
    }
step-IsSound {messages} {s} i (consumes n payload f) =
    let left : i.rest ≡ payload ++ flat s.incoming =
      subst (λ x. Pending x s.incoming i.rest) f i.left in
    record {
      rest = drop n payload ++ flat s.incoming;
      whole =
          consumed-whole messages s.consumed payload s.incoming n
            (ap (λ l. s.consumed ++ l) (sym left) ∙ i.whole);
      left = Pending-after_read (drop n payload) s.incoming;
      sizes = i.sizes;
      is_open = i.is_open;
      pinged = i.pinged;
    }
step-IsSound i (fails_to_write payload f) = record {
  rest = i.rest;
  whole = i.whole;
  left = tt;
  sizes = i.sizes;
  is_open = i.is_open;
  pinged = i.pinged;
}
step-IsSound {s} i (takes_size t ch e) =
    let (front, closed) =
      receive-size s.resize_chan.buffered s.resize_chan.is_closed t ch (unfold next in e) in
    record {
      rest = i.rest;
      whole = i.whole;
      left = i.left;
      sizes =
          append_assoc s.taken (t ∷ []) ch.buffered ∙ ap (λ l. s.taken ++ l) (sym front) ∙ i.sizes;
      is_open = closed ∙ i.is_open;
      pinged = i.pinged;
    }
step-IsSound i (pings_once e) = record {
  rest = i.rest;
  whole = i.whole;
  left = i.left;
  sizes = i.sizes;
  is_open = i.is_open;
  pinged = i.pinged;
}
step-IsSound i (stops_pinging e d) = record {
  rest = i.rest;
  whole = i.whole;
  left = i.left;
  sizes = i.sizes;
  is_open = i.is_open;
  pinged = inr d;
}
step-IsSound i (returns d) = record {
  rest = i.rest;
  whole = i.whole;
  left = i.left;
  sizes = i.sizes;
  is_open = i.is_open;
  pinged = inr refl;
}

Steps-IsSound :
    {messages : List Bytes} {s t : StreamState}
    → IsSound messages s
    → Steps s t
    → IsSound messages t
Steps-IsSound i none_left = i
Steps-IsSound i (and_then e r) = Steps-IsSound (step-IsSound i e) r

-- In every order of the steps of its tasks, whenever it is looked at: what the stream has read from
-- the pipe is the first bytes of the messages, in order; if no write has failed, the rest is in the
-- payload that is being written and the messages to come, and once a read has failed there is none;
-- at most one terminal size was handed out, 120 by 40, and the queue stays open; and pings go on
-- until the stream has returned.
pub started-IsSound :
    (messages : List Bytes) (s : StreamState) → Steps (started messages) s → IsSound messages s
started-IsSound messages s r =
    Steps-IsSound
      (record {
        rest = flat messages;
        whole = refl;
        left = refl;
        sizes = refl;
        is_open = refl;
        pinged = inl refl;
      })
      r
