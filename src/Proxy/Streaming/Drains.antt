-- ===== src/Proxy/Streaming/Drains.antt =====
-- A stream that reads its pipe gets all messages.
use kube_debug_sess.Prelude.{
  ◌≡◌, refl, sym, ap, ◌∙◌, ◌⊎◌, inl, inr, List, [], ◌∷◌, ◌++◌, drop, length,
}
use mathlib.Core.Path.{subst}
use mathlib.Core.List.{append-nil}
use kube_debug_sess.Proxy.Streaming.Laws.{Pending, started-IsSound}
use kube_debug_sess.Proxy.Connection.{Bytes}
use kube_debug_sess.Proxy.Connection.Laws.{flat}
use kube_debug_sess.Proxy.Streaming.{
  Forwarder, reading, writing, read_failed, write_failed, StreamState, started, after_read,
  StreamStep, receives, fails_to_receive, consumes, Steps, none_left, and_then,
}

Steps-append : {s t u : StreamState} → Steps s t → Steps t u → Steps s u
Steps-append none_left r = r
Steps-append (and_then e q) r = and_then e (Steps-append q r)

drop-length : (p : Bytes) → drop (length p) p ≡ []
drop-length [] = refl
drop-length (b ∷ p) = drop-length p

-- A read with room for the whole payload ends its write.
after_write :
    (s : StreamState) (payload : Bytes)
    → s.forwarder ≡ writing payload
    → (t : StreamState) × StreamStep s t × (t.forwarder ≡ reading) × (t.incoming ≡ s.incoming)
unfolding after_read
after_write s payload f =
    (_, consumes (length payload) payload f, ap after_read (drop-length payload), refl)

-- Where no write fails, a forwarder that reads goes on until its reads end.
drains :
    (incoming : List Bytes) (s : StreamState)
    → s.forwarder ≡ reading
    → s.incoming ≡ incoming
    → (t : StreamState) × Steps s t × (t.forwarder ≡ read_failed)
drains [] s f e = (_, and_then (fails_to_receive f e) none_left, refl)
drains (m ∷ ms) s f e =
    let (t, step, f', e') =
      after_write (record s { incoming = ms; forwarder = writing m }) m refl in
    let (u, steps, ended) = drains ms t f' e' in
    (u, and_then (receives m ms f e) (and_then step steps), ended)

forwarder-drains :
    (s : StreamState) (f : Forwarder)
    → s.forwarder ≡ f
    → (f ≡ write_failed) ⊎ ((t : StreamState) × Steps s t × (t.forwarder ≡ read_failed))
forwarder-drains s reading e = inr (drains s.incoming s e refl)
forwarder-drains s (writing p) e =
    let (t, step, f, same) = after_write s p e in
    let (u, steps, ended) = drains s.incoming t f same in inr (u, and_then step steps, ended)
forwarder-drains s read_failed e = inr (s, none_left, e)
forwarder-drains s write_failed e = inl refl

-- The forwarding is never stuck while the stream reads: from every state that is reached in which
-- no write has failed, some steps lead to one in which all messages were read from the pipe, and
-- nothing else.
pub started-drains :
    (messages : List Bytes) (s : StreamState)
    → Steps (started messages) s
    → (s.forwarder ≡ write_failed)
      ⊎ ((t : StreamState) × Steps s t × (t.forwarder ≡ read_failed) × (t.consumed ≡ flat messages))
started-drains messages s r = elim (forwarder-drains s s.forwarder refl) [
  | inl e ↦ inl e
  | inr (t, steps, ended) ↦
      let i = started-IsSound messages t (Steps-append r steps) in
      let none : i.rest ≡ [] = subst (λ f. Pending f t.incoming i.rest) ended i.left in
      inr (
        t,
        steps,
        ended,
        sym (append-nil t.consumed) ∙ ap (λ l. t.consumed ++ l) (sym none) ∙ i.whole,
      )
]
