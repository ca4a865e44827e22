-- ===== src/System/Unordered.antt =====
-- What a proxy answers is a function of the sessions of a cluster, with no order among them.
use native.Mathlib.Nat.{ℕ_set}
use text.Mathlib.TextEquality.{IsScalar-prop}
use mathlib.Core.List.Permᴰ.{Permᴰ}
use mathlib.Core.Path.{fun_ext}
use mathlib.Core.HLevel.{Π_prop, Σ_prop_path}
use mathlib.Core.Equiv.{IsContr}
use mathlib.Core.Quot
use mathlib.Core.Quot.{Quot}
use kube_debug_sess.Prelude.{◌≡◌, refl, List}
use kube_debug_sess.Api.{DebugSession}
use kube_debug_sess.Proxy.Server.{HttpRequest, ProxyEnv, Response, serve_http}
use kube_debug_sess.System.Population.{Reached}
use kube_debug_sess.System.Listing.{listing, Reached-Permᴰ}

Response-set : IsSet Response
Response-set = hlevel (ℕ_set, IsScalar-prop)

-- A population, as the API server lists it.
abbrev Listed : Type 0
Listed = (l : List DebugSession) × Reached l

abbrev SameSessions : Listed → Listed → Type 0
SameSessions (l, _) (l', _) = Permᴰ l l'

-- A population with its order forgotten, and with how it came about.
abbrev pub Sessions : Type 0
Sessions = Quot SameSessions

-- A function of the sessions that gives what the proxy answers, whatever the order of their list.
abbrev pub Answering : ProxyEnv → HttpRequest → Type 0
Answering env r =
    (f : Sessions → Response) × ((x : Listed) → f (Quot.mk x) ≡ serve_http (listing env x.0) r)

Answering-path :
    (env : ProxyEnv) (r : HttpRequest) (a b : Answering env r)
    → ((x : Listed) → a.0 (Quot.mk x) ≡ b.0 (Quot.mk x))
    → a ≡ b
Answering-path env r a b same =
    Σ_prop_path (λ f. Π_prop (λ x. Response-set _ _))
      (fun_ext (Quot.ind (λ x. Response-set _ _) same))

-- However users and the controller have changed the sessions of a cluster: there is exactly one
-- function from the sessions, with no order among them, to responses that gives what a proxy
-- answers to a request where the API server lists them in some order.
pub serve_http-IsContr : (env : ProxyEnv) (r : HttpRequest) → IsContr (Answering env r)
serve_http-IsContr env r =
    let answer : Sessions → Response =
      Quot.lift Response-set (λ (l, _). serve_http (listing env l) r)
        (λ (l, reached) (l', _) p. Reached-Permᴰ env r reached p) in
    ((answer, λ x. refl), λ b. Answering-path env r b (answer, λ x. refl) b.1)
