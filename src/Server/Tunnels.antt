-- ===== src/Server/Tunnels.antt =====
-- The contexts of internal/server/server.go under which terminals are proxied, and `Handler.Close`. A
-- request of a terminal is known by a number.
use zth_sre.Prelude.{
  ℕ, ℕ_eq, Bool, true, false, List, [], ◌∷◌, ◌++◌, elem, elem-append, ◌≡◌, refl, if◌then◌else◌,
  arith,
}

-- Whether `shutdown` is done and the root of the static files is closed, the requests in the proxy, and
-- those whose context was cancelled by `shutdown`.
pub record Tunnels : Type 0 where
  pub shut : Bool
  pub root : Bool
  pub proxied : List ℕ
  pub cancelled : List ℕ

-- After `New`; the root may be missing.
unfoldable pub begin : Bool → Tunnels
begin root = record { shut = false; root = root; proxied = []; cancelled = [] }

-- WithCancel and AfterFunc, which cancels at once where `shutdown` is done.
unfoldable pub enter : ℕ → Tunnels → Tunnels
enter request s = record s {
  proxied = request ∷ s.proxied;
  cancelled = if s.shut then request ∷ s.cancelled else s.cancelled;
}

-- The deferred calls of a request.
unfoldable pub leave : List ℕ → List ℕ → Tunnels → Tunnels
leave front back s = record s { proxied = front ++ back }

-- `Close`
unfoldable pub close : Tunnels → Tunnels
close s = record s { shut = true; root = false; cancelled = s.proxied ++ s.cancelled }

pub data Step : Tunnels → Tunnels → Type 0 where
  enters : (request : ℕ) (s : Tunnels) → Step s (enter request s)
  leaves :
      (request : ℕ) (front back : List ℕ) (s : Tunnels)
      → s.proxied ≡ front ++ request ∷ back
      → Step s (leave front back s)
  closes : (s : Tunnels) → Step s (close s)

pub data Reach : Tunnels → Type 0 where
  here : (root : Bool) → Reach (begin root)
  there : (s next : Tunnels) → Reach s → Step s next → Reach next

-- Every request among the first is one of the second.
abbrev Within : List ℕ → List ℕ → Type 0
Within requests cancelled = (n : ℕ) → elem n requests ≡ true → elem n cancelled ≡ true

-- Once the server is shut, every open request is cancelled, and the root is closed.
abbrev Cancelled : Tunnels → Type 0
Cancelled s = s.shut ≡ true → (s.root ≡ false) × Within s.proxied s.cancelled

append-Within : (xs ys : List ℕ) → Within xs (xs ++ ys)
append-Within xs ys n h = ground (arith, elem-append n xs ys, h)

cons-Within : (x : ℕ) (xs ys : List ℕ) → Within xs ys → Within (x ∷ xs) (x ∷ ys)
cons-Within x xs ys v n h = ground (arith, v n, h)

rest-Within :
    (x : ℕ) (front back ys : List ℕ) → Within (front ++ x ∷ back) ys → Within (front ++ back) ys
rest-Within x front back ys v n h =
    v n (ground (arith, elem-append n front (x ∷ back), elem-append n front back, h))

step-Cancelled : (s next : Tunnels) → Step s next → Cancelled s → Cancelled next
unfolding enter leave close
step-Cancelled _ _ (enters request s) v =
    λ k. let (root, inside) = v k in rw k (root, cons-Within request s.proxied s.cancelled inside)
step-Cancelled _ _ (leaves request front back s e) v = λ k.
    let (root, inside) = v k in (root, rest-Within request front back s.cancelled (rw e at inside))
step-Cancelled _ _ (closes s) v = λ k. (refl, append-Within s.proxied s.cancelled)

-- Once `Handler.Close` was called, the root of the static files is closed, and the context of every
-- terminal in the proxy is cancelled, also where it came in later.
pub Reach-Cancelled :
    (s : Tunnels)
    → Reach s
    → s.shut ≡ true
    → (s.root ≡ false) × ((n : ℕ) → elem n s.proxied ≡ true → elem n s.cancelled ≡ true)
unfolding begin
Reach-Cancelled _ (here root) = λ k. absurd (cc)
Reach-Cancelled _ (there s next r step) = step-Cancelled s next step (Reach-Cancelled s r)
