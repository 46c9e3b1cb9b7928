-- ===== src/Policy/Denial.antt =====
-- What the gateway lets through, after any requests.
use zth_sre.Prelude.{
  ◌≡◌, refl, sym, ◌⊎◌, inl, inr, String, Bool, true, false, ◌&&◌, ◌||◌, not, Option, none, some,
  List, [], ◌∷◌, eq_iff, if◌then◌else◌, ◌==◌, String_eq, arith, Bool-cases, Option-cases,
}
use zth_sre.Prelude.Map.{or_zero}
use zth_sre.Http.{get, put, is_get, is_put}
use zth_sre.Policy.{
  Page, health_page, rules_page, iptables_page, admin_page, other_page, page, serve_page, Service,
  Request, Outgoing, serve, rules, iptables, failed, state, update_state, forward,
}

pub run : Service → List Request → Service
run s [] = s
run s (r ∷ rs) = run (serve r s).service rs

-- What a request says of the flag, where it is an update that is accepted.
abbrev pub update_of : Request → Option Bool
update_of r = if r.path == "/admin/state" && is_put r.method then r.update else none

-- The flag after some requests, by the last accepted update; `before` where there is none.
pub last_update : Bool → List Request → Bool
last_update before [] = before
last_update before (r ∷ rs) = last_update (or_zero before (update_of r)) rs

abbrev pub is_sent : Option Outgoing → Bool
is_sent none = false
is_sent (some request) = true

forward-blocked : (r : Request) (s : Service) → (forward r s).service.blocked ≡ s.blocked
unfolding forward
forward-blocked r s = elim (Bool-cases r.builds) [ inl e ↦ rw e refl | inr e ↦ rw e refl ]

updated : (o : Option Bool) (s : Service) → (update_state o s).service.blocked ≡ or_zero s.blocked o
unfolding update_state
updated none s = refl
updated (some b) s = refl

is_admin : Page → Bool
is_admin admin_page = true
is_admin _ = false

is_other : Page → Bool
is_other other_page = true
is_other _ = false

page-lem :
    (path : String)
    → (is_admin (page path) ≡ (path == "/admin/state"))
      × ((path == "/") ≡ (is_other (page path) && path == "/"))
unfolding is_admin is_other page
page-lem path = elim (Bool-cases (path == "/healthz")) [
  | inl e ↦ rw ((eq_iff path "/healthz").0 e) (refl, refl)
  | inr e1 ↦ elim (Bool-cases (path == "/rules")) [
    | inl e ↦ rw ((eq_iff path "/rules").0 e) (refl, refl)
    | inr e2 ↦ elim (Bool-cases (path == "/iptables")) [
      | inl e ↦ rw ((eq_iff path "/iptables").0 e) (refl, refl)
      | inr e3 ↦ elim (Bool-cases (path == "/admin/state")) [
        | inl e ↦ rw ((eq_iff path "/admin/state").0 e) (refl, refl)
        | inr e4 ↦ rw (e1, e2, e3, e4) (refl, refl)
      ]
    ]
  ]
]

serve_page-blocked :
    (p : Page) (r : Request) (s : Service)
    → (serve_page p r s).service.blocked
      ≡ or_zero s.blocked (if is_admin p && is_put r.method then r.update else none)
unfolding serve_page is_admin
serve_page-blocked health_page r s = refl
serve_page-blocked rules_page r s = refl
serve_page-blocked iptables_page r s = refl
serve_page-blocked admin_page r s = elim (Bool-cases (is_put r.method)) [
  | inl e ↦ rw e (updated r.update s)
  | inr e ↦ rw e refl
]
serve_page-blocked other_page r s =
    elim (Bool-cases (not (is_get r.method) || not (r.path == "/"))) [
      | inl e ↦ rw e refl
      | inr e ↦ rw e (elim (Bool-cases s.blocked) [
        | inl f ↦ rw f refl
        | inr f ↦ rw f (forward-blocked r (record s { blocked = false }))
      ])
    ]

serve-blocked :
    (r : Request) (s : Service) → (serve r s).service.blocked ≡ or_zero s.blocked (update_of r)
unfolding serve
serve-blocked r s = rw (sym (page-lem r.path).0) (serve_page-blocked (page r.path) r s)

serve_page-sent :
    (p : Page) (r : Request) (s : Service)
    → is_sent (serve_page p r s).sent
      ≡ (is_get r.method && ((is_other p && r.path == "/") && (not s.blocked && r.builds)))
unfolding serve_page is_other forward
serve_page-sent health_page r s = ground arith
serve_page-sent rules_page r s = ground arith
serve_page-sent iptables_page r s = ground arith
serve_page-sent admin_page r s = elim (Option-cases r.update) [
  | inl e ↦ rw e (ground (arith, update_state))
  | inr (b, e) ↦ rw e (ground (arith, update_state))
]
serve_page-sent other_page r s = ground arith

run-blocked :
    (s : Service) (past : List Request) → (run s past).blocked ≡ last_update s.blocked past
unfolding run last_update
run-blocked s [] = refl
run-blocked s (r ∷ rs) =
    let later = run-blocked (serve r s).service rs in
    let now = serve-blocked r s in rw (sym now) later

-- `GET path`
abbrev pub asking : String → Request → Request
asking path r = record r { method = get; path = path }

closed_lem :
    (r : Request) (s : Service) → s.blocked ≡ true → (serve (asking "/" r) s).reply ≡ failed 504
unfolding serve serve_page page
closed_lem r s e = rw e refl

-- After any requests, let the egress be denied where the last accepted update says so, or, without
-- one, where it was denied at the start. Then a request is sent on to the upstream exactly if it is a
-- GET of "/" of which the client's request can be built, and the egress is not denied; a GET of "/"
-- is answered 504 where it is denied; and /rules and /iptables show the actions "drop" and "DROP"
-- where it is denied, and "accept" and "ACCEPT" where it is not.
pub denial_lem :
    (s : Service) (past : List Request) (r : Request)
    → (is_sent (serve r (run s past)).sent
        ≡ (is_get r.method && (r.path == "/" && (not (last_update s.blocked past) && r.builds))))
      × ((last_update s.blocked past ≡ false)
          ⊎ ((serve (asking "/" r) (run s past)).reply ≡ failed 504))
      × ((serve (asking "/rules" r) (run s past)).reply
          ≡ rules (if last_update s.blocked past then "drop" else "accept"))
      × ((serve (asking "/iptables" r) (run s past)).reply
          ≡ iptables (if last_update s.blocked past then "DROP" else "ACCEPT"))
unfolding serve serve_page page
denial_lem s past r =
    rw (sym (run-blocked s past), (page-lem r.path).1)
      (
        serve_page-sent (page r.path) r (run s past),
        elim (Bool-cases (run s past).blocked) [
          | inl e ↦ inr (closed_lem r (run s past) e)
          | inr e ↦ inl e
        ],
        refl,
        refl,
      )

-- The update of the flag, as the runtime sends it.
pub updating : Bool → Request
updating b = record {
  method = put;
  path = "/admin/state";
  raw_query = "";
  headers = [];
  update = some b;
  builds = true;
  answer = none;
}

pub serve-updating :
    (b : Bool) (s : Service)
    → serve (updating b) s
      ≡ record { service = record s { blocked = b }; sent = none; reply = state b }
unfolding serve serve_page page update_state updating
serve-updating b s = refl
