-- ===== src/Examples/Balancing.antt =====
-- Runs of the load balancer.
use zth_sre.Prelude.{
  ℕ, ◌+◌, ◌^◌, ◌≡◌, inr, refl, String, String_eq, Bool, true, Option, some, List, [], ◌∷◌, count,
  ◌==◌, arith,
}
use zth_sre.Prelude.Int.{ℤ, pos, ℤ_eq}
use zth_sre.Http.{get, put, Body}
use zth_sre.ApiLb.{Balancer, proxy, Upstream}
use zth_sre.ApiLb.Rotation.{Inv, picks, twice, picks_balanced}
use zth_sre.ApiLb.Relay.{Safe, proxy-Safe, Request, admin, forwarded}

abbrev two : Balancer
two = record { active = 2; next = 5 }

two-Inv : Inv two
two-Inv = record { counted = omega arith; one_or_two = inr refl }

-- After 2^63 + 1 requests.
abbrev late : Balancer
late = record { active = 2; next = 2 ^ 63 + 1 }

late-Inv : Inv late
late-Inv = record { counted = omega arith; one_or_two = inr refl }

picks_balanced_example :
    (count (pos 0) (picks (twice 3) two) ≡ 3) × (count (pos 1) (picks (twice 3) two) ≡ 3)
picks_balanced_example = picks_balanced 3 two refl (omega arith)

abbrev body : Body (Option ℤ)
body = record { value = some (some (pos 2)); at_end = true }

-- Both backends answer with one hop-by-hop header and another.
abbrev backends : ℕ → String → Option Upstream
backends n query = some (record {
  status = 200;
  headers = ("Connection", "close") ∷ ("X-Role", "api") ∷ [];
  content = query;
})

abbrev same_text : String → String → Bool
same_text a b = a == b

proxy-Safe_example : Safe same_text backends (proxy same_text backends get "/" "q=1" two).1
proxy-Safe_example = proxy-Safe same_text backends get "/" "q=1" two two-Inv (omega arith)

abbrev requests : List (Request same_text backends)
requests = admin put body ∷ forwarded get "/" "q=1" ∷ []
