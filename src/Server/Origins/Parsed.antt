-- ===== src/Server/Origins/Parsed.antt =====
-- Which lists of origins are accepted.
use Prim.Native.String.{◌++◌}
use zth_sre.Prelude.{
  ◌<◌, ◌≡◌, refl, ◌↔◌, ◌⊎◌, inl, inr, String, true, false, Option, none, some, List, [], ◌∷◌, ◌==◌,
  String_eq, ℕ_eq, length, arith, eq_iff, Bool-cases, ap,
}
use mathlib.Core.Path.{subst}
use zth_sre.Prelude.Strings.{has_code}
use zth_sre.Http.{Url, is_http}
use zth_sre.Server.Origins.{Allowed, serialized, added, collect, nonempty, parse_origins}

-- A serialized origin: a scheme and a host, and nothing else.
pub record Origin (origin : String) (u : Url) : Type 0 where
  pub scheme : (u.scheme ≡ "http") ⊎ (u.scheme ≡ "https")
  pub named : (u.hostname == "") ≡ false
  pub no_user : u.user ≡ false
  pub no_path : u.path ≡ ""
  pub no_query : u.raw_query ≡ ""
  pub no_force : u.force_query ≡ false
  pub no_fragment : u.fragment ≡ ""
  pub no_star : has_code u.host b'*' ≡ false
  pub no_backslash : has_code u.host 92 ≡ false
  pub written : origin ≡ u.scheme ++ "://" ++ u.host

pub serialized_iff : (origin : String) (u : Url) → (serialized origin u ≡ true) ↔ Origin origin u
unfolding serialized is_http
serialized_iff origin u =
    let a = eq_iff u.scheme "http" in
    let b = eq_iff u.scheme "https" in
    let c = eq_iff u.path "" in
    let d = eq_iff u.raw_query "" in
    let e = eq_iff u.fragment "" in
    let f = eq_iff origin (u.scheme ++ "://" ++ u.host) in
    (
      λ h. record {
        scheme = ground (arith, h, a, b);
        named = ground (arith, h);
        no_user = ground (arith, h);
        no_path = ground (arith, h, c);
        no_query = ground (arith, h, d);
        no_force = ground (arith, h);
        no_fragment = ground (arith, h, e);
        no_star = ground (arith, h);
        no_backslash = ground (arith, h);
        written = ground (arith, h, f);
      },
      λ v. ground (
        arith, a, b, c, d, e, f, v.scheme, v.named, v.no_user, v.no_path, v.no_query, v.no_force,
        v.no_fragment, v.no_star, v.no_backslash, v.written,
      ),
    )

module _ (parse : String → Option Url) where
  -- The hosts are those of the origins, in order.
  abbrev pub Hosts : List String → List String → Type 0
  Hosts [] [] = Unit {0}
  Hosts [] (host ∷ hosts) = ⊥
  Hosts (origin ∷ origins) [] = ⊥
  Hosts (origin ∷ origins) (host ∷ hosts) =
      ((u : Url) × (parse origin ≡ some u) × Origin origin u × (host ≡ u.host))
      × Hosts origins hosts

  abbrev Parsed : List String → Allowed → Type 0
  Parsed origins a = (a.origins ≡ origins) × Hosts origins a.hosts

  added_iff :
      (origin : String) (origins : List String) (a : Allowed) (p : Option Url)
      (later : Option Allowed)
      → parse origin ≡ p
      → ((b : Allowed) → later ≡ some b → Parsed origins b)
      → added parse origin p later ≡ some a
      → Parsed (origin ∷ origins) a
  unfolding added
  added_iff origin origins a none later e ih h = cc
  added_iff origin origins a (some u) none e ih h = cc
  added_iff origin origins a (some u) (some b) e ih h = elim (Bool-cases (serialized origin u)) [
    | inr bad ↦ let k : none ≡ some a = rw bad at h in cc
    | inl good ↦
        let both : Allowed = record { origins = origin ∷ b.origins; hosts = u.host ∷ b.hosts } in
        let k : some both ≡ some a = rw good at h in
        let q : both ≡ a = cc in
        let (same, hosts) = ih b refl in
        subst (λ x. Parsed (origin ∷ origins) x) q
          (ap (λ l. origin ∷ l) same, ((u, e, (serialized_iff origin u).0 good, refl), hosts))
  ]

  collect-Parsed :
      (origins : List String) (a : Allowed) → collect parse origins ≡ some a → Parsed origins a
  unfolding collect
  collect-Parsed [] a h =
      let empty : Allowed = record { origins = []; hosts = [] } in
      let k : some empty ≡ some a = h in
      let q : empty ≡ a = cc in subst (λ x. Parsed [] x) q (refl, tt)
  collect-Parsed (origin ∷ origins) a h =
      added_iff origin origins a (parse origin) (collect parse origins) refl
        (collect-Parsed origins) h

  Parsed-collect :
      (origins hosts : List String)
      → Hosts origins hosts
      → collect parse origins ≡ some (record { origins = origins; hosts = hosts })
  unfolding collect added
  Parsed-collect [] [] v = refl
  Parsed-collect [] (host ∷ hosts) v = absurd v
  Parsed-collect (origin ∷ origins) [] v = absurd v
  Parsed-collect (origin ∷ origins) (host ∷ hosts) ((u, e, o, q), v) =
      rw (e, Parsed-collect origins hosts v, (serialized_iff origin u).1 o, q) refl

  nonempty_iff :
      (o : Option Allowed) (a : Allowed)
      → (nonempty parse o ≡ some a) ↔ ((o ≡ some a) × (0 < length a.origins))
  unfolding nonempty
  nonempty_iff none a = (λ h. cc, λ (h, k). cc)
  nonempty_iff (some b) a = elim (Bool-cases (length b.origins == 0)) [
    | inl e ↦ (
      λ h. let k : none ≡ some a = rw e at h in cc,
      λ (h, k).
          let q : b ≡ a = cc in
          let n : length b.origins ≡ length a.origins = ap (λ x. length x.origins) q in
          absurd (ground (arith, e, n, k)),
    )
    | inr e ↦ (
      λ h.
          let k : some b ≡ some a = rw e at h in
          let q : b ≡ a = cc in
          let n : length b.origins ≡ length a.origins = ap (λ x. length x.origins) q in
          (k, ground (arith, e, n)),
      λ (h, k). rw e h,
    )
  ]

  -- `ParseOrigins` accepts exactly the lists that are not empty and have nothing but serialized HTTP
  -- origins (a scheme http or https, a host without * and \, and nothing else). What it allows are then
  -- these origins and their hosts.
  pub parse_origins_lem :
      (origins : List String) (a : Allowed)
      → (parse_origins parse origins ≡ some a)
        ↔ ((0 < length origins) × (a.origins ≡ origins) × Hosts origins a.hosts)
  unfolding parse_origins
  parse_origins_lem origins a =
      let empty = nonempty_iff (collect parse origins) a in
      (
        λ h.
            let (k, n) = empty.0 h in
            let (same, hosts) = collect-Parsed origins a k in (rw same at n, same, hosts),
        λ (n, same, hosts).
            let q : record { origins = origins; hosts = a.hosts } ≡ a = rw (← same) refl in
            empty.1 (
              subst (λ x. collect parse origins ≡ some x) q (Parsed-collect origins a.hosts hosts),
              rw same n,
            ),
      )
