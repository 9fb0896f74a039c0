-- ===== src/Http/Routes/Effects.antt =====
-- Which requests change the state of the server.
use formation_web_analytics.Base.{
  ℕ, ℤ, ◌≡◌, refl, sym, ◌∙◌, ap, ◌⊎◌, inl, inr, Bool, true, false, ◌&&◌, ◌||◌, not, Option, List,
  [], ◌∷◌, All, Bool-cases, Bytes, codes, bytes_eq, bytes_eq→eq, subst,
}
use formation_web_analytics.Config.{Config}
use formation_web_analytics.Events.Metadata.{Request}
use formation_web_analytics.Elastic.Ping.{Authorization}
use formation_web_analytics.Http.{Server, Services}
use formation_web_analytics.Http.Collect.{handle_collect}
use formation_web_analytics.Http.Outcome.{IsSound, handle_collect-IsSound}
use formation_web_analytics.Http.Routes.{
  Endpoint, open_api, collect, options, health, ready, Pattern, patterns, Route, to, moved,
  not_allowed, not_found, is_method, find_route, route, Answer, handled, handle,
}

abbrev endpoint_of : Route → Endpoint
endpoint_of (to e) = e
endpoint_of _ = open_api

-- what holds of every pattern that a request matches holds of the endpoint that is found
find_route-matched :
    (Q : Endpoint → Type 0) (method path : Bytes) (known : Bool) (ps : List Pattern) (e : Endpoint)
    → All (λ p. bytes_eq path p.path ≡ true → is_method p.method method ≡ true → Q p.endpoint) ps
    → find_route method path known ps ≡ to e
    → Q e
unfolding find_route
find_route-matched Q method path true [] e all h = absurd (cc)
find_route-matched Q method path false [] e all h = absurd (cc)
find_route-matched Q method path known (p ∷ ps) e (first, all) h =
    elim (Bool-cases (bytes_eq path p.path)) [
      | inr other ↦
          let r : find_route method path known (p ∷ ps)
              ≡ find_route method path (known || bytes_eq path p.path) ps =
            rw (other, find_route) refl in
          find_route-matched Q method path (known || bytes_eq path p.path) ps e all (sym r ∙ h)
      | inl same ↦ elim (Bool-cases (is_method p.method method)) [
        | inl fits ↦
            let r : find_route method path known (p ∷ ps) ≡ to p.endpoint =
              rw (same, fits, find_route) refl in
            subst Q (ap endpoint_of (sym r ∙ h)) (first same fits)
        | inr unfit ↦
            let r : find_route method path known (p ∷ ps)
                ≡ find_route method path (known || bytes_eq path p.path) ps =
              rw (same, unfit, find_route) refl in
            find_route-matched Q method path (known || bytes_eq path p.path) ps e all (sym r ∙ h)
      ]
    ]

-- a request for the collection of events
abbrev pub IsCollection : Bytes → Bytes → Type 0
IsCollection method path =
    (method ≡ codes "POST") × ((path ≡ codes "/collect") ⊎ (path ≡ codes "/batch"))

post-get : bytes_eq (codes "POST") (codes "GET") ≡ false
unfolding bytes_eq
post-get = refl

is_method-post : (method : Bytes) → is_method (codes "POST") method ≡ true → method ≡ codes "POST"
unfolding is_method
is_method-post method h = elim (Bool-cases (bytes_eq method (codes "POST"))) [
  | inl same ↦ bytes_eq→eq method (codes "POST") same
  | inr other ↦
      let no : is_method (codes "POST") method ≡ false = rw (other, post-get, is_method) refl in
      absurd (cc (no, h))
]

route-IsCollection :
    (clean unescape : Bytes → Bytes) (method path : Bytes)
    → route clean unescape method path ≡ to collect
    → IsCollection method (unescape path)
unfolding route
route-IsCollection clean unescape method path h =
    elim (Bool-cases
      (not (bytes_eq method (codes "CONNECT")) && not (bytes_eq (clean path) path))) [
        | inl dirty ↦
            let r : route clean unescape method path ≡ moved = rw (dirty, route) refl in
            absurd (cc (r, h))
        | inr plain ↦
            let r : route clean unescape method path
                ≡ find_route method (unescape path) false patterns =
              rw (plain, route) refl in
            find_route-matched (λ e. e ≡ collect → IsCollection method (unescape path)) method
              (unescape path) false patterns collect
              (
                (λ p. λ m. λ e. absurd (cc)),
                (
                  (λ p. λ m. λ e. (is_method-post method m, inl (bytes_eq→eq _ _ p))),
                  (
                    (λ p. λ m. λ e. (is_method-post method m, inr (bytes_eq→eq _ _ p))),
                    (
                      (λ p. λ m. λ e. absurd (cc)),
                      (
                        (λ p. λ m. λ e. absurd (cc)),
                        ((λ p. λ m. λ e. absurd (cc)), ((λ p. λ m. λ e. absurd (cc)), tt)),
                      ),
                    ),
                  ),
                ),
              )
              (sym r ∙ h) refl
      ]

module _ {W : Type 0} (sv : Services) (cfg : Config)
    (get : Bytes → Authorization → W → Option ℕ × W) where
  -- what a request to `path`, as the mux reads it, does to the server
  pub record HasServed (method path : Bytes) (s : Server) (r : Request) (clock : ℕ) (now : ℤ)
      (out : Answer × Server) : Type 0 where
    pub sound : IsSound sv cfg out.1
    pub effect :
        (out.1 ≡ s)
        ⊎ (IsCollection method path
            × (out ≡ (
              handled (handle_collect sv cfg s r clock now).0,
              (handle_collect sv cfg s r clock now).1,
            )))

  handle-HasServed :
      (method path : Bytes) (batcher_ready : Bool) (s : Server) (r : Request) (clock : ℕ) (now : ℤ)
      (w : W) (way : Route)
      → IsSound sv cfg s
      → (way ≡ to collect → IsCollection method path)
      → HasServed method path s r clock now (handle sv cfg get way batcher_ready s r clock now w)
  unfolding handle
  handle-HasServed method path b s r clock now w (to open_api) h is = record {
    sound = h;
    effect = inl refl;
  }
  handle-HasServed method path b s r clock now w (to collect) h is = record {
    sound = handle_collect-IsSound sv cfg s r clock now h;
    effect = inr (is refl, refl);
  }
  handle-HasServed method path b s r clock now w (to options) h is = record {
    sound = h;
    effect = inl refl;
  }
  handle-HasServed method path b s r clock now w (to health) h is = record {
    sound = h;
    effect = inl refl;
  }
  handle-HasServed method path b s r clock now w (to ready) h is = record {
    sound = h;
    effect = inl refl;
  }
  handle-HasServed method path b s r clock now w moved h is = record {
    sound = h;
    effect = inl refl;
  }
  handle-HasServed method path b s r clock now w not_allowed h is = record {
    sound = h;
    effect = inl refl;
  }
  handle-HasServed method path b s r clock now w not_found h is = record {
    sound = h;
    effect = inl refl;
  }

  -- A request leaves the limiter, the queue and the counters as they are, or it is a POST to
  -- `/collect` or `/batch` and is answered by `handleCollect`; either way the queue stays valid, and
  -- every event in it within its limits and from an origin that its site allows, if that was so.
  pub route-HasServed :
      (clean unescape : Bytes → Bytes) (method path : Bytes) (batcher_ready : Bool) (s : Server)
      (r : Request) (clock : ℕ) (now : ℤ) (w : W)
      → IsSound sv cfg s
      → HasServed method
          (unescape path)
          s
          r
          clock
          now
          (handle sv cfg get (route clean unescape method path) batcher_ready s r clock now w)
  route-HasServed clean unescape method path batcher_ready s r clock now w sound =
      handle-HasServed method (unescape path) batcher_ready s r clock now w
        (route clean unescape method path) sound (route-IsCollection clean unescape method path)
