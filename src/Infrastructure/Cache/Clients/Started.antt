-- ===== src/Infrastructure/Cache/Clients/Started.antt =====
-- After the start of the program the strategy that the factory chooses has its client.
use interiors_api_client.Common.{
  ◌≡◌, inl, inr, refl, true, false, Option, none, some, Bool-cases, arith,
}
use interiors_api_client.Common.Text.{Text, text, text_eq, to_lower_case}
use interiors_api_client.Common.Text.Laws.{text_eq_iff}
use interiors_api_client.Common.Exec.{Result, ok, err}
use interiors_api_client.Infrastructure.Cache.{Provider, upstash, redis, get_strategy}
use interiors_api_client.Infrastructure.Cache.Clients.{
  Connection, Packages, is_active, keep, get_client, connect_redis, init_redis, connect_upstash,
  init_upstash,
}

-- The client of the provider answers, and the other has none.
abbrev pub HasClient : {R U : Type 0} → Provider → Option R → Option U → Type 0
HasClient {R} {U} redis r u = (c : R) × (get_client r ≡ (ok c, r)) × (u ≡ none)
HasClient {R} {U} upstash r u = (c : U) × (get_client u ≡ (ok c, u)) × (r ≡ none)

-- The client whose name the factory reads is the active one, and the other is not.
abbrev OnlyActive : Provider → Option Text → Type 0
OnlyActive redis v = (is_active v (text "redis") ≡ true) × (is_active v (text "upstash") ≡ false)
OnlyActive upstash v = (is_active v (text "upstash") ≡ true) × (is_active v (text "redis") ≡ false)

names_differ : (s : Text) → text_eq s (text "upstash") ≡ true → text_eq s (text "redis") ≡ false
unfolding text_eq
names_differ s h = rw ((text_eq_iff s (text "upstash")).0 h) refl

get_strategy-OnlyActive : (v : Option Text) (p : Provider) → get_strategy v ≡ ok p → OnlyActive p v
unfolding get_strategy
get_strategy-OnlyActive none p h = absurd (cc)
get_strategy-OnlyActive (some v) upstash h =
    elim (Bool-cases (text_eq (to_lower_case v) (text "upstash"))) [
      | inl e ↦ (e, names_differ (to_lower_case v) e)
      | inr n ↦ absurd (ground (arith, n))
    ]
get_strategy-OnlyActive (some v) redis h =
    elim (Bool-cases (text_eq (to_lower_case v) (text "upstash"))) [
      | inl e ↦ absurd (ground (arith, e))
      | inr n ↦ (ground (arith, n), n)
    ]

keep-kept :
    {T : Type 0} → (r : Result T) → (keep r none).0 ≡ ok tt → (t : T) × ((keep r none).1 ≡ some t)
keep-kept (ok t) h = (t, refl)
keep-kept (err e) h = absurd (cc)

get_client-kept : {T : Type 0} → (t : T) (o : Option T) → o ≡ some t → get_client o ≡ (ok t, o)
unfolding get_client
get_client-kept t none h = absurd (cc)
get_client-kept t (some a) h = cc

module _ {R U : Type 0} (config : Text → Option Text) (lib : Packages R U) where
  connected_redis :
      (o : Option Connection)
      → (connect_redis config lib o none).0 ≡ ok tt
      → (c : R) × ((connect_redis config lib o none).1 ≡ some c)
  connected_redis none h = absurd (cc)
  connected_redis (some c) h = keep-kept (lib.new_redis c) h

  connected_upstash :
      (url token : Option Text)
      → (connect_upstash config lib url token none).0 ≡ ok tt
      → (c : U) × ((connect_upstash config lib url token none).1 ≡ some c)
  connected_upstash (some u) (some t) h = keep-kept (lib.new_upstash u t) h
  connected_upstash (some u) none h = absurd (cc)
  connected_upstash none t h = absurd (cc)

  -- When the modules of both clients start without an exception and the factory chooses a strategy,
  -- this one's client is there and the other's is not.
  pub started-HasClient :
      (p : Provider)
      → get_strategy (config (text "CACHE_PROVIDER")) ≡ ok p
      → (init_redis config lib none).0 ≡ ok tt
      → (init_upstash config lib none).0 ≡ ok tt
      → HasClient p (init_redis config lib none).1 (init_upstash config lib none).1
  unfolding get_strategy init_redis init_upstash get_client
  started-HasClient redis chosen =
      let (on, off) = get_strategy-OnlyActive (config (text "CACHE_PROVIDER")) redis chosen in
      rw (on, off) (λ r u. let (c, e) = connected_redis _ r in (c, get_client-kept c _ e, refl))
  started-HasClient upstash chosen =
      let (on, off) = get_strategy-OnlyActive (config (text "CACHE_PROVIDER")) upstash chosen in
      rw (on, off) (λ r u. let (c, e) = connected_upstash _ _ u in (c, get_client-kept c _ e, refl))
