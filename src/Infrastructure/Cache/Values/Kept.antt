-- ===== src/Infrastructure/Cache/Values/Kept.antt =====
-- Which values Redis gives back as they were stored.
use interiors_api_client.Common.{
  ℕ, ◌≡◌, ◌≢◌, ◌⊎◌, ◌↔◌, refl, sym, ap, inl, inr, Bool, true, Option, none, some, [], ◌∷◌,
}
use interiors_api_client.Common.Text.{Text}
use interiors_api_client.Common.Json.{Json, null, bool, num, str, arr, obj, stringify}
use interiors_api_client.Common.Exec.{Exec, ok}
use interiors_api_client.Infrastructure.Cache.{Client, given_ttl, set}
use interiors_api_client.Infrastructure.Cache.Values.{
  string_value, parsed_or, read_value, get_redis, set_redis,
}

-- A text must not be empty nor be JSON of anything else; of other values the printed form must be
-- read back.
abbrev pub IsKept : (Text → Option Json) → Json → Type 0
IsKept parse (str t) = (t ≢ []) × ((parse t ≡ none) ⊎ (parse t ≡ some (str t)))
IsKept parse v = (stringify v ≢ []) × (parse (stringify v) ≡ some v)

-- What the client stored under a key is there as long as it has not expired.
pub record IsStore {W : Type 0} (client : Client Text W) (client_get : Text → Exec W (Option Text))
    : Type 0 where
  pub stored :
      (k t : Text) (ttl : Option ℕ) (nx : Bool) (w : W)
      → (client.set k t ttl nx w).0 ≡ ok true
      → (client_get k (client.set k t ttl nx w).1).0 ≡ ok (some t)

parsed_or-text :
    (t : Text) (o : Option Json) → (parsed_or t o ≡ str t) ↔ ((o ≡ none) ⊎ (o ≡ some (str t)))
parsed_or-text t none = (λ h. inl refl, λ h. refl)
parsed_or-text t (some v) = (λ h. inr (ap some h), λ h. elim h [ inl e ↦ absurd (cc) | inr e ↦ cc ])

parsed_or-other :
    (t : Text) (o : Option Json) (v : Json) → v ≢ str t → (parsed_or t o ≡ v) ↔ (o ≡ some v)
parsed_or-other t none v no_text = (λ h. absurd (no_text (sym h)), λ h. absurd (cc))
parsed_or-other t (some u) v no_text = (λ h. ap some h, λ h. cc)

ok-inj : {u v : Json} → ok u ≡ ok v → u ≡ v
ok-inj e = cc

module _ (parse : Text → Option Json) where
  read_text : (t : Text) → (read_value parse (some t) ≡ str t) ↔ IsKept parse (str t)
  read_text [] = (λ h. absurd (cc), λ (n, h). absurd (n refl))
  read_text (c ∷ t) =
      let (to, from) = parsed_or-text (c ∷ t) (parse (c ∷ t)) in
      (λ h. ((λ e. cc), to h), λ (n, h). from h)

  read_other :
      (t : Text) (v : Json)
      → v ≢ str t
      → (t ≡ [] → v ≢ null)
      → (read_value parse (some t) ≡ v) ↔ ((t ≢ []) × (parse t ≡ some v))
  read_other [] v no_text not_null =
      (λ h. absurd (not_null refl (sym h)), λ (n, h). absurd (n refl))
  read_other (c ∷ t) v no_text not_null =
      let (to, from) = parsed_or-other (c ∷ t) (parse (c ∷ t)) v no_text in
      (λ h. ((λ e. cc), to h), λ (n, h). from h)

  read-IsKept : (v : Json) → (read_value parse (some (string_value v)) ≡ v) ↔ IsKept parse v
  unfolding stringify
  read-IsKept (str t) = read_text t
  read-IsKept null = read_other _ null (λ e. cc) (λ e n. cc)
  read-IsKept (bool b) = read_other _ (bool b) (λ e. cc) (λ e n. cc)
  read-IsKept (num n) = read_other _ (num n) (λ e. cc) (λ e n. cc)
  read-IsKept (arr xs) = read_other _ (arr xs) (λ e. cc) (λ e n. cc)
  read-IsKept (obj fs) = read_other _ (obj fs) (λ e. cc) (λ e n. cc)

  -- With a client that keeps what it stores: after a value was stored, `get` of its key answers with
  -- that value exactly if it is a text that is neither empty nor the JSON of another value, or if it
  -- is another value whose printed form is not empty and is parsed back to it.
  pub get_redis-set_redis_iff :
      {W : Type 0}
      → (client : Client Text W) (client_get : Text → Exec W (Option Text))
      → IsStore client client_get
      → (key : Text) (v : Json) (ttl : Option ℕ) (nx : Bool) (w : W)
      → (set_redis client key v ttl nx w).0 ≡ ok true
      → ((get_redis parse client_get key (set_redis client key v ttl nx w).1).0 ≡ ok v)
        ↔ IsKept parse v
  unfolding set_redis get_redis set
  get_redis-set_redis_iff client client_get store key v ttl nx w h =
      let read = store.stored key (string_value v) (given_ttl ttl) nx w h in
      let (to, from) = read-IsKept v in rw read (λ e. to (ok-inj e), λ k. ap ok (from k))
