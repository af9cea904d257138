-- ===== src/Infrastructure/Cache/Limiters.antt =====
-- The limiters that are kept by key: the key tells all parameters apart.
use interiors_api_client.Common.{
  ◌≡◌, refl, ap, sym, ◌∙◌, Bool, some, List, [], ◌∷◌, ◌++◌, inl, inr, Bool-cases, Option-cases,
  arith,
}
use interiors_api_client.Common.Text.{Text, text_eq, print}
use interiors_api_client.Common.Text.Laws.{text_eq_iff}
use interiors_api_client.Common.Text.Digits.{print-append_inj, print-append-eq_rest, print_inj}
use interiors_api_client.Common.Exec.{Result}
use interiors_api_client.Infrastructure.Cache.{
  Limit, sliding_window, token_bucket, Ratelimit, Strategy, limiter_key, find_limiter, limiter_for,
  rate_limit,
}

-- Two limiters with the same key were asked for with the same parameters.
limiter_key_inj : (c d : Limit) → limiter_key c ≡ limiter_key d → c ≡ d
unfolding limiter_key
limiter_key_inj (sliding_window l w) (sliding_window l' w') h =
    let (e, f) = print-append_inj l l' 58 (print w) (print w') h refl in
    ap (λ k. sliding_window k w) e ∙ ap (λ k. sliding_window l' k) (print_inj w w' f)
limiter_key_inj (sliding_window l w) (token_bucket r i t) h =
    absurd (omega (arith, print-append-eq_rest l 58 116 (print w) _ h refl refl))
limiter_key_inj (token_bucket r i t) (sliding_window l w) h =
    absurd (omega (arith, print-append-eq_rest l 58 116 (print w) _ (sym h) refl refl))
limiter_key_inj (token_bucket r i t) (token_bucket r' i' t') h =
    let whole : print r ++ (58 ∷ (print i ++ (58 ∷ print t)))
        ≡ print r' ++ (58 ∷ (print i' ++ (58 ∷ print t'))) =
      cc in
    let (e, rest) = print-append_inj r r' 58 _ _ whole refl in
    let (f, last) = print-append_inj i i' 58 (print t) (print t') rest refl in
    let g = print_inj t t' last in cc

module _ {L : Type 0} where
  -- Each kept limiter was made with the parameters of its key.
  abbrev pub AsKeyed : (Limit → L) → List (Text × L) → Type 0
  AsKeyed make [] = Unit
  AsKeyed make ((k, l) ∷ m) = ((c : Limit) × (k ≡ limiter_key c) × (l ≡ make c)) × AsKeyed make m

  find_limiter-AsKeyed :
      (make : Limit → L) (c : Limit) (m : List (Text × L)) (l : L)
      → AsKeyed make m
      → find_limiter (limiter_key c) m ≡ some l
      → l ≡ make c
  unfolding find_limiter
  find_limiter-AsKeyed make c [] l a h = cc
  find_limiter-AsKeyed make c ((k, l') ∷ m) l ((d, named, made), a) h =
      elim (Bool-cases (text_eq k (limiter_key c))) [
        | inl e ↦
            let same = limiter_key_inj d c (sym named ∙ (text_eq_iff k (limiter_key c)).0 e) in
            ground (arith, same)
        | inr e ↦ find_limiter-AsKeyed make c m l a (rw e at h)
      ]

module _ {L W : Type 0} (lib : Ratelimit L W) where
  limiter_for-AsKeyed :
      (c : Limit) (m : List (Text × L))
      → AsKeyed lib.make m
      → ((limiter_for lib c m).0 ≡ lib.make c) × AsKeyed lib.make (limiter_for lib c m).1
  unfolding limiter_for
  limiter_for-AsKeyed c m a = elim (Option-cases (find_limiter (limiter_key c) m)) [
    | inl e ↦ rw e (refl, ((c, refl, refl), a))
    | inr (l, e) ↦ rw e (find_limiter-AsKeyed lib.make c m l a e, a)
  ]

  -- A sequence of questions to the limiters, with the answers.
  unfoldable pub rate_limits :
      List (Text × Limit) → Strategy L W → List (Result Bool) × Strategy L W
  rate_limits [] s = ([], s)
  rate_limits ((key, c) ∷ asked) s =
      let (r, s') = rate_limit lib key c s in let (rs, s'') = rate_limits asked s' in (r ∷ rs, s'')

  -- The same questions to limiters that are made anew for each.
  unfoldable pub fresh_limits : List (Text × Limit) → W → List (Result Bool) × W
  fresh_limits [] w = ([], w)
  fresh_limits ((key, c) ∷ asked) w =
      let (r, w') = lib.limit (lib.make c) key w in
      let (rs, w'') = fresh_limits asked w' in (r ∷ rs, w'')

  rate_limit-AsKeyed :
      (key : Text) (c : Limit) (s : Strategy L W)
      → AsKeyed lib.make s.rate_limiters
      → ((rate_limit lib key c s).0 ≡ (lib.limit (lib.make c) key s.outside).0)
        × ((rate_limit lib key c s).1.outside ≡ (lib.limit (lib.make c) key s.outside).1)
        × AsKeyed lib.make (rate_limit lib key c s).1.rate_limiters
  unfolding rate_limit
  rate_limit-AsKeyed key c s a =
      let (e, kept) = limiter_for-AsKeyed c s.rate_limiters a in
      (ap (λ l. (lib.limit l key s.outside).0) e, ap (λ l. (lib.limit l key s.outside).1) e, kept)

  rate_limits-AsKeyed :
      (asked : List (Text × Limit)) (s : Strategy L W)
      → AsKeyed lib.make s.rate_limiters
      → ((rate_limits asked s).0 ≡ (fresh_limits asked s.outside).0)
        × ((rate_limits asked s).1.outside ≡ (fresh_limits asked s.outside).1)
  unfolding rate_limits fresh_limits
  rate_limits-AsKeyed [] s a = (refl, refl)
  rate_limits-AsKeyed ((key, c) ∷ asked) s a =
      let (e, f, kept) = rate_limit-AsKeyed key c s a in
      let (rest, out) = rate_limits-AsKeyed asked (rate_limit lib key c s).1 kept in (cc, cc)

  -- Whatever questions are asked one after the other, each with parameters of its own, the limiters
  -- that are kept by their keys answer as limiters do that are made for each question, and leave the
  -- same outside.
  pub rate_limits-fresh :
      (asked : List (Text × Limit)) (w : W)
      → ((rate_limits asked (record { rate_limiters = []; outside = w })).0
          ≡ (fresh_limits asked w).0)
        × ((rate_limits asked (record { rate_limiters = []; outside = w })).1.outside
            ≡ (fresh_limits asked w).1)
  rate_limits-fresh asked w =
      rate_limits-AsKeyed asked (record { rate_limiters = []; outside = w }) tt
