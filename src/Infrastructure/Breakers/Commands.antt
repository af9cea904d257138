-- ===== src/Infrastructure/Breakers/Commands.antt =====
-- The methods of the registry of breakers as commands, and the breaker of each name after them.
use interiors_api_client.Common.{
  ◌≡◌, refl, Bool, Option, none, some, List, [], ◌∷◌, if◌then◌else◌, is_some, inl, inr,
  Option-cases, arith,
}
use interiors_api_client.Common.Text.{Text, text_eq}
use interiors_api_client.Common.Text.Laws.{text_eq_refl, text_eq_iff}
use interiors_api_client.Common.Exec.{Result}
use interiors_api_client.Infrastructure.Breakers.{
  Options, Opossum, Factory, Stats, get, set, delete, create_breaker, keep_or_make,
  get_or_create_breaker, find_breaker, stats_or_throw, get_stats, reset_all, reset_found, reset,
  remove_found, remove, shutdown_all, on_application_shutdown,
}

-- A call of one of the factory's methods.
pub data Command : Type 0 where
  get_or_create : Text → Options → Command
  find stats resetting removing : Text → Command
  resetting_all shutting_down shutting_down_application : Command

-- What a call answers: a breaker, whether there was one, its state, or nothing.
pub data Answer (B J : Type 0) : Type 0 where
  a_breaker : Option B → Answer B J
  a_test : Bool → Answer B J
  the_stats : Result (Stats J) → Answer B J
  nothing : Answer B J

module _ {B : Type 0} where
  pub get-set :
      (name other : Text) (b : B) (m : List (Text × B))
      → get other (set name b m) ≡ (if text_eq name other then some b else get other m)
  unfolding get set
  get-set name other b [] = refl
  get-set name other b ((n, c) ∷ m) = ground (
    arith,
    text_eq_iff n name,
    text_eq_iff n other,
    text_eq_iff name other,
    text_eq_refl n,
    get-set name other b m,
  )

  pub get-delete :
      (name other : Text) (m : List (Text × B))
      → get other (delete name m) ≡ (if text_eq name other then none else get other m)
  unfolding get delete
  get-delete name other [] = ground arith
  get-delete name other ((n, c) ∷ m) = ground (
    arith,
    text_eq_iff n name,
    text_eq_iff n other,
    text_eq_iff name other,
    get-delete name other m,
  )

-- The breaker of each name.
abbrev pub view : {B W : Type 0} → Factory B W → Text → Option B
view f k = get k f.breakers

module _ {B J W : Type 0} (lib : Opossum B J W) where
  -- The method that a command calls.
  unfoldable pub perform : Command → Factory B W → Answer B J × Factory B W
  perform (get_or_create name options) f =
      let (b, f') = get_or_create_breaker lib name options f in (a_breaker (some b), f')
  perform (find name) f = (a_breaker (find_breaker lib name f), f)
  perform (stats name) f = (the_stats (get_stats lib name f), f)
  perform (resetting name) f = let (done, f') = reset lib name f in (a_test done, f')
  perform (removing name) f = let (done, f') = remove lib name f in (a_test done, f')
  perform resetting_all f = (nothing, reset_all lib f)
  perform shutting_down f = (nothing, shutdown_all lib f)
  perform shutting_down_application f = (nothing, on_application_shutdown lib f)

  abbrev pub or_made : Option B → Text → Options → W → B
  or_made none name options w = (create_breaker lib name options w).0
  or_made (some b) name options w = b

  -- What the registry promises, for `m` the breaker of each name and `w` the outside before the
  -- call: the breaker of each name after it, and the answer.
  abbrev pub registered : Command → W → (Text → Option B) → Text → Option B
  registered (get_or_create name options) w m k =
      if text_eq name k then some (or_made (m name) name options w) else m k
  registered (removing name) w m k = if text_eq name k then none else m k
  registered shutting_down w m k = none
  registered (find name) w m k = m k
  registered (stats name) w m k = m k
  registered (resetting name) w m k = m k
  registered resetting_all w m k = m k
  registered shutting_down_application w m k = m k

  abbrev pub answered : Command → W → (Text → Option B) → Answer B J
  answered (get_or_create name options) w m = a_breaker (some (or_made (m name) name options w))
  answered (find name) w m = a_breaker (m name)
  answered (stats name) w m = the_stats (stats_or_throw lib name w (m name))
  answered (resetting name) w m = a_test (is_some (m name))
  answered (removing name) w m = a_test (is_some (m name))
  answered resetting_all w m = nothing
  answered shutting_down w m = nothing
  answered shutting_down_application w m = nothing

  pub answers : (c : Command) (f : Factory B W) → (perform c f).0 ≡ answered c f.outside (view f)
  unfolding perform get_or_create_breaker find_breaker get_stats reset remove
  answers (get_or_create name options) f = elim (Option-cases (get name f.breakers)) [
    | inl e ↦ rw e refl
    | inr (b, e) ↦ rw e refl
  ]
  answers (find name) f = refl
  answers (stats name) f = refl
  answers (resetting name) f = elim (Option-cases (get name f.breakers)) [
    | inl e ↦ rw e refl
    | inr (b, e) ↦ rw e refl
  ]
  answers (removing name) f = elim (Option-cases (get name f.breakers)) [
    | inl e ↦ rw e refl
    | inr (b, e) ↦ rw e refl
  ]
  answers resetting_all f = refl
  answers shutting_down f = refl
  answers shutting_down_application f = refl

  keep_or_make-view :
      (name : Text) (options : Options) (f : Factory B W) (k : Text) (o : Option B)
      → get name f.breakers ≡ o
      → view (keep_or_make lib name options f o).1 k
        ≡ (if text_eq name k then some (or_made o name options f.outside) else view f k)
  keep_or_make-view name options f k none e =
      get-set name k (create_breaker lib name options f.outside).0 f.breakers
  keep_or_make-view name options f k (some b) e = ground (arith, text_eq_iff name k)

  reset_found-view :
      (f : Factory B W) (k : Text) (o : Option B) → view (reset_found lib f o).1 k ≡ view f k
  reset_found-view f k none = refl
  reset_found-view f k (some b) = refl

  remove_found-view :
      (name : Text) (f : Factory B W) (k : Text) (o : Option B)
      → get name f.breakers ≡ o
      → view (remove_found lib name f o).1 k ≡ (if text_eq name k then none else view f k)
  remove_found-view name f k none e = ground (arith, text_eq_iff name k)
  remove_found-view name f k (some b) e = get-delete name k f.breakers

  pub views :
      (c : Command) (f : Factory B W) (k : Text)
      → view (perform c f).1 k ≡ registered c f.outside (view f) k
  unfolding perform get_or_create_breaker reset reset_all remove shutdown_all
      on_application_shutdown
  views (get_or_create name options) f k =
      keep_or_make-view name options f k (get name f.breakers) refl
  views (find name) f k = refl
  views (stats name) f k = refl
  views (resetting name) f k = reset_found-view f k (get name f.breakers)
  views (removing name) f k = remove_found-view name f k (get name f.breakers) refl
  views resetting_all f k = refl
  views shutting_down f k = refl
  views shutting_down_application f k = refl
