-- ===== src/Infrastructure/Breakers/Once.antt =====
-- One breaker for each name.
use interiors_api_client.Common.{
  ◌≡◌, refl, false, Option, some, List, [], ◌∷◌, inl, inr, Option-cases, ◌∙◌, All, arith,
}
use interiors_api_client.Common.Text.{Text, text_eq}
use interiors_api_client.Common.Text.Laws.{text_eq_refl, text_eq_iff}
use interiors_api_client.Infrastructure.Breakers.{
  Options, Opossum, Factory, get, create_breaker, get_or_create_breaker,
}
use interiors_api_client.Infrastructure.Breakers.Commands.{
  Command, get_or_create, find, stats, resetting, removing, resetting_all, shutting_down,
  shutting_down_application, get-set, perform, registered, view, views,
}

-- The command does not take the breaker of this name away.
abbrev pub Spares : Text → Command → Type 0
Spares name (removing n) = text_eq n name ≡ false
Spares name shutting_down = ⊥
Spares name (get_or_create n options) = Unit
Spares name (find n) = Unit
Spares name (stats n) = Unit
Spares name (resetting n) = Unit
Spares name resetting_all = Unit
Spares name shutting_down_application = Unit

module _ {B J W : Type 0} (lib : Opossum B J W) where
  -- The calls one after the other.
  unfoldable pub perform_all : List Command → Factory B W → Factory B W
  unfolding perform
  perform_all [] f = f
  perform_all (c ∷ cs) f = perform_all cs (perform lib c f).1

  registered-Spares :
      (name : Text) (c : Command) (w : W) (m : Text → Option B) (b : B)
      → m name ≡ some b
      → Spares name c
      → registered lib c w m name ≡ some b
  registered-Spares name (get_or_create n options) w m b e h = ground (arith, text_eq_iff n name)
  registered-Spares name (removing n) w m b e h = rw h e
  registered-Spares name shutting_down w m b e h = elim h [ ]
  registered-Spares name (find n) w m b e h = e
  registered-Spares name (stats n) w m b e h = e
  registered-Spares name (resetting n) w m b e h = e
  registered-Spares name resetting_all w m b e h = e
  registered-Spares name shutting_down_application w m b e h = e

  perform_all-Spares :
      (name : Text) (cs : List Command) (f : Factory B W) (b : B)
      → view f name ≡ some b
      → All (Spares name) cs
      → view (perform_all cs f) name ≡ some b
  unfolding perform_all
  perform_all-Spares name [] f b e h = e
  perform_all-Spares name (c ∷ cs) f b e h =
      perform_all-Spares name cs (perform lib c f).1 b
        (views lib c f name ∙ registered-Spares name c f.outside (view f) b e h.0) h.1

  made_then_registered :
      (name : Text) (options : Options) (f : Factory B W)
      → view (get_or_create_breaker lib name options f).1 name
        ≡ some (get_or_create_breaker lib name options f).0
  unfolding get_or_create_breaker
  made_then_registered name options f = elim (Option-cases (get name f.breakers)) [
    | inl e ↦ rw e (
        get-set name name (create_breaker lib name options f.outside).0 f.breakers
        ∙ rw (text_eq_refl name) refl)
    | inr (b, e) ↦ rw e e
  ]

  registered_then_kept :
      (name : Text) (options : Options) (f : Factory B W) (b : B)
      → view f name ≡ some b
      → get_or_create_breaker lib name options f ≡ (b, f)
  unfolding get_or_create_breaker
  registered_then_kept name options f b e = rw e refl

  -- The same breaker is given for a name, whatever options are asked for, and nothing is changed,
  -- as long as since the name's breaker was first asked for only calls were made that neither
  -- remove this name nor shut all breakers down.
  pub get_or_create_breaker-once :
      (name : Text) (options later : Options) (cs : List Command) (f : Factory B W)
      → All (Spares name) cs
      → get_or_create_breaker lib name later
          (perform_all cs (get_or_create_breaker lib name options f).1)
        ≡ (
          (get_or_create_breaker lib name options f).0,
          perform_all cs (get_or_create_breaker lib name options f).1,
        )
  get_or_create_breaker-once name options later cs f h =
      let (b, f') = get_or_create_breaker lib name options f in
      registered_then_kept name later (perform_all cs f') b
        (perform_all-Spares name cs f' b (made_then_registered name options f) h)
