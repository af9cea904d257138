-- ===== src/Quotes/Exclusion.antt =====
-- At most one submission of a fingerprint is past the duplicate guard.
use interiors_api_client.Common.{
  ℕ, ◌≡◌, ◌≢◌, ◌⊎◌, refl, ap, sym, subst, ◌∙◌, Bool, true, false, inl, inr, Bool-cases, ◌==◌,
  ==_iff, arith,
}
use interiors_api_client.Common.Text.{Text, text, text_eq}
use interiors_api_client.Common.Text.Laws.{text_eq_iff}
use interiors_api_client.Common.Exec.{ok, Result-cases}
use interiors_api_client.Quotes.Desk.{Desk, Services}
use interiors_api_client.Quotes.Normalize.{NormalizedQuoteData, generate_fingerprint}
use interiors_api_client.Quotes.Guard.{create_lock_key, is_duplicate_submission, release_lock}
use interiors_api_client.Quotes.Interleaving.{
  Phase, waiting, holding, finished, Running, set_phase, IsLockStore, Step, admitted, refused,
  released, elsewhere, Reach, here, next, IsExclusive,
}

create_lock_key-eq : (a b : Text) → text_eq (create_lock_key a) (create_lock_key b) ≡ text_eq a b
unfolding create_lock_key text_eq
create_lock_key-eq a b = refl

-- Who is past the guard after one submission moved.
set_phase-cases :
    (p : ℕ) (ph : Phase) (f : ℕ → Phase) (q : ℕ) (fp : Text)
    → set_phase p ph f q ≡ holding fp
    → ((p ≡ q) × (ph ≡ holding fp)) ⊎ ((p ≢ q) × (f q ≡ holding fp))
set_phase-cases p ph f q fp h = elim (Bool-cases (p == q)) [
  | inl e ↦ inl ((==_iff p q).0 e, rw e at h)
  | inr e ↦ inr (λ same. let t = (==_iff p q).1 same in cc, rw e at h)
]

set_phase-finished :
    (p : ℕ) (f : ℕ → Phase) (q : ℕ) (fp : Text)
    → set_phase p finished f q ≡ holding fp
    → (p ≢ q) × (f q ≡ holding fp)
set_phase-finished p f q fp h = elim (set_phase-cases p finished f q fp h) [
  | inl (same, now) ↦ absurd (cc)
  | inr rest ↦ rest
]

module _ {W : Type 0} (services : Services W) (held : W → Text → Bool)
    (l : IsLockStore services held) where
  abbrev lock_of : NormalizedQuoteData → Text
  lock_of d = create_lock_key (generate_fingerprint services.sha256 services.config d)

  guard-outside :
      (d : NormalizedQuoteData) (s : Desk W)
      → (is_duplicate_submission services d s).1.outside
        ≡ (services.lock_set (lock_of d) (text "locked") 300 true s.outside).1
  unfolding is_duplicate_submission
  guard-outside d s =
      elim (Result-cases (services.lock_set (lock_of d) (text "locked") 300 true s.outside).0) [
        | inl (a, e) ↦ rw e refl
        | inr (x, e) ↦ rw e refl
      ]

  guard-ok :
      (d : NormalizedQuoteData) (s : Desk W) (fp : Text)
      → (is_duplicate_submission services d s).0 ≡ ok (fp, false)
      → (fp ≡ generate_fingerprint services.sha256 services.config d)
        × ((services.lock_set (lock_of d) (text "locked") 300 true s.outside).0 ≡ ok true)
  unfolding is_duplicate_submission
  guard-ok d s fp h =
      elim (Result-cases (services.lock_set (lock_of d) (text "locked") 300 true s.outside).0) [
        | inl (true, e) ↦ (ground (arith, e), e)
        | inl (false, e) ↦ absurd (ground (arith, e))
        | inr (x, e) ↦ absurd (ground (arith, e))
      ]

  admitted-took :
      (d : NormalizedQuoteData) (s : Desk W) (fp : Text)
      → (is_duplicate_submission services d s).0 ≡ ok (fp, false)
      → (held s.outside (create_lock_key fp) ≡ false)
        × (held (is_duplicate_submission services d s).1.outside (create_lock_key fp) ≡ true)
  admitted-took d s fp h =
      let (same, answer) = guard-ok d s fp h in
      let (free, taken) = l.takes (lock_of d) s.outside answer in
      (rw same free, rw (guard-outside d s, same) taken)

  guard_keeps :
      (d : NormalizedQuoteData) (s : Desk W) (key : Text)
      → held s.outside key ≡ true
      → held (is_duplicate_submission services d s).1.outside key ≡ true
  guard_keeps d s key h = rw (guard-outside d s) (l.keeps (lock_of d) key s.outside h)

  -- A release leaves the locks of the others.
  release_spares :
      (p q : ℕ) (fp fp' : Text) (s : Running W)
      → IsExclusive services held s
      → p ≢ q
      → s.phase p ≡ holding fp
      → s.phase q ≡ holding fp'
      → held (release_lock services fp s.desk).1.outside (create_lock_key fp') ≡ true
  unfolding release_lock
  release_spares p q fp fp' s x other inside there = elim (Bool-cases (text_eq fp fp')) [
    | inl e ↦
        absurd (other (x.single p q fp' (inside ∙ ap holding ((text_eq_iff fp fp').0 e)) there))
    | inr e ↦
        l.spares (create_lock_key fp) (create_lock_key fp') s.desk.outside
          (create_lock_key-eq fp fp' ∙ e) (x.locked q fp' there)
  ]

  -- Where nobody new is past the guard.
  fewer-IsExclusive :
      (s t : Running W)
      → IsExclusive services held s
      → ((q : ℕ) (fp : Text)
          → t.phase q ≡ holding fp
          → (s.phase q ≡ holding fp) × (held t.desk.outside (create_lock_key fp) ≡ true))
      → IsExclusive services held t
  fewer-IsExclusive s t x fewer = record {
    locked = λ q fp h. (fewer q fp h).1;
    single = λ q r fp h k. x.single q r fp (fewer q fp h).0 (fewer r fp k).0;
  }

  -- A lock that was free had nobody past the guard.
  free_of_holders :
      (s : Running W) (q : ℕ) (fp fp' : Text)
      → IsExclusive services held s
      → held s.desk.outside (create_lock_key fp) ≡ false
      → holding fp ≡ holding fp'
      → s.phase q ≢ holding fp'
  free_of_holders s q fp fp' x free now there =
      let same : fp ≡ fp' = cc in let taken = x.locked q fp (there ∙ ap holding (sym same)) in cc

  single_after :
      (s : Running W) (p q r : ℕ) (fp fp' : Text)
      → IsExclusive services held s
      → held s.desk.outside (create_lock_key fp) ≡ false
      → ((p ≡ q) × (holding fp ≡ holding fp')) ⊎ ((p ≢ q) × (s.phase q ≡ holding fp'))
      → ((p ≡ r) × (holding fp ≡ holding fp')) ⊎ ((p ≢ r) × (s.phase r ≡ holding fp'))
      → q ≡ r
  single_after s p q r fp fp' x free (inl (e, now)) (inl (e', now')) = sym e ∙ e'
  single_after s p q r fp fp' x free (inl (e, now)) (inr (other, there)) =
      absurd (free_of_holders s r fp fp' x free now there)
  single_after s p q r fp fp' x free (inr (other, there)) (inl (e, now)) =
      absurd (free_of_holders s q fp fp' x free now there)
  single_after s p q r fp fp' x free (inr (other, there)) (inr (other', there')) =
      x.single q r fp' there there'

  admitted-IsExclusive :
      (s : Running W) (p : ℕ) (fp : Text) (desk : Desk W)
      → IsExclusive services held s
      → held s.desk.outside (create_lock_key fp) ≡ false
      → held desk.outside (create_lock_key fp) ≡ true
      → ((key : Text) → held s.desk.outside key ≡ true → held desk.outside key ≡ true)
      → IsExclusive services held (record { desk = desk; phase = set_phase p (holding fp) s.phase })
  admitted-IsExclusive s p fp desk x free taken keep = record {
    locked = λ q fp' h. elim (set_phase-cases p (holding fp) s.phase q fp' h) [
      | inl (same, now) ↦
          let e : fp ≡ fp' = cc in subst (λ f. held desk.outside (create_lock_key f) ≡ true) e taken
      | inr (other, before) ↦ keep (create_lock_key fp') (x.locked q fp' before)
    ];
    single = λ q r fp' h k.
        single_after s p q r fp fp' x free (set_phase-cases p (holding fp) s.phase q fp' h)
          (set_phase-cases p (holding fp) s.phase r fp' k);
  }

  Step-IsExclusive :
      {s t : Running W}
      → Step services held s t
      → IsExclusive services held s
      → IsExclusive services held t
  Step-IsExclusive (admitted {s} p d fp idle passed e) x =
      let (free, taken) = admitted-took d s.desk fp passed in
      subst (IsExclusive services held) (sym e) (
        admitted-IsExclusive s p fp (is_duplicate_submission services d s.desk).1 x free taken
          (λ key. guard_keeps d s.desk key))
  Step-IsExclusive (refused {s} p d idle e) x = subst (IsExclusive services held) (sym e) (
      fewer-IsExclusive s _ x (λ q fp h.
        let before = set_phase-finished p s.phase q fp h in
        (before.1, guard_keeps d s.desk (create_lock_key fp) (x.locked q fp before.1))))
  Step-IsExclusive (released {s} p fp inside e) x = subst (IsExclusive services held) (sym e) (
      fewer-IsExclusive s _ x (λ q fp' h.
        let before = set_phase-finished p s.phase q fp' h in
        (before.1, release_spares p q fp fp' s x before.0 inside before.1)))
  Step-IsExclusive (elsewhere {s} desk keep e) x =
      subst (IsExclusive services held) (sym e)
        (fewer-IsExclusive s _ x (λ q fp h. (h, keep (create_lock_key fp) (x.locked q fp h))))

  -- At most one submission of each fingerprint is past the duplicate guard, and its lock is held, at
  -- every point of every run that starts with no submission past the guard, however the steps of the
  -- submissions interleave and whether their releases succeed, as long as the store keeps its
  -- promises and no lock expires.
  pub Reach-IsExclusive :
      {s t : Running W}
      → ((p : ℕ) → s.phase p ≡ waiting)
      → Reach services held s t
      → IsExclusive services held t
  Reach-IsExclusive {s} idle here = record {
    locked = λ p fp h. absurd (cc (idle p));
    single = λ p q fp h k. absurd (cc (idle p));
  }
  Reach-IsExclusive idle (next r step) = Step-IsExclusive step (Reach-IsExclusive idle r)
