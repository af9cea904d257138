-- ===== src/Notifications/Webhook/Audience.antt =====
-- Whether the dispatcher's tasks carry the audience that the webhook expects.
use interiors_api_client.Common.{
  ◌≡◌, ◌↔◌, refl, ap, sym, ◌∙◌, ◌++◌, [], ◌∷◌, ◌==◌, ==_iff, length, length-append, inl, inr,
  Bool-cases, arith,
}
use interiors_api_client.Common.Text.{Text}
use interiors_api_client.Notifications.Dispatch.{process_path, task_url}
use interiors_api_client.Notifications.Webhook.{without_last_slash, expected_audience}

-- Some text and then a slash.
abbrev pub EndsWithSlash : Text → Type 0
EndsWithSlash base = (s : Text) × (base ≡ s ++ (47 ∷ []))

without_last_slash-append : (s : Text) → without_last_slash (s ++ (47 ∷ [])) ≡ s
unfolding without_last_slash
without_last_slash-append [] = refl
without_last_slash-append (c ∷ []) = ground (arith, without_last_slash-append [])
without_last_slash-append (c ∷ d ∷ s) = ground (arith, without_last_slash-append (d ∷ s))

without_last_slash-plain : (base : Text) → (¬ EndsWithSlash base) → without_last_slash base ≡ base
unfolding without_last_slash
without_last_slash-plain [] no_slash = refl
without_last_slash-plain (c ∷ []) no_slash = elim (Bool-cases (c == 47)) [
  | inl e ↦ absurd (no_slash ([], ap (λ d. d ∷ []) ((==_iff c 47).0 e)))
  | inr e ↦ rw e refl
]
without_last_slash-plain (c ∷ d ∷ s) no_slash =
    let rest = without_last_slash-plain (d ∷ s) (λ h. no_slash (c ∷ h.0, ap (λ t. c ∷ t) h.1)) in
    ground (arith, rest)

-- The audience of the tasks that the dispatcher makes is the one that the webhook expects exactly if
-- the configured address of the application does not end with a slash.
pub task_url-eq-expected_audience_iff :
    (base : Text) → (task_url base ≡ expected_audience base) ↔ (¬ EndsWithSlash base)
unfolding task_url expected_audience
task_url-eq-expected_audience_iff base = (
  λ same slash.
      let lost = ap without_last_slash slash.1 ∙ without_last_slash-append slash.0 in
      let longer = ap length slash.1 ∙ length-append slash.0 (47 ∷ []) in
      let whole = sym (length-append base process_path) ∙ ap length same in
      omega (
        arith,
        whole,
        length-append (without_last_slash base) process_path,
        ap length lost,
        longer,
      ),
  λ no_slash. rw (without_last_slash-plain base no_slash) refl,
)
