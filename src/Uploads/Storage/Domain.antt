-- ===== src/Uploads/Storage/Domain.antt =====
-- Which public domains `GcpStorageAdapter` accepts (storage/adapters/gcp-storage.adapter.ts).
use interiors_api_client.Common.{
  ℕ, ◌+◌, ◌*◌, ◌≡◌, ◌≢◌, ◌↔◌, refl, ap, subst, ◌∙◌, true, Option, none, some, [], ◌∷◌, Bool-cases,
  inl, inr, arith,
}
use interiors_api_client.Common.Text.{Text, text, text_eq}
use interiors_api_client.Common.Text.Laws.{text_eq_iff}
use interiors_api_client.Common.Exec.{Result, ok, err, and_then, Result-cases}
use interiors_api_client.Uploads.{PresignedUrl}
use interiors_api_client.Uploads.Storage.{
  Url, GcpAdapter, GcpPackage, construct_gcp, same_https_host, is_https, allowed_url, custom_url,
  is_allowed_public_domain, presign_gcp, link,
}

and_then-eq-ok :
    {A B : Type 0} (r : Result A) (f : A → Result B) (b : B)
    → and_then r f ≡ ok b
    → (a : A) × (r ≡ ok a) × (f a ≡ ok b)
and_then-eq-ok (ok a) f b h = (a, refl, h)
and_then-eq-ok (err e) f b h = absurd (cc)

abbrev domain_in : Result GcpAdapter → Text
domain_in (ok g) = g.public_domain
domain_in (err e) = []

-- The public domain that the constructor keeps.
construct_gcp-domain :
    (config : Text → Option Text) (g : GcpAdapter) (v : Text)
    → construct_gcp config ≡ ok g
    → config (text "GCS_PUBLIC_DOMAIN") ≡ some v
    → g.public_domain ≡ v
unfolding construct_gcp
construct_gcp-domain config g v h e = ground arith

text_eq_self : (t : Text) → text_eq t t ≡ true
text_eq_self t = (text_eq_iff t t).1 refl

same_https_host_self : (u : Url) → is_https u ≡ true → same_https_host u (some u) ≡ true
same_https_host_self u h = rw (h, text_eq_self u.hostname)

module _ (parse_url : Text → Option Url) (config : Text → Option Text) where
  allowed_url-iff_https :
      (o : Option Url)
      → custom_url parse_url config (config (text "GCS_PUBLIC_DOMAIN")) ≡ o
      → (allowed_url parse_url config o ≡ true)
        ↔ ((u : Url) × (o ≡ some u) × (u.protocol ≡ text "https:"))
  allowed_url-iff_https none e = (λ h. absurd (cc), λ (u, h, k). absurd (cc h))
  allowed_url-iff_https (some u) e = elim (Bool-cases (is_https u)) [
    | inl safe ↦ (
      λ h. (u, refl, (text_eq_iff u.protocol (text "https:")).0 safe),
      λ h. rw safe (elim (Bool-cases (text_eq u.hostname (text "storage.googleapis.com"))) [
        | inl google ↦ rw google refl
        | inr other ↦ rw (other, e) (same_https_host_self u safe)
      ]),
    )
    | inr unsafe ↦ (
      λ h. absurd (let k = rw unsafe at h in cc),
      λ (u', same, k).
          let here : u' ≡ u = cc in
          let t =
            (text_eq_iff u.protocol (text "https:")).1
              (subst (λ x. x.protocol ≡ text "https:") here k) in
          absurd (cc),
    )
  ]

  custom_url-filled : (v : Text) → v ≢ [] → custom_url parse_url config (some v) ≡ parse_url v
  custom_url-filled [] ne = absurd (ne refl)
  custom_url-filled (c ∷ s) ne = refl

  -- A domain that is configured as `GCS_PUBLIC_DOMAIN` and not empty is allowed exactly when it is a
  -- URL with the protocol `https:`, whatever its host: the check compares the host with itself.
  pub is_allowed_public_domain-iff_https :
      (v : Text)
      → config (text "GCS_PUBLIC_DOMAIN") ≡ some v
      → v ≢ []
      → (is_allowed_public_domain parse_url config v ≡ true)
        ↔ ((u : Url) × (parse_url v ≡ some u) × (u.protocol ≡ text "https:"))
  unfolding is_allowed_public_domain
  is_allowed_public_domain-iff_https v e ne =
      allowed_url-iff_https (parse_url v)
        (ap (custom_url parse_url config) e ∙ custom_url-filled v ne)

  module _ {W : Type 0} (storage : GcpPackage W) where
    -- The URL that the storage signs for a file.
    abbrev pub signed : GcpAdapter → (file_key mime_type : Text) → ℕ → W → Result Text
    signed g key type seconds w =
        (storage.get_signed_url g.bucket_name key type (storage.now w + seconds * 1000) w).0

    -- With a public domain that is configured and not empty, an upload to the Google storage gets
    -- URLs exactly when the storage signs one and the domain is a URL with the protocol `https:`; the
    -- URLs are then the signed one, and the file under that domain.
    pub presign_gcp-answers_iff :
        (g : GcpAdapter) (v key type : Text) (seconds : ℕ) (w : W) (p : PresignedUrl)
        → construct_gcp config ≡ ok g
        → config (text "GCS_PUBLIC_DOMAIN") ≡ some v
        → v ≢ []
        → ((presign_gcp parse_url config storage g key type seconds w).0 ≡ ok p) ↔ (
            (url : Text) × (signed g key type seconds w ≡ ok url)
            × ((u : Url) × (parse_url v ≡ some u) × (u.protocol ≡ text "https:"))
            × (p ≡ record { upload_url = url; public_url = link v key }))
    unfolding presign_gcp
    presign_gcp-answers_iff g v key type seconds w p made e ne =
        let dom = construct_gcp-domain config g v made e in
        let allowed = is_allowed_public_domain-iff_https v e ne in
        elim (Result-cases (signed g key type seconds w)) [
          | inl (url, a) ↦ elim (Bool-cases (is_allowed_public_domain parse_url config v)) [
            | inl b ↦ rw (a, dom, b) (λ h. (url, refl, allowed.0 b, cc), λ (url', a', u, k). cc)
            | inr b ↦
                rw (a, dom, b) (λ h. absurd (cc), λ (url', a', u, k). absurd (cc (allowed.1 u)))
          ]
          | inr (x, a) ↦ rw a (λ h. absurd (cc), λ (url, a', u, k). absurd (cc a'))
        ]
