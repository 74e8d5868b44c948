-- ===== src/Portal/Catalog.antt =====
-- portal.go, `projectCatalogService`: which services the portal can launch.
use home_stack.Prelude.{
  ap, codes, codes-append, true, false, ◌≡◌, ◌⊎◌, String, ◌<>◌, ◌==◌, none, some, refl, inl, inr,
  arith,
}
use home_stack.Registry.{Service, resolved_host}
use home_stack.Registry.Routing.{HasAddress, routable_url_cases}
use home_stack.Validity.Tokens.{==-eq-false}
use home_stack.Portal.{project_catalog_service}

https_nonempty : (host : String) → (("https://" <> host) == "") ≡ false
https_nonempty host =
    (==-eq-false ("https://" <> host) "").1
      (λ e. ground (arith, ap codes e, codes-append "https://" host))

-- The portal can launch a service that has an address, at its URL, and no other service.
pub launchable_cases :
    (id : String) (service : Service) (parent_domain : String)
    → (HasAddress service parent_domain
        × ((project_catalog_service id service parent_domain).launchable ≡ true)
        × ((project_catalog_service id service parent_domain).url
            ≡ some (("https://" <> resolved_host service parent_domain) <> "/")))
      ⊎ ((¬ HasAddress service parent_domain)
          × ((project_catalog_service id service parent_domain).launchable ≡ false)
          × ((project_catalog_service id service parent_domain).url ≡ none))
unfolding project_catalog_service
launchable_cases id service parent_domain = elim (routable_url_cases service parent_domain) [
  | inl (has, url) ↦
      inl (rw (url, https_nonempty (resolved_host service parent_domain)) (has, refl, refl))
  | inr (lacks, url) ↦ inr (rw url (lacks, refl, refl))
]
