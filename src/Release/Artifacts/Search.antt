-- ===== src/Release/Artifacts/Search.antt =====
-- Which release and which assets resources/artifacts.py finds.
use mathlib.Core.List.{head?}
use v_swarm_u.Base.{
  ◌≡◌, refl, true, false, ◌⊎◌, inl, inr, Option, none, some, List, [], ◌∷◌, arith, if◌then◌else◌,
  find, at_index-index_of,
}
use v_swarm_u.Base.Text.{Text, codes, in_text, text_eqb}
use v_swarm_u.Release.{Asset, Release}
use v_swarm_u.Release.Artifacts.{
  Error, exit, Api, get_release, first_url, get_url, all_urls, get_urls,
}

abbrev or_exit : Option Release → Error ⊎ Release
or_exit none = inl (exit 1)
or_exit (some r) = inr r

-- The tag "latest" stands for the latest release; for any other tag the script takes the first
-- release of the list that has it, and exits with 1 exactly if there is none.
get_release-find :
    (api : Api) (tag : Text)
    → get_release api tag ≡ (
        if text_eqb tag (codes "latest")
        then inr api.latest
        else or_exit (find (λ r. text_eqb r.tag_name tag) api.releases))
unfolding get_release
get_release-find api tag =
    ground (arith, at_index-index_of (λ (r : Release). text_eqb r.tag_name tag) 0 api.releases)

-- No asset that has the name in its name is a checksum file.
abbrev pub NoSums : Text → List Asset → Type 0
NoSums name [] = Unit
NoSums name (a ∷ rest) =
    (in_text name a.name ≡ true → in_text (codes "sums") a.name ≡ false) × NoSums name rest

first_url-head :
    (name : Text) (assets : List Asset)
    → NoSums name assets
    → first_url name assets ≡ head? (all_urls name assets)
unfolding first_url all_urls
first_url-head name [] h = refl
first_url-head name (a ∷ rest) h = ground (arith, first_url-head name rest h.1)

-- Where no matching asset is a checksum file, the one URL that is looked up for a name is the first
-- of all URLs for it, and it is missing exactly if there is none.
get_url-head_get_urls :
    (r : Release) (name : Text) → NoSums name r.assets → get_url r name ≡ head? (get_urls r name)
unfolding get_url get_urls
get_url-head_get_urls r name h = first_url-head name r.assets h
