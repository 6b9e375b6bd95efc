-- ===== src/PackageList/Tests.antt =====
-- A list of packages as it is read.
use npm_sentinel.Base.{ℕ, ◌<◌, String, ◌≡◌, refl, none, some, [], ◌∷◌}
use npm_sentinel.Core.Exceptions.{ok, raise, package_list_source_malformed_content_error}
use npm_sentinel.PackageList.Names.{Read, load_package_names-NameIn}
use npm_sentinel.PackageList.{answered, links, load_package_names}

abbrev content : String
content =
    "# Top\n1. [lodash](https://www.npmjs.org/package/lodash)\n  2.  [react](http://www.npmjs.com/package/react)\n- [no](https://www.npmjs.org/package/no)\n3. [again](https://www.npmjs.com/package/lodash)\n4. [x](https://www.npmjs.com/package/a b)\n"

load_tests :
    (links content ≡ "lodash" ∷ "react" ∷ "lodash" ∷ [])
    × (load_package_names (λ s. s) (answered 200 content) none ≡ ok ("lodash" ∷ "react" ∷ []))
    × (load_package_names (λ s. s) (answered 200 content) (some 1) ≡ ok ("lodash" ∷ []))
    × (load_package_names (λ s. s) (answered 200 "") none
        ≡ raise package_list_source_malformed_content_error
            "no package names found in source content")
unfolding links load_package_names
load_tests = (refl, refl, refl, refl)

load_package_names-NameIn_example :
    (status_code : ℕ) × (text : String) × (answered 200 content ≡ answered status_code text)
    × (status_code < 400)
    × Read (λ s. s) (some 1) text ("lodash" ∷ [])
unfolding links load_package_names
load_package_names-NameIn_example =
    load_package_names-NameIn (λ s. s) (answered 200 content) (some 1) {names = "lodash" ∷ []} refl
