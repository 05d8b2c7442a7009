-- ===== src/Maintainers.antt =====
-- The maintainers whom a change concerns: ofborg/src/maintainers.rs.
pub mod Tables
pub mod Calculate
mod Tests
use ofborg.Base.{
  Bool, ◌&&◌, List, [], ◌∷◌, ◌++◌, map, any, Text, text, text_eq, contains, join, if◌then◌else◌,
}

-- Each maintainer's packages, and each package's maintainers: hash maps, in the order in which they are
-- iterated, with a set as the list of its elements.
abbrev pub ImpactedMaintainers : Type 0
ImpactedMaintainers = List (Text × List Text)

abbrev pub MaintainersByPackage : Type 0
MaintainersByPackage = List (Text × List Text)

unfoldable pub maintainers : ImpactedMaintainers → List Text
maintainers m = map (λ e. e.0) m

abbrev pub insert_name : Text → List Text → List Text
insert_name a set = if contains set a then set else a ∷ set

-- `entry(package).or_insert_with(HashSet::new).insert(maintainer)`
unfoldable pub insert_maintainer : Text → Text → MaintainersByPackage → MaintainersByPackage
insert_maintainer package_name maintainer [] = (package_name, maintainer ∷ []) ∷ []
insert_maintainer package_name maintainer ((q, set) ∷ rest) =
    let later = insert_maintainer package_name maintainer rest in
    if text_eq package_name q then (q, insert_name maintainer set) ∷ rest else (q, set) ∷ later

-- the inner loop
unfoldable pub insert_packages : Text → List Text → MaintainersByPackage → MaintainersByPackage
insert_packages maintainer [] bypkg = bypkg
insert_packages maintainer (p ∷ packages) bypkg =
    insert_packages maintainer packages (insert_maintainer p maintainer bypkg)

-- the outer loop
unfoldable pub by_package_from : ImpactedMaintainers → MaintainersByPackage → MaintainersByPackage
by_package_from [] bypkg = bypkg
by_package_from (e ∷ rest) bypkg = by_package_from rest (insert_packages e.0 e.1 bypkg)

unfoldable pub maintainers_by_package : ImpactedMaintainers → MaintainersByPackage
unfolding by_package_from
maintainers_by_package m = by_package_from m []

-- `Display`
unfoldable pub fmt : ImpactedMaintainers → Text
fmt m = join (10 ∷ []) (map (λ e. e.0 ++ (text ": " ++ join (text ", ") e.1)) m)
