-- ===== src/Maintainers/Tests.antt =====
-- Two maintainers with a package in common.
use ofborg.Base.{[], ◌∷◌, text, text_eq, contains, join, ◌≡◌, refl}
use ofborg.Maintainers.{
  ImpactedMaintainers, maintainers_by_package, by_package_from, insert_packages, insert_maintainer,
  fmt,
}
use ofborg.Maintainers.Tables.{lists, maintainers_by_package-lists}

abbrev impacted : ImpactedMaintainers
impacted = (text "alice", text "hello" ∷ []) ∷ (text "bob", text "hello" ∷ text "cowsay" ∷ []) ∷ []

turned :
    maintainers_by_package impacted
    ≡ (text "hello", text "bob" ∷ text "alice" ∷ []) ∷ (text "cowsay", text "bob" ∷ []) ∷ []
unfolding maintainers_by_package by_package_from insert_packages insert_maintainer contains text
    text_eq
turned = refl

displayed : fmt impacted ≡ text "alice: hello\nbob: hello, cowsay"
unfolding fmt join text
displayed = refl

maintainers_by_package-lists_example :
    lists (maintainers_by_package impacted) (text "hello") (text "bob")
    ≡ lists impacted (text "bob") (text "hello")
maintainers_by_package-lists_example =
    maintainers_by_package-lists impacted (text "hello") (text "bob")
