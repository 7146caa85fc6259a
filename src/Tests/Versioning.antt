-- ===== src/Tests/Versioning.antt =====
-- versioning/versioning.go: a concrete table.
use plakar.Prelude.{◌≡◌, refl, [], ◌∷◌, ok}
use plakar.Versioning.{Versions, register}

abbrev table : Versions
table = (4, 65536) ∷ []

registers : register 5 65537 table ≡ ok ((5, 65537) ∷ table)
unfolding register
registers = refl
