-- ===== src/Resources.antt =====
-- resources/resources.go: the types of stored resources, numbers of 32 bits.
use plakar.Prelude.{ℕ, List, [], ◌∷◌}

abbrev pub rt_config : ℕ
rt_config = 1

abbrev pub rt_state : ℕ
rt_state = 3

abbrev pub rt_packfile : ℕ
rt_packfile = 4

abbrev pub rt_snapshot : ℕ
rt_snapshot = 5

-- `Types`
unfoldable pub types : List ℕ
types = 1 ∷ 2 ∷ 3 ∷ 4 ∷ 5 ∷ 6 ∷ 7 ∷ 9 ∷ 10 ∷ 11 ∷ 12 ∷ 13 ∷ 14 ∷ 15 ∷ 16 ∷ 17 ∷ 18 ∷ 19 ∷ 20 ∷ []
