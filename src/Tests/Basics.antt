-- ===== src/Tests/Basics.antt =====
-- The texts of package strings, and decimal numbers.
use pulp.Prelude.{◌≡◌, refl}
use pulp.Prelude.Text.{codes, trim_space}
use pulp.Prelude.Decimal.{decimal}

trim_space_test : trim_space (codes "  a b ") ≡ codes "a b"
unfolding trim_space
trim_space_test = refl

decimal_test : decimal 1024 ≡ codes "1024"
unfolding decimal
decimal_test = refl
