-- ===== src/Grid/Tests.antt =====
-- The corner of the wall.
use patriots_rtes.Prelude.{◌≡◌, refl, true, false}
use patriots_rtes.Platform.{counting}
use patriots_rtes.Grid.{wall_init_check}

corner : (wall_init_check 638 479 ≡ true) × (wall_init_check 638 478 ≡ false)
unfolding wall_init_check
corner = (refl, refl)
