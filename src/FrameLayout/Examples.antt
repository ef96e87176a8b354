-- ===== src/FrameLayout/Examples.antt =====
-- Buffer sizes of concrete frames.
use rockchip_vaapi.Base.{ℕ, ◌*◌, ◌≤◌, ◌≡◌, ◌⊎◌, refl, true, false, some, arith}
use rockchip_vaapi.FrameLayout.{
  rk_nv12_layout_size, rk_p010_layout_size, rk_surface_buffer_size, rk_surface_placeholder_size,
}
use rockchip_vaapi.FrameLayout.Sizes.{
  rk_nv12_layout_size_lem, rk_p010_layout_size_lem, rk_surface_buffer_size_lem,
  rk_surface_placeholder_size_covers,
}

rk_nv12_layout_size_lem_example : rk_nv12_layout_size 1920 1088 ≡ some 3133440
rk_nv12_layout_size_lem_example = rk_nv12_layout_size_lem 1920 1088 (omega arith) (omega arith) refl

rk_p010_layout_size_lem_example : rk_p010_layout_size 1920 1088 ≡ some 6266880
rk_p010_layout_size_lem_example = rk_p010_layout_size_lem 1920 1088 (omega arith) (omega arith) refl

rk_surface_buffer_size_lem_example : rk_surface_buffer_size 1920 1080 ≡ some 5013504
rk_surface_buffer_size_lem_example =
    rk_surface_buffer_size_lem 1920 1080 (omega arith) (omega arith)

rk_surface_placeholder_size_covers_example :
    (size conservative : ℕ) × (rk_surface_placeholder_size 1920 1080 true ≡ some size)
    × (rk_surface_buffer_size 1920 1080 ≡ some conservative)
    × (conservative ≤ size)
    × (2 * (1920 * 1080) ≤ size)
    × ((true ≡ false) ⊎ (3 * (1920 * 1080) ≤ size))
rk_surface_placeholder_size_covers_example =
    rk_surface_placeholder_size_covers 1920 1080 true (omega arith) (omega arith) (omega arith)
      (omega arith)
