-- ===== src/Bitstream/Examples.antt =====
-- The bit writer on concrete values, in a buffer of 16 bytes.
use rockchip_vaapi.Base.{ℕ, ◌≤◌, ◌<◌, ◌≡◌, [], ◌∷◌, arith, replicate}
use rockchip_vaapi.Bitstream.{bs_init, bs_write, bs_rbsp_trailing}
use rockchip_vaapi.Bitstream.Content.{Holds, bs_init-Holds, bs_init-capacity, bs_write-Holds}
use rockchip_vaapi.Bitstream.Trailing.{bs_rbsp_trailing-Holds}

bs_write-Holds_example : Holds (bs_write (bs_init 16) 5 3) (1 ∷ 0 ∷ 1 ∷ [])
bs_write-Holds_example =
    bs_write-Holds (bs_init 16) [] 5 3 (bs_init-Holds 16) (omega (arith, bs_init-capacity 16))

room_left : (bs_init 16).byte_pos < (bs_init 16).capacity
unfolding bs_init
room_left = omega arith

bs_rbsp_trailing-Holds_example :
    (n : ℕ) × (n ≤ 7)
    × Holds (bs_rbsp_trailing (bs_init 16)) (1 ∷ replicate n 0)
    × ((bs_rbsp_trailing (bs_init 16)).bit_pos ≡ 0)
bs_rbsp_trailing-Holds_example = bs_rbsp_trailing-Holds (bs_init 16) [] (bs_init-Holds 16) room_left
