-- ===== src/Vp9/Examples.antt =====
-- The VP9 parser on concrete packets.
use rockchip_vaapi.Base.{ℕ, ◌≡◌, true, false, some, List, [], ◌∷◌, arith}
use rockchip_vaapi.Vp9.{rk_vp9_parse_frame}
use rockchip_vaapi.Vp9.Fields.{key, Laid, header_fields, info_of}
use rockchip_vaapi.Vp9.Headers.{rk_vp9_parse_frame_lem}
use rockchip_vaapi.Vp9.Safety.{IsRepeat, rk_vp9_parse_frame-append, parse-make_show_existing}

-- A key frame of profile 0 that is shown: 1000 0010, and the sync code.
abbrev key_packet : List ℕ
key_packet = 0x82 ∷ 0x49 ∷ 0x83 ∷ 0x42 ∷ []

key_Laid : Laid key_packet 4 0 (header_fields false (key true false 1))
key_Laid = ground arith

rk_vp9_parse_frame_lem_example :
    rk_vp9_parse_frame key_packet 4 0 ≡ some (info_of (key true false 1))
rk_vp9_parse_frame_lem_example =
    rk_vp9_parse_frame_lem key_packet 4 false (key true false 1) (omega arith) (omega arith)
      key_Laid

rk_vp9_parse_frame-append_example :
    rk_vp9_parse_frame (0x82 ∷ 0x49 ∷ 0x83 ∷ 0x42 ∷ 9 ∷ 9 ∷ []) 4 0
    ≡ rk_vp9_parse_frame key_packet 4 0
rk_vp9_parse_frame-append_example = rk_vp9_parse_frame-append key_packet (9 ∷ 9 ∷ []) 0

parse-make_show_existing_example : IsRepeat true 5
parse-make_show_existing_example = parse-make_show_existing true 5 (omega arith)
