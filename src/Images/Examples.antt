-- ===== src/Images/Examples.antt =====
-- An NV12 image of 16 by 2 samples, and its copy into a surface of the same size.
use rockchip_vaapi.Base.{arith, ◌≡◌, ◌↔◌, refl, true, false, some, [], ◌∷◌, replicate}
use rockchip_vaapi.Base.Int.{pos}
use rockchip_vaapi.Buffers.{Buffer, image_type, done}
use rockchip_vaapi.Images.{nv12, i420, Image, image_plane_fits, rk_create_image}
use rockchip_vaapi.Images.Planes.{RowsFit, image_plane_fits_lem}
use rockchip_vaapi.Images.Layout.{IsLaidOut, rk_create_image_lem}
use rockchip_vaapi.Images.Put.{Memory, Target, Region}

abbrev image : Image
image = record {
  fourcc = nv12;
  width = 16;
  height = 2;
  num_planes = 2;
  pitches = 16 ∷ 16 ∷ 0 ∷ [];
  offsets = 0 ∷ 32 ∷ 0 ∷ [];
}

abbrev buffer : Buffer
buffer = record {
  buffer_type = image_type;
  size = 48;
  num_elements = 1;
  capacity = 48;
  contents = replicate 48 7;
  segment_size = 0;
  segment_status = 0;
  coded_ready = false;
  coded_failed = false;
}

image_plane_fits_lem_example : (image_plane_fits image 1 16 1 48 ≡ true) ↔ RowsFit image 1 16 1 48
image_plane_fits_lem_example = image_plane_fits_lem image 1 16 1 48 (omega arith) (omega arith)

rk_create_image_lem_example :
    (i : Image) × (b : Buffer) × (rk_create_image true true i420 (pos 50) (pos 30) ≡ done (i, b))
    × IsLaidOut i420 50 30 i b
rk_create_image_lem_example =
    rk_create_image_lem i420 50 30 (omega arith) (omega arith) (omega arith) (omega arith) refl refl
      (omega arith)

abbrev target : Target
target = record {
  width = 16;
  height = 2;
  hstride = 16;
  vstride = 2;
  fourcc = nv12;
  ten_bit = false;
  imported = false;
  destination = some 4096;
  mapped = true;
}

abbrev region : Region
region = record {
  src_x = pos 0;
  src_y = pos 0;
  dest_x = pos 0;
  dest_y = pos 0;
  src_width = 16;
  src_height = 2;
  dest_width = 16;
  dest_height = 2;
}

abbrev empty : Memory
empty = λ at. 0
