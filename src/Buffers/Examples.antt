-- ===== src/Buffers/Examples.antt =====
-- Buffers of a few bytes: one that is resized, one that is created, and one that frames are stored in.
use rockchip_vaapi.Base.{arith, inl, ◌≡◌, refl, All, true, false, List, [], ◌∷◌}
use rockchip_vaapi.Buffers.{Buffer, enc_coded, done, rk_buffer_set_num_elements, rk_sync_buffer}
use rockchip_vaapi.Buffers.Contents.{IsSized, IsResized, rk_buffer_set_num_elements_lem}
use rockchip_vaapi.Buffers.Coded.{
  waiting, Cell, Call, store, resize, begin, Refines, Maps, IsShort, cell_run, cell_sync,
  buffer_run, buffer_run-Refines,
}

abbrev four_bytes : Buffer
four_bytes = record {
  buffer_type = enc_coded;
  size = 2;
  num_elements = 2;
  capacity = 4;
  contents = 1 ∷ 2 ∷ 3 ∷ 4 ∷ [];
  segment_size = 0;
  segment_status = 0;
  coded_ready = false;
  coded_failed = false;
}

four_bytes-IsSized : IsSized four_bytes
four_bytes-IsSized = record {
  filled = refl;
  elements = refl;
  counted = inl refl;
  bounded = omega arith;
}

rk_buffer_set_num_elements_lem_example :
    (next : Buffer) × (rk_buffer_set_num_elements true 3 four_bytes ≡ done next)
    × (next.num_elements ≡ 3)
    × IsSized next
    × IsResized four_bytes next
    × (true ≡ true → (next.coded_ready ≡ false) × (next.coded_failed ≡ false))
rk_buffer_set_num_elements_lem_example =
    rk_buffer_set_num_elements_lem 3 four_bytes four_bytes-IsSized refl

abbrev cell : Cell
cell = record { room = 4; held = waiting }

four_bytes-Refines : Refines 2 cell four_bytes
four_bytes-Refines = record {
  coded = refl;
  sized = four_bytes-IsSized;
  same_size = refl;
  same_room = refl;
  holds = (refl, refl);
}

-- A frame of three bytes, a longer buffer, and a frame that is still too long.
abbrev calls : List Call
calls =
    store (7 ∷ 7 ∷ 7 ∷ []) 0 ∷ resize true 3 ∷ begin ∷ store (1 ∷ 2 ∷ 3 ∷ 4 ∷ 5 ∷ 6 ∷ 7 ∷ []) 0 ∷ []

calls-IsShort : All IsShort calls
calls-IsShort = (omega arith, (tt, (tt, (omega arith, tt))))

buffer_run-Refines_example :
    Refines 2 (cell_run 2 calls cell) (buffer_run 2048 calls four_bytes)
    × (rk_sync_buffer (buffer_run 2048 calls four_bytes) ≡ cell_sync (cell_run 2 calls cell).held)
    × Maps (cell_run 2 calls cell).held (buffer_run 2048 calls four_bytes)
buffer_run-Refines_example =
    buffer_run-Refines 2 2048 calls cell four_bytes calls-IsShort four_bytes-Refines
