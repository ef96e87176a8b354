-- ===== src/Lib.antt =====
-- rockchip-vaapi is a VA-API driver for the video units of Rockchip SoCs. A client hands it parsed
-- stream parameters and slice data; the driver keeps its objects in handle tables, rebuilds the
-- parameter sets that the hardware decoder reads, and sizes the frames that the decoder fills.
--
-- The parts, and the files that model them:
--   * ObjectHeap (src/object_heap.c): the table from identifiers to objects. An identifier is type,
--     generation and slot index; a `Heap` is the C structure with its slots as a list, and each
--     `rk_object_heap_*` call a function on it. Objects are addresses of a `Store` of reference
--     counts. ObjectHeap/Invariant says what a well-formed heap is, History what a sequence of calls
--     is; Insertion, Removal, Stale, Fresh and References hold the theorems.
--   * Bitstream (src/bs.h): the bit writer `BSWriter`. Bitstream/Content says which bits a writer
--     holds, Elements puts whole syntax elements behind each other, and Decoder is a reader of syntax
--     tables that is independent of the writers.
--   * Hevc (src/hevc.c): Hevc/Reader is the bit reader, and Hevc/Golomb reads what the writer wrote;
--     Hevc/Slice is `rk_hevc_parse_slice_info`, and Hevc/SliceInfo what it reads; Hevc/Rps is
--     `collect_rps` with its sort, and Hevc/Rps/Sorted and Hevc/Rps/Collected what
--     they give, Hevc/Rps/Accepted when. Hevc/Parameters has the VA-API structures, Hevc/Validate
--     `validate_picture_parameters` and `tile_spacing_is_uniform`, and Hevc/Validated and
--     Hevc/Validate/Tiles their meaning; Hevc/Matrices is `write_scaling_lists`, Hevc/Writers the
--     writers of the VPS, SPS and PPS, and Hevc/Writers/Written what their bytes decode to.
--     Hevc/Syntax, Hevc/SpsSyntax, Hevc/PpsSyntax and Hevc/Matrices/Syntax are the syntax tables of the
--     standard as decoders, with what the parameters say in its words, and Hevc/Read and Hevc/ReadPps
--     run them on what is written. Hevc/Rewrite is `rk_hevc_rewrite_slice_nal`: Positions follows the reader, Copied, Sets and
--     Body the writer, and Rewritten joins them.
--   * Nal (src/h264.c and src/hevc.c): emulation prevention and its inverse. Nal/ParameterSet joins
--     the writer, the escapes and the reader.
--   * H264 (src/h264.c): the level, the SPS, the PPS and the scaling lists. The list of elements of
--     a parameter set follows the `bs_write` calls one by one. H264/Syntax, H264/PpsSyntax and
--     H264/Matrices are the syntax tables of the standard; `more_rbsp_data()` is an argument of the PPS's.
--   * Vp9 (src/vp9.c): the frame header parser and the packet that repeats a frame.
--   * FrameLayout (src/frame_layout.c): buffer sizes that are tested against overflow.
--   * Buffers (src/buffer.c): a `Buffer` is an `RKBuffer` that owns its memory, with the calls that create,
--     resize, fill and map it; Buffers/Contents has its sizes, and Buffers/Coded the cell that a coded
--     buffer is for the encoder (src/mpp_enc.c) and for `rk_SyncBuffer` (src/rockchip_drv_video.c).
--     Buffers/Derived has the buffers of derived images as steps that give the system calls they make, with
--     what is held in Derived/Balanced and the layouts in Derived/Current.
--   * Images (src/buffer.c): the layout of `rk_CreateImage` with `image_plane_fits`, in Images/Layout and
--     Images/Planes, and `rk_PutImage` in Images/Put, where memory is a function from addresses.
--   * Base: tests, lists, bits and integers that the parts share.
-- The writers of H264 use Bitstream and Nal; the readers of Vp9 and Hevc are compared with the bits
-- of Bitstream.
--
-- Memory: a buffer is the list of its bytes, and a call that gives false, NULL or -1 gives `none`;
-- what it has written into an output buffer by then is not seen. NULL arguments are left out where
-- the code only returns for them. `realloc` is a Boolean argument of the insertion: whether it gives
-- memory. The compare-and-exchange loop of `rk_object_ref` is one atomic step.
--
-- Numbers are natural numbers with the wrap-around of their C types written out, where a type could
-- overflow. Loops with a bound on their rounds: 32 halvings bring a 32-bit number to 1, 8 writes
-- bring the writer to the start of a byte, and the loop over the zeros of
-- a Golomb code gives up at 32; `ceil_log2_u32` halves a 32-bit number at most 32 times.
--
-- Not modelled: `rk_DeriveImage`, the queries and the lookups in the heaps in src/buffer.c, and the objects
-- that talk to the MPP, RGA and DRM libraries (src/surface.c, src/context.c, src/mpp_dec.c, the rest of
-- src/mpp_enc.c, src/export.c, src/convert.c, the rest of src/rockchip_drv_video.c), whose state is
-- bound to that of those libraries; logging, and the test programs.
pub mod Base
pub mod ObjectHeap
pub mod Bitstream
pub mod Hevc
pub mod Nal
pub mod Vp9
pub mod Buffers
pub mod Images
pub mod FrameLayout
pub mod H264
