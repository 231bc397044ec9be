-- ===== src/Tests/Frames.antt =====
-- A run of the two ends of src/common/overlay_frame_shm.h.
use sigaw.Prelude.{ℕ, ◌≡◌, refl, ◌∷◌, [], true, false, none, some, arith}
use sigaw.Config.Types.{bottom_left, top_right}
use sigaw.Overlay.Frame.{OverlayFrameSnapshot, zero_header, Store}
use sigaw.Overlay.Writer.{OverlayFrameWriter, publish, succeeds, is_mapped}
use sigaw.Overlay.Reader.{OverlayFrameReader, read}
use sigaw.Overlay.Mapped.{Maps}
use sigaw.Overlay.Shown.{quiet, ReadAs, last_of, read-publish}

abbrev one_pixel : OverlayFrameSnapshot
one_pixel = record {
  visible = true;
  position = bottom_left;
  margin_px = 12;
  width = 1;
  height = 1;
  stride = 4;
  sequence = 0;
  rgba = 10 ∷ 20 ∷ 30 ∷ 255 ∷ [];
}

abbrev no_frame : OverlayFrameSnapshot
no_frame = record {
  visible = false;
  position = top_right;
  margin_px = 0;
  width = 0;
  height = 0;
  stride = 0;
  sequence = 0;
  rgba = [];
}

abbrev new_writer : OverlayFrameWriter
new_writer = record { mapping = none; mapped_size = 0; sequence = 0 }

abbrev no_objects : Store
no_objects = record {
  objects = λ _. record { size = 0; header = zero_header; pixels = [] };
  named = none;
  next = 0;
}

-- A reader that has the first object mapped, and has read its second frame.
abbrev old_reader : OverlayFrameReader
old_reader = record {
  mapping = some 7;
  mapped_size = 64;
  mapped_stat = (7, 64);
  stat_valid = true;
  version_warned = false;
  last_seq = 4;
  probe_interval = 250000000;
  next_probe = 5;
}

read-publish_example :
    let (ok, v, t) = publish succeeds one_pixel new_writer no_objects in
    (ok ≡ true)
    × ((k : ℕ) × Maps v t k
        × ReadAs one_pixel v.sequence
            (last_of old_reader k (t.objects k).size)
            no_frame
            (read 5 true (quiet t) t no_frame old_reader))
unfolding is_mapped
read-publish_example =
    read-publish one_pixel new_writer no_objects 5 no_frame old_reader (omega arith) refl
      (λ k e. absurd (ground (arith, e))) (λ k e. (ground (arith, e), refl)) refl
