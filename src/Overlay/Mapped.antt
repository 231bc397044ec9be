-- ===== src/Overlay/Mapped.antt =====
-- What `OverlayFrameWriter` of src/common/overlay_frame_shm.h keeps, and what `publish` leaves in the memory.
use sigaw.Prelude.{
  ℕ, ◌+◌, ◌%◌, ◌^◌, ◌<◌, ◌≤◌, zero, suc, ◌==◌, ◌≡◌, refl, sym, ◌∙◌, ap, subst, Option_rule, ==_iff,
  Bool, true, not, ◌&&◌, List, [], ◌∷◌, ◌++◌, Option, none, some, arith, length, take, str_eq_iff,
  if_rule,
}
use sigaw.Protocol.{sigaw_overlay_magic, sigaw_version}
use sigaw.Overlay.Frame.{
  OverlayFrameSnapshot, overlay_anchor, header_size, Object, Store, put_object, resized, shm_open,
}
use sigaw.Overlay.Writer.{
  OverlayFrameWriter, if_visible, byte_size_of, same_payload, with_frame, write_frame,
  ensure_mapping, open_mapping, publish, is_mapped, close, succeeds, initial_header, initial_header,
}

-- An object that holds a frame.
pub record Holds (frame : OverlayFrameSnapshot) (o : Object) : Type 0 where
  pub size : o.size ≡ header_size + byte_size_of frame
  pub magic : o.header.magic ≡ sigaw_overlay_magic
  pub version : o.header.version ≡ sigaw_version
  pub visible : o.header.visible ≡ if_visible frame 1
  pub anchor : o.header.anchor ≡ overlay_anchor frame.position
  pub margin_px : o.header.margin_px ≡ frame.margin_px
  pub width : o.header.width ≡ if_visible frame frame.width
  pub height : o.header.height ≡ if_visible frame frame.height
  pub stride : o.header.stride ≡ if_visible frame frame.stride
  pub byte_size : o.header.byte_size ≡ byte_size_of frame
  pub pixels : take (byte_size_of frame) o.pixels ≡ take (byte_size_of frame) frame.rgba

-- The writer has the named object mapped, with its size and its sequence number, which is even.
pub record Maps (w : OverlayFrameWriter) (s : Store) (k : ℕ) : Type 0 where
  pub mapping : w.mapping ≡ some k
  pub named : s.named ≡ some k
  pub size : (s.objects k).size ≡ w.mapped_size
  pub sequence : (s.objects k).header.sequence ≡ w.sequence
  pub even : w.sequence % 2 ≡ 0

same_payload-Holds :
    (frame : OverlayFrameSnapshot) (n : ℕ) (o : Object)
    → o.size ≡ n
    → same_payload frame (byte_size_of frame) n o ≡ true
    → Holds frame o
unfolding same_payload
same_payload-Holds frame n o size same =
    let pixels =
      str_eq_iff (take (byte_size_of frame) o.pixels) (take (byte_size_of frame) frame.rgba) in
    record {
      size = ground (arith, size, same);
      magic = ground (arith, same);
      version = ground (arith, same);
      visible = ground (arith, same);
      anchor = ground (arith, same);
      margin_px = ground (arith, same);
      width = ground (arith, same);
      height = ground (arith, same);
      stride = ground (arith, same);
      byte_size = ground (arith, same);
      pixels = pixels.0 (ground (arith, same));
    }

byte_size_le : (frame : OverlayFrameSnapshot) → byte_size_of frame ≤ length frame.rgba
byte_size_le frame = ground arith

take-take_append :
    {A : Type 0} (n : ℕ) (xs ys : List A) → n ≤ length xs → take n (take n xs ++ ys) ≡ take n xs
take-take_append zero xs ys h = refl
take-take_append (suc n) [] ys h = absurd (omega arith)
take-take_append (suc n) (x ∷ xs) ys h = ap (◌∷◌ x) (take-take_append n xs ys (omega arith))

with_frame-Holds :
    (frame : OverlayFrameSnapshot) (sequence : ℕ) (o : Object)
    → length frame.rgba < 2 ^ 32
    → o.size ≡ header_size + byte_size_of frame
    → Holds frame (with_frame frame (byte_size_of frame) sequence o)
unfolding with_frame
with_frame-Holds frame sequence o small size = record {
  size = size;
  magic = refl;
  version = refl;
  visible = refl;
  anchor = refl;
  margin_px = refl;
  width = refl;
  height = refl;
  stride = refl;
  byte_size = omega (arith, byte_size_le frame);
  pixels = take-take_append _ frame.rgba _ (byte_size_le frame);
}

pub put_object-objects : (k : ℕ) (o : Object) (s : Store) → (put_object k o s).objects k ≡ o
unfolding put_object
put_object-objects k o s = let e : (k == k) ≡ true = (==_iff k k).1 refl in rw e refl

-- After `ensure_mapping` a frame is stored, unless it is there already.
write_frame-Holds :
    (frame : OverlayFrameSnapshot) (w : OverlayFrameWriter) (s : Store) (k : ℕ)
    → length frame.rgba < 2 ^ 32
    → Maps w s k
    → w.mapped_size ≡ header_size + byte_size_of frame
    → let (v, t) = write_frame frame (some k) w s in Maps v t k × Holds frame (t.objects k)
unfolding write_frame put_object with_frame
write_frame-Holds frame w s k small m size =
    let o = s.objects k in
    let next = (w.sequence + 2) % 2 ^ 64 in
    let p = with_frame frame (byte_size_of frame) next o in
    let stored = put_object-objects k p s in
    if_rule (λ (q : OverlayFrameWriter × Store). Maps q.0 q.1 k × Holds frame (q.1.objects k))
      (same_payload frame (byte_size_of frame) w.mapped_size o) _ _
      (λ same. (m, same_payload-Holds frame w.mapped_size o m.size same))
      (λ differs. (
        record {
          mapping = m.mapping;
          named = m.named;
          size = ap (λ x. x.size) stored ∙ m.size;
          sequence = ap (λ x. x.header.sequence) stored;
          even = omega (arith, m.even);
        },
        subst (Holds frame) (sym stored) (with_frame-Holds frame next o small (m.size ∙ size)),
      ))

shm_open-named : (s : Store) → let (k, t) = shm_open s in t.named ≡ some k
unfolding shm_open put_object
shm_open-named s =
    Option_rule (λ (q : ℕ × Store). q.1.named ≡ some q.0) s.named _ _ (λ _. refl) (λ k e. e)

pub is_mapped-some : (m : Option ℕ) → is_mapped m ≡ true → (k : ℕ) × (m ≡ some k)
unfolding is_mapped
is_mapped-some none e = absurd (ground (arith, e))
is_mapped-some (some k) e = (k, refl)

-- What `ensure_mapping` gives if the system calls succeed.
Ensured : ℕ → Bool × OverlayFrameWriter × Store → Type 0
Ensured n (ok, v, t) = (ok ≡ true) × (v.mapped_size ≡ n) × ((k : ℕ) × Maps v t k)

open_mapping-Ensured :
    (n : ℕ) (w : OverlayFrameWriter) (s : Store)
    → w.sequence % 2 ≡ 0
    → Ensured n (open_mapping succeeds n w s)
unfolding open_mapping Ensured put_object resized
open_mapping-Ensured n w s even =
    let (k, t) = shm_open s in
    let o : Object = record (resized n (t.objects k)) { header = initial_header w.sequence } in
    let stored = put_object-objects k o t in
    (
      refl,
      refl,
      (
        k,
        record {
          mapping = refl;
          named = shm_open-named s;
          size = ap (λ x. x.size) stored;
          sequence = ap (λ x. x.header.sequence) stored;
          even = even;
        },
      ),
    )

ensure_mapping-Ensured :
    (n : ℕ) (w : OverlayFrameWriter) (s : Store)
    → w.sequence % 2 ≡ 0
    → ((k : ℕ) → w.mapping ≡ some k → Maps w s k)
    → Ensured n (ensure_mapping succeeds n w s)
unfolding ensure_mapping close Ensured
ensure_mapping-Ensured n w s even inv =
    let (c, t) = close w s in
    if_rule (Ensured n) (is_mapped w.mapping && w.mapped_size == n) _ _
      (λ there.
        let (k, e) = is_mapped-some w.mapping (ground (arith, there)) in
        (refl, ground (arith, there), (k, inv k e)))
      (λ other. open_mapping-Ensured n c t even)

-- Whatever the memory held and whichever size the mapping had: `publish`, if the system calls succeed,
-- returns `true` and leaves the named object holding the frame, mapped by the writer, with its sequence number.
pub publish-Holds :
    (frame : OverlayFrameSnapshot) (w : OverlayFrameWriter) (s : Store)
    → length frame.rgba < 2 ^ 32
    → w.sequence % 2 ≡ 0
    → ((k : ℕ) → w.mapping ≡ some k → Maps w s k)
    → let (ok, v, t) = publish succeeds frame w s in
      (ok ≡ true) × ((k : ℕ) × Maps v t k × Holds frame (t.objects k))
unfolding publish Ensured
publish-Holds frame w s small even inv =
    let n = header_size + byte_size_of frame in
    let (_, v, t) = ensure_mapping succeeds n w s in
    let (ok, size, (k, m)) = ensure_mapping-Ensured n w s even inv in
    if_rule
      (λ (q : Bool × OverlayFrameWriter × Store).
        (q.0 ≡ true) × ((k : ℕ) × Maps q.1 q.2 k × Holds frame (q.2.objects k)))
      (not (ensure_mapping succeeds n w s).0) _ _ (λ no. absurd (ground (arith, ok, no)))
      (λ _.
        let (maps, holds) =
          subst
            (λ o.
              Maps (write_frame frame o v t).0 (write_frame frame o v t).1 k
              × Holds frame ((write_frame frame o v t).1.objects k))
            (sym m.mapping) (write_frame-Holds frame v t k small m size) in
        (refl, (k, maps, holds)))
