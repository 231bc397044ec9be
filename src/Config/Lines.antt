-- ===== src/Config/Lines.antt =====
-- The lines of a configuration file that src/common/config.h writes are those that it reads.
use sigaw.Prelude.{
  ℕ, ◌≡◌, refl, ◌∙◌, ap, Bool, true, false, ◌&&◌, ◌||◌, List, [], ◌∷◌, ◌++◌, map, arith, Bytes, lit,
  ◌==◌, any_of, All,
}
use sigaw.Prelude.Int.{ℤ}
use sigaw.Text.{to_string_int}
use sigaw.Text.Print.{IsNumeral, to_string_int-IsNumeral}
use sigaw.Config.Types.{
  FloatLib, OverlayPosition, top_left, top_right, bottom_left, bottom_right, Config,
}
use sigaw.Config.Save.{position_name, bool_name, entry_line}
use sigaw.Config.Store.{joined, onto_first, getlines, default_lines}
use sigaw.Config.Items.{Item, remark, entry, text_of, items_of, values_of, is_line, IsStorable}

abbrev IsLine : Bytes → Type 0
IsLine s = is_line s ≡ true

getlines-line :
    (line text : Bytes) → IsLine line → getlines (line ++ (10 ∷ text)) ≡ line ∷ getlines text
unfolding getlines any_of onto_first
getlines-line [] text h = refl
getlines-line (c ∷ line) text h =
    rw (getlines-line line text (ground (arith, h))) (ground (arith, h))

pub getlines-joined : (lines : List Bytes) → All IsLine lines → getlines (joined lines) ≡ lines
unfolding getlines joined
getlines-joined [] h = refl
getlines-joined (line ∷ lines) h =
    getlines-line line (joined lines) h.0 ∙ ap (◌∷◌ line) (getlines-joined lines h.1)

any_of-append : (p : ℕ → Bool) (s t : Bytes) → any_of p (s ++ t) ≡ (any_of p s || any_of p t)
unfolding any_of
any_of-append p [] t = refl
any_of-append p (c ∷ s) t = ground (arith, any_of-append p s t)

entry_line-IsLine : (key value : Bytes) → IsLine key → IsLine value → IsLine (entry_line key value)
unfolding entry_line any_of
entry_line-IsLine key value h k =
    ground (arith, any_of-append (λ c. c == 10) key (b'=' ∷ value), h, k)

-- The remarks and the keys are lines.
test_lines : List Item → Bool
test_lines [] = true
test_lines (remark line ∷ items) = is_line line && test_lines items
test_lines (entry key value ∷ items) = is_line key && test_lines items

test_lines-IsLine :
    (items : List Item)
    → test_lines items ≡ true
    → All IsLine (values_of items)
    → All IsLine (map text_of items)
unfolding test_lines values_of text_of
test_lines-IsLine [] h t = tt
test_lines-IsLine (remark line ∷ items) h t =
    (ground (arith, h), test_lines-IsLine items (ground (arith, h)) t)
test_lines-IsLine (entry key value ∷ items) h t = (
  entry_line-IsLine key value (ground (arith, h)) t.0,
  test_lines-IsLine items (ground (arith, h)) t.1,
)

position_name-IsLine : (p : OverlayPosition) → IsLine (position_name p)
unfolding position_name any_of lit
position_name-IsLine top_left = refl
position_name-IsLine top_right = refl
position_name-IsLine bottom_left = refl
position_name-IsLine bottom_right = refl

bool_name-IsLine : (b : Bool) → IsLine (bool_name b)
unfolding bool_name any_of lit
bool_name-IsLine true = refl
bool_name-IsLine false = refl

numeral-IsLine : (s : Bytes) → All IsNumeral s → IsLine s
unfolding any_of
numeral-IsLine [] h = refl
numeral-IsLine (c ∷ s) h = ground (arith, h.0, numeral-IsLine s h.1)

to_string_int-IsLine : (z : ℤ) → IsLine (to_string_int z)
to_string_int-IsLine z = numeral-IsLine (to_string_int z) (to_string_int-IsNumeral z)

pub default_lines-IsLine :
    (FL : FloatLib) (c : Config FL) → IsStorable FL c → All IsLine (default_lines FL c)
unfolding default_lines items_of test_lines values_of text_of any_of lit
default_lines-IsLine FL c p = test_lines-IsLine (items_of FL c) refl (
  position_name-IsLine c.position,
  (
    p.scale.one_line,
    (
      p.opacity.one_line,
      (
        bool_name-IsLine c.show_avatars,
        (
          bool_name-IsLine c.show_channel,
          (
            bool_name-IsLine c.show_voice_channel_chat,
            (
              bool_name-IsLine c.compact,
              (
                to_string_int-IsLine c.max_visible,
                (
                  to_string_int-IsLine c.max_visible_chat_messages,
                  (
                    bool_name-IsLine c.visible,
                    (p.client_id.one_line, (p.client_secret.one_line, tt)),
                  ),
                ),
              ),
            ),
          ),
        ),
      ),
    ),
  ),
)
