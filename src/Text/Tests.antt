-- ===== src/Text/Tests.antt =====
-- The string methods on texts like those that the tools read.
use krg_infra.Prelude.{◌≡◌, refl, true, [], ◌∷◌}
use krg_infra.Text.{split, split_at, split_lines, has_text, strip, decimal}

split_ids : split "  4f2a\n91bc \n" ≡ "4f2a" ∷ "91bc" ∷ []
unfolding split
split_ids = refl

split_tab : split_at 9 "app-1\tweb" ≡ "app-1" ∷ "web" ∷ []
unfolding split_at
split_tab = refl

split_text_lines : split_lines "a\r\nb\n" ≡ "a" ∷ "b" ∷ []
unfolding split_lines
split_text_lines = refl

drain_file_found : has_text "/tmp/krg-drain" "test ! -f /tmp/krg-drain && wget" ≡ true
unfolding has_text
drain_file_found = refl

stripped : strip " x y\n" ≡ "x y"
unfolding strip
stripped = refl

decimal_120 : decimal 120 ≡ "120"
unfolding decimal
decimal_120 = refl
