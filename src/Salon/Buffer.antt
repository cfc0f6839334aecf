-- ===== src/Salon/Buffer.antt =====
-- The functions of GTK's text buffer that Salon/UI.c calls, and what their documentation says of
-- them.
use antibawirus.Common.{◌≡◌, ◌++◌}
use antibawirus.Common.Text.{Text}

pub record TextBuffer : Type 1 where
  pub Buffer : Type 0
  pub empty_buffer : Buffer
  pub set_text : Text → Buffer → Buffer
  pub insert_at_cursor : Text → Buffer → Buffer
  pub get_text : Buffer → Text

-- `AtEnd b` says that the cursor of `b` is behind the whole text.
pub record IsTextBuffer (tb : TextBuffer) : Type 1 where
  pub AtEnd : tb.Buffer → Type 0
  pub set_text-AtEnd : (t : Text) (b : tb.Buffer) → AtEnd (tb.set_text t b)
  pub get_text-set_text : (t : Text) (b : tb.Buffer) → tb.get_text (tb.set_text t b) ≡ t
  pub insert-AtEnd : (t : Text) (b : tb.Buffer) → AtEnd b → AtEnd (tb.insert_at_cursor t b)
  pub get_text-insert :
      (t : Text) (b : tb.Buffer)
      → AtEnd b
      → tb.get_text (tb.insert_at_cursor t b) ≡ tb.get_text b ++ t
