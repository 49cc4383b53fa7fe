-- ===== src/CLib/Snprintf.antt =====
-- `snprintf(buf, size, …)`: the text that is left in the buffer, without its NUL.
use io_t_project.Prelude.{ℕ, ◌-◌, ◌<◌, ◌≡◌, Bytes, length, take, take_all, arith}

unfoldable pub snprintf : (size : ℕ) → Bytes → Bytes
snprintf size text = take (size - 1) text

-- A text that leaves room for the NUL is written whole.
pub snprintf_whole : (size : ℕ) (text : Bytes) → length text < size → snprintf size text ≡ text
unfolding snprintf
snprintf_whole size text h = take_all (size - 1) text (omega (arith, h))
