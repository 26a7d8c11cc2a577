-- ===== src/Agent/Tests/Logs.antt =====
-- The tail of a text with a character of two bytes.
use Prim.Native.Char.{code}
use lightai_platform.Prelude.{◌≡◌, refl, some, none, ◌<◌, ◌+◌, String, arith, min}
use lightai_platform.Prelude.Text.{byte_length, char_bytes}
use lightai_platform.Agent.Logs.{tail_bytes}
use lightai_platform.Agent.Logs.Laws.{followed_by, tail_bytes_bound, tail_bytes_panics}

tail_is_read : tail_bytes "log: é" 3 ≡ some " é"
unfolding tail_bytes
tail_is_read = refl

tail_bytes_bound_example : byte_length " é" ≡ min (byte_length "log: é") 3
tail_bytes_bound_example = tail_bytes_bound "log: é" " é" 3 tail_is_read

cut_is_low : byte_length "t" < 2
unfolding byte_length
cut_is_low = omega arith

cut_is_high : 2 < byte_length "t" + char_bytes (code "é")
unfolding byte_length
cut_is_high = omega arith

tail_bytes_panics_example : tail_bytes (followed_by "log: " (String.◌∷◌ "é" "t")) 2 ≡ none
tail_bytes_panics_example = tail_bytes_panics "log: " "é" "t" 2 cut_is_low cut_is_high
