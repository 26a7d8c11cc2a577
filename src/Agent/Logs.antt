-- ===== src/Agent/Logs.antt =====
-- The texts of logs in the agent, agent/src/tasks/process_logs.rs. A slice of a text at a byte that does
-- not begin a character panics: then the result is none.
pub mod Laws
use Prim.Native.Char.{Char, code}
use lightai_platform.Prelude.{
  ℕ, zero, suc, ◌+◌, ◌-◌, String, Bool, true, false, not, ◌&&◌, ◌||◌, Option, none, some, List, [],
  ◌∷◌, ◌++◌, ◌==◌, ◌<>◌, leb, ltb, nat_eq, map, any, if◌then◌else◌,
}
use lightai_platform.Prelude.Rows.{select_one}
use lightai_platform.Prelude.Text.{trim, byte_length, char_bytes, split_on}
use lightai_platform.Prelude.Decimal.{codes, lower_codes, contains_codes}

-- `&s[start..]`, and none where it panics
unfoldable pub slice_from : ℕ → String → Option String
slice_from zero s = some s
slice_from (suc n) String.[] = none
slice_from (suc n) (String.◌∷◌ c s) =
    let rest = slice_from (suc n - char_bytes (code c)) s in
    if leb (char_bytes (code c)) (suc n) then rest else none

unfoldable pub tail_bytes : String → ℕ → Option String
unfolding byte_length slice_from
tail_bytes s max_bytes =
    if leb (byte_length s) max_bytes then some s else slice_from (byte_length s - max_bytes) s

abbrev pub max_log_bytes : ℕ
max_log_bytes = 8192

unfoldable pub trim_log_buffer : String → Option String
unfolding byte_length slice_from
trim_log_buffer buffer =
    if ltb max_log_bytes (byte_length buffer)
    then slice_from (byte_length buffer - max_log_bytes) buffer
    else some buffer

-- `log_tail` of the buffer's text
unfoldable pub log_tail : String → Option String
unfolding trim
log_tail buffer = let value = trim buffer in if value == "" then none else some value

abbrev pub log_tail_with_path : Option String → Option String → Option String
log_tail_with_path (some path) (some tail) = some ("log file: " <> (path <> ("\n" <> tail)))
log_tail_with_path (some path) none = some ("log file: " <> path)
log_tail_with_path none tail = tail

-- `chars().take(n)`
unfoldable pub take_first : ℕ → String → String
take_first zero s = ""
take_first (suc n) String.[] = ""
take_first (suc n) (String.◌∷◌ c s) = String.◌∷◌ c (take_first n s)

abbrev pub sensitive_words : List String
sensitive_words = "token" ∷ "secret" ∷ "password" ∷ "api_key" ∷ "apikey" ∷ "authorization" ∷ []

unfoldable pub is_sensitive : String → Bool
unfolding any codes lower_codes contains_codes
is_sensitive line = any (λ needle. contains_codes (codes needle) (lower_codes line)) sensitive_words

abbrev pub sanitize_line : String → String
sanitize_line line =
    if is_sensitive line then "[redacted — sensitive log line]" else take_first 500 line

-- the carriage return at the end of a line
unfoldable pub strip_cr : String → String
strip_cr String.[] = ""
strip_cr (String.◌∷◌ c s) =
    let rest = strip_cr s in if nat_eq (code c) 13 && s == "" then "" else String.◌∷◌ c rest

-- the parts between line feeds, without an empty one at the end
unfoldable pub without_last_empty : List String → List String
without_last_empty [] = []
without_last_empty (s ∷ []) = if s == "" then [] else s ∷ []
without_last_empty (s ∷ t ∷ rest) = s ∷ without_last_empty (t ∷ rest)

-- `str::lines`
unfoldable pub lines : String → List String
unfolding split_on strip_cr without_last_empty
lines s = map strip_cr (without_last_empty (split_on 10 s))

-- the lines that `sanitize_log` joins with line feeds
unfoldable pub sanitized_lines : String → List String
unfolding lines is_sensitive take_first
sanitized_lines s = map sanitize_line (lines s)

abbrev pub is_content : String → Bool
is_content line = not (line == "") && not (line == "stdout:") && not (line == "stderr:")

abbrev pub first_220 : Option String → Option String
first_220 none = none
first_220 (some line) = some (take_first 220 line)

abbrev pub first_log_line : Option String → Option String
first_log_line none = none
first_log_line (some tail) = first_line tail
  where
    first_line : String → Option String
    first_line s = first_220 (select_one is_content (map trim (lines s)))
